-- ===== src/Rbtree/Walk/Cleared.antt =====
-- A node that KS_RB_CLEAR_NODE has made its own parent.
use fping.Base.{ℕ, ◌≡◌, refl, true, some, eq→true}
use fping.Rbtree.{Ptr, null, Side, Heap, clear_node, empty_node}
use fping.Rbtree.Shape.{Color}
use fping.Rbtree.Focus.{cell}
use fping.Rbtree.Focus.Holds.{Holds, put, set_parent-ok, parent-ok, Holds-put}
use fping.Rbtree.Walk.{neighbor}

-- KS_RB_CLEAR_NODE on a node in memory makes KS_RB_EMPTY_NODE true, and `ks_rb_next` and `ks_rb_prev`
-- then return NULL for the node, whatever its links are.
pub clear_node-neighbor :
    (h : Heap) (a up : Ptr) (c : Color) (l r : Ptr)
    → Holds Side.left h a up c l r
    → (g : Heap) × (clear_node a h ≡ some (tt, g))
      × (empty_node a g ≡ some (true, g))
      × ((s : Side) (fuel : ℕ) → neighbor s fuel a g ≡ some (null, g))
unfolding empty_node neighbor
clear_node-neighbor h a up c l r held =
    let g = put h a (cell Side.left a c l r) in
    let held' : Holds Side.left g a a c l r =
      Holds-put Side.left h a a c l r held.is held.is.aligned in
    (
      g,
      set_parent-ok Side.left a held,
      rw (parent-ok Side.left held', eq→true a) refl,
      λ s fuel. rw (parent-ok Side.left held', eq→true a) refl,
    )
