-- ===== src/Rbtree/Remove.antt =====
-- `ks_rb_erase` of ks_rbtree.c, with the calls in its two branches. Its loops take fuel: two rounds more
-- than the tree has nodes are enough.
pub mod Inner
pub mod Order
pub mod Next
pub mod Splice
pub mod Unhook
pub mod Whole
use fping.Base.{ℕ, ◌==◌, if◌then◌else◌, not}
use fping.Rbtree.{
  Ptr, null, Side, M, ◌>>=◌, ◌>>◌, pure, when, load, store, child, set_child, parent, color,
  set_parent,
}
use fping.Rbtree.Rotate.{relink}
use fping.Rbtree.Walk.{descend}
use fping.Rbtree.Erase.{erase_color}

-- from `parent = ks_rb_parent(node)` on, for a node with one child or none
unfoldable pub splice : ℕ → Ptr → Ptr → M (Unit {0})
unfolding relink
splice fuel node below = do
  up ← parent node
  c ← color node
  when (not (below == null)) (set_parent below up)
  relink Side.left up node below
  if c == 1 then erase_color fuel below up else pure tt

-- the next node leaves its place, unless that is right below `old`; the result is `parent`
unfoldable pub unhook : Ptr → Ptr → Ptr → M Ptr
unhook old node below = do
  up ← parent node
  if up == old then pure node else (do
    when (not (below == null)) (set_parent below up)
    set_child Side.left up below
    right ← child Side.right old
    set_child Side.right node right
    set_parent right node
    pure up)

-- the branch for a node with two children, up to its `goto`
unfoldable pub erase_inner : ℕ → Ptr → M (Unit {0})
unfolding relink unhook
erase_inner fuel old = do
  right ← child Side.right old
  node ← descend Side.left fuel right
  above ← parent old
  relink Side.left above old node
  below ← child Side.right node
  c ← color node
  up ← unhook old node below
  word ← load old
  copy ← load node
  store node (record copy { parent_color = word.parent_color })
  left ← child Side.left old
  set_child Side.left node left
  set_parent left node
  if c == 1 then erase_color fuel below up else pure tt

unfoldable pub erase : ℕ → Ptr → M (Unit {0})
unfolding splice erase_inner
erase fuel node = do
  left ← child Side.left node
  right ← child Side.right node
  if left == null
      then splice fuel node right
      else if right == null
      then splice fuel node left
      else erase_inner fuel node
