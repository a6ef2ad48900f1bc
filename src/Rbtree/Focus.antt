-- ===== src/Rbtree/Focus.antt =====
-- When the nodes in memory represent a tree, seen from one of its subtrees.
pub mod Attach
pub mod Frame
pub mod Holds
pub mod Paint
pub mod Read
pub mod Turn
use fping.Base.{
  ℕ, zero, ◌+◌, ◌*◌, ◌/◌, ◌%◌, ◌≤◌, ◌<◌, ◌≡◌, ◌≢◌, refl, ◌==◌, if◌then◌else◌, Bool, true, false,
  Option, none, some, arith, ◌∙◌, sym, ap, subst,
}
use fping.Rbtree.{
  Ptr, null, Side, other, Node, link, with_link, Heap, write, word_parent, word_color,
}
use fping.Rbtree.Shape.{
  Color, red, black, Tree, leaf, node, join, Ctx, top, frame, ptr, owner, at, count, count_ctx,
  count-join, join-other, ptr-join,
}

abbrev pub bit : Color → ℕ
bit red = 0
bit black = 1

-- a node with a parent, a colour and its children on the sides `s` and `other s`
abbrev pub cell : Side → Ptr → Color → Ptr → Ptr → Node
cell Side.left up c near far = record { parent_color = up + bit c; right = far; left = near }
cell Side.right up c near far = record { parent_color = up + bit c; right = near; left = far }

-- nodes are aligned
pub record IsNode (a : Ptr) : Type 0 where
  pub ne_null : a ≢ null
  pub aligned : a % 4 ≡ 0

abbrev pub Nodes : Type 0
Nodes = Ptr → Option Node

-- `h` holds the tree `t` below `up`
abbrev pub Rep : Nodes → Ptr → Tree → Type 0
Rep h up leaf = Unit {0}
Rep h up (node c l a r) =
    IsNode a × (h a ≡ some (cell Side.left up c (ptr l) (ptr r))) × Rep h a l × Rep h a r

-- `h` holds all nodes around a subtree at `p`, and `root` is the address of the root
abbrev pub Around : Nodes → Ptr → Ctx → Ptr → Type 0
Around h root top p = root ≡ p
Around h root (frame s c a sibling up) p =
    IsNode a
    × (h a ≡ some (cell s (owner up) c p (ptr sibling)))
    × Rep h a sibling
    × Around h root up a

pub record Focus (h : Heap) (k : Ctx) (t : Tree) : Type 0 where
  pub around : Around h.nodes h.root k (ptr t)
  pub inside : Rep h.nodes (owner k) t
  pub once : (q : Ptr) → count q t + count_ctx q k ≤ 1

pub Rep-join :
    (s : Side) (h : Nodes) (up : Ptr) (c : Color) (x : Tree) (a : Ptr) (y : Tree)
    → Rep h up (join s c x a y)
    → IsNode a × (h a ≡ some (cell s up c (ptr x) (ptr y))) × Rep h a x × Rep h a y
Rep-join Side.left h up c x a y r = r
Rep-join Side.right h up c x a y (n, e, l, r) = (n, e, r, l)

pub join-Rep :
    (s : Side) (h : Nodes) (up : Ptr) (c : Color) (x : Tree) (a : Ptr) (y : Tree)
    → IsNode a × (h a ≡ some (cell s up c (ptr x) (ptr y))) × Rep h a x × Rep h a y
    → Rep h up (join s c x a y)
join-Rep Side.left h up c x a y r = r
join-Rep Side.right h up c x a y (n, e, l, r) = (n, e, r, l)

-- a write elsewhere keeps a tree
pub Rep-write :
    (t : Tree) (h : Nodes) (up a : Ptr) (n : Node)
    → count a t ≡ 0
    → Rep h up t
    → Rep (write h a n) up t
unfolding write
Rep-write leaf h up a n none_there r = tt
Rep-write (node c l b r) h up a n none_there (is, e, x, y) =
    (is, ground arith, Rep-write l h b a n (ground arith) x, Rep-write r h b a n (ground arith) y)

pub Around-write :
    (k : Ctx) (h : Nodes) (root p a : Ptr) (n : Node)
    → count_ctx a k ≡ 0
    → Around h root k p
    → Around (write h a n) root k p
unfolding write
Around-write top h root p a n none_there r = r
Around-write (frame s c b sibling up) h root p a n none_there (is, e, x, y) = (
  is,
  ground arith,
  Rep-write sibling h b a n (ground arith) x,
  Around-write up h root b a n (ground arith) y,
)

-- one step of the focus
pub Focus-up :
    (s : Side) {h : Heap} {c : Color} {a : Ptr} {sibling t : Tree} {k : Ctx}
    → Focus h (frame s c a sibling k) t
    → Focus h k (join s c t a sibling)
Focus-up Side.left f = record {
  around = f.around.3;
  inside = (f.around.0, f.around.1, f.inside, f.around.2);
  once = λ q. omega (arith, f.once q);
}
Focus-up Side.right f = record {
  around = f.around.3;
  inside = (f.around.0, f.around.1, f.around.2, f.inside);
  once = λ q. omega (arith, f.once q);
}

pub Focus-down :
    (s : Side) {h : Heap} {c : Color} {a : Ptr} {sibling t : Tree} {k : Ctx}
    → Focus h k (join s c t a sibling)
    → Focus h (frame s c a sibling k) t
Focus-down Side.left f = record {
  around = (f.inside.0, f.inside.1, f.inside.3, f.around);
  inside = f.inside.2;
  once = λ q. omega (arith, f.once q);
}
Focus-down Side.right f = record {
  around = (f.inside.0, f.inside.1, f.inside.2, f.around);
  inside = f.inside.3;
  once = λ q. omega (arith, f.once q);
}

pub Focus-across :
    (s : Side) {h : Heap} {c : Color} {a : Ptr} {sibling t : Tree} {k : Ctx}
    → Focus h (frame s c a sibling k) t
    → Focus h (frame (other s) c a t k) sibling
Focus-across Side.left f = Focus-down Side.right (Focus-up Side.left f)
Focus-across Side.right f = Focus-down Side.left (Focus-up Side.right f)

pub Focus-back :
    (s : Side) {h : Heap} {c : Color} {a : Ptr} {sibling t : Tree} {k : Ctx}
    → Focus h (frame (other s) c a t k) sibling
    → Focus h (frame s c a sibling k) t
Focus-back Side.left f = Focus-across Side.right f
Focus-back Side.right f = Focus-across Side.left f

pub Focus-up_other :
    (s : Side) {h : Heap} {c : Color} {a : Ptr} {sibling t : Tree} {k : Ctx}
    → Focus h (frame (other s) c a sibling k) t
    → Focus h k (join s c sibling a t)
Focus-up_other Side.left f = Focus-up Side.right f
Focus-up_other Side.right f = Focus-up Side.left f
