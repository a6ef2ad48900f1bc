-- ===== src/Rbtree/Shape.antt =====
-- What the nodes in memory stand for: a coloured tree of their addresses, and a tree with a hole.
pub mod Balance
pub mod Order
pub mod Unplug
use fping.Base.{
  ℕ, zero, suc, ◌+◌, ◌≡◌, ◌≢◌, refl, ◌==◌, if◌then◌else◌, Bool, true, false, List, [], ◌∷◌, ◌++◌,
  arith, ◌∙◌, sym, ap,
}
use mathlib.Core.List.{append_assoc}
use fping.Rbtree.{Ptr, null, Side, other}

pub data Color : Type 0 where
  red black : Color

pub data Tree : Type 0 where
  leaf : Tree
  node : Color → Tree → Ptr → Tree → Tree

-- a node with its subtree on the side `s` and its subtree on the other side
abbrev pub join : Side → Color → Tree → Ptr → Tree → Tree
join Side.left c near a far = node c near a far
join Side.right c near a far = node c far a near

-- A hole: what is around a subtree. In a `frame` the hole is on side `s` of `a`.
pub data Ctx : Type 0 where
  top : Ctx
  frame : Side → Color → Ptr → Tree → Ctx → Ctx

abbrev pub plug : Ctx → Tree → Tree
plug top t = t
plug (frame s c a sibling up) t = plug up (join s c t a sibling)

abbrev pub ptr : Tree → Ptr
ptr leaf = null
ptr (node c l a r) = a

-- the address of the node above the hole
abbrev pub owner : Ctx → Ptr
owner top = null
owner (frame s c a sibling up) = a

abbrev pub is_red_color : Color → Bool
is_red_color red = true
is_red_color black = false

abbrev pub is_red_tree : Tree → Bool
is_red_tree leaf = false
is_red_tree (node c l a r) = is_red_color c

abbrev pub paint : Color → Tree → Tree
paint c leaf = leaf
paint c (node d l a r) = node c l a r

abbrev pub at : Ptr → Ptr → ℕ
at q a = if q == a then 1 else 0

pub at_self : (a : Ptr) → at a a ≡ 1
at_self a = ground arith

pub at_eq : (a b : Ptr) → a ≡ b → at a b ≡ 1
at_eq a b e = ground arith

pub at_ne : (a b : Ptr) → at a b ≡ 0 → a ≢ b
at_ne a b e = ground arith

-- how often an address occurs
abbrev pub count : Ptr → Tree → ℕ
count q leaf = 0
count q (node c l a r) = at q a + count q l + count q r

abbrev pub count_ctx : Ptr → Ctx → ℕ
count_ctx q top = 0
count_ctx q (frame s c a sibling up) = at q a + count q sibling + count_ctx q up

-- the addresses from left to right
abbrev pub inorder : Tree → List Ptr
inorder leaf = []
inorder (node c l a r) = inorder l ++ (a ∷ inorder r)

abbrev pub size : Tree → ℕ
size leaf = 0
size (node c l a r) = suc (size l + size r)

pub count-join :
    (s : Side) (c : Color) (x : Tree) (a : Ptr) (y : Tree) (q : Ptr)
    → count q (join s c x a y) ≡ at q a + count q x + count q y
count-join Side.left c x a y q = refl
count-join Side.right c x a y q = omega arith

pub join-other :
    (s : Side) (c : Color) (x : Tree) (a : Ptr) (y : Tree) → join (other s) c x a y ≡ join s c y a x
join-other Side.left c x a y = refl
join-other Side.right c x a y = refl

pub ptr-join : (s : Side) (c : Color) (x : Tree) (a : Ptr) (y : Tree) → ptr (join s c x a y) ≡ a
ptr-join Side.left c x a y = refl
ptr-join Side.right c x a y = refl
