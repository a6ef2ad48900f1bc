-- ===== src/Rbtree/Shape/Order.antt =====
-- The order of the addresses from left to right.
use fping.Base.{ℕ, List, [], length, length-append, ◌+◌, ◌≡◌, refl, sym, ◌++◌, ◌∷◌, arith, ap}
use mathlib.Core.List.{append_assoc}
use fping.Rbtree.{Ptr, Side}
use fping.Rbtree.Shape.{
  Color, Tree, leaf, node, join, Ctx, top, frame, plug, paint, inorder, count, size, at,
}

pub inorder-join :
    (s : Side) (c d : Color) (t t' : Tree) (a : Ptr) (y y' : Tree)
    → inorder t ≡ inorder t'
    → inorder y ≡ inorder y'
    → inorder (join s c t a y) ≡ inorder (join s d t' a y')
inorder-join Side.left c d t t' a y y' e e' = cc
inorder-join Side.right c d t t' a y y' e e' = cc

-- a subtree is replaced by one with the same addresses in the same order
pub inorder-plug :
    (k : Ctx) (t t' : Tree) → inorder t ≡ inorder t' → inorder (plug k t) ≡ inorder (plug k t')
inorder-plug top t t' e = e
inorder-plug (frame s c a y up) t t' e =
    inorder-plug up (join s c t a y) (join s c t' a y) (inorder-join s c c t t' a y y e refl)

pub inorder-paint : (c : Color) (t : Tree) → inorder (paint c t) ≡ inorder t
inorder-paint c leaf = refl
inorder-paint c (node d l a r) = refl

-- the rotations
pub inorder_rotate :
    (c d e f : Color) (x : Tree) (a : Ptr) (m : Tree) (b : Ptr) (z : Tree)
    → inorder (node c (node d x a m) b z) ≡ inorder (node e x a (node f m b z))
inorder_rotate c d e f x a m b z = append_assoc (inorder x) (a ∷ inorder m) (b ∷ inorder z)

abbrev pub occurs : Ptr → List Ptr → ℕ
occurs q [] = 0
occurs q (a ∷ l) = at q a + occurs q l

occurs-append : (q : Ptr) (l m : List Ptr) → occurs q (l ++ m) ≡ occurs q l + occurs q m
occurs-append q [] m = omega arith
occurs-append q (a ∷ l) m = omega (arith, occurs-append q l m)

pub count-occurs : (q : Ptr) (t : Tree) → count q t ≡ occurs q (inorder t)
count-occurs q leaf = refl
count-occurs q (node c l a r) =
    omega (arith, occurs-append q (inorder l) (a ∷ inorder r), count-occurs q l, count-occurs q r)

pub size-length : (t : Tree) → size t ≡ length (inorder t)
size-length leaf = refl
size-length (node c l a r) =
    omega (arith, length-append (inorder l) (a ∷ inorder r), size-length l, size-length r)

-- trees with the same order have the same addresses and as many
pub count_of_inorder : (q : Ptr) (t t' : Tree) → inorder t ≡ inorder t' → count q t ≡ count q t'
count_of_inorder q t t' e = omega (arith, count-occurs q t, count-occurs q t', ap (occurs q) e)

pub size_of_inorder : (t t' : Tree) → inorder t ≡ inorder t' → size t ≡ size t'
size_of_inorder t t' e = omega (arith, size-length t, size-length t', ap length {y = inorder t'} e)

-- a rotation to either side
pub inorder_turn :
    (s : Side) (c d e f : Color) (x : Tree) (a : Ptr) (m : Tree) (b : Ptr) (z : Tree)
    → inorder (join s c (join s d x a m) b z) ≡ inorder (join s e x a (join s f m b z))
inorder_turn Side.left c d e f x a m b z = inorder_rotate c d e f x a m b z
inorder_turn Side.right c d e f x a m b z = sym (inorder_rotate e f c d z b m a x)
