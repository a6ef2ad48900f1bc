-- ===== src/Rbtree/Walk/Sequence.antt =====
-- The addresses of a tree in a direction, and those that follow a hole.
use fping.Base.{◌≡◌, refl, List, [], ◌∷◌, ◌++◌}
use fping.Rbtree.{Ptr, null, Side, other}
use fping.Rbtree.Shape.{Color, Tree, leaf, node, join, Ctx, top, frame, inorder}

-- `right` is the order of the table
abbrev pub seq : Side → Tree → List Ptr
seq Side.left leaf = []
seq Side.left (node c l a r) = seq Side.left r ++ (a ∷ seq Side.left l)
seq Side.right leaf = []
seq Side.right (node c l a r) = seq Side.right l ++ (a ∷ seq Side.right r)

abbrev pub after : Side → Ctx → List Ptr
after s top = []
after Side.right (frame Side.left c a y up) = a ∷ (seq Side.right y ++ after Side.right up)
after Side.right (frame Side.right c a y up) = after Side.right up
after Side.left (frame Side.right c a y up) = a ∷ (seq Side.left y ++ after Side.left up)
after Side.left (frame Side.left c a y up) = after Side.left up

abbrev pub head_or_null : List Ptr → Ptr
head_or_null [] = null
head_or_null (a ∷ l) = a

pub seq_right : (t : Tree) → seq Side.right t ≡ inorder t
seq_right leaf = refl
seq_right (node c l a r) = rw (seq_right l, seq_right r) refl

pub seq-join :
    (s : Side) (c : Color) (x : Tree) (a : Ptr) (y : Tree)
    → seq s (join (other s) c x a y) ≡ seq s x ++ (a ∷ seq s y)
seq-join Side.left c x a y = refl
seq-join Side.right c x a y = refl

pub seq-leaf : (s : Side) → seq s leaf ≡ []
seq-leaf Side.left = refl
seq-leaf Side.right = refl

pub after_near :
    (s : Side) (c : Color) (a : Ptr) (y : Tree) (up : Ctx)
    → after s (frame (other s) c a y up) ≡ a ∷ (seq s y ++ after s up)
after_near Side.left c a y up = refl
after_near Side.right c a y up = refl

pub after_far :
    (s : Side) (c : Color) (a : Ptr) (y : Tree) (up : Ctx) → after s (frame s c a y up) ≡ after s up
after_far Side.left c a y up = refl
after_far Side.right c a y up = refl
