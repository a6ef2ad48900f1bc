-- ===== src/Rbtree/Shape/Balance.antt =====
-- The red-black invariant: a red node has no red child, and on all ways down from a node there are
-- equally many black ones.
use fping.Base.{ℕ, suc, ◌≡◌, refl, Bool, false, ◌&&◌, arith}
use fping.Rbtree.{Ptr, Side}
use fping.Rbtree.Shape.{
  Color, red, black, Tree, leaf, node, join, Ctx, top, frame, plug, paint, is_red_color,
  is_red_tree,
}

abbrev pub is_red_owner : Ctx → Bool
is_red_owner top = false
is_red_owner (frame s c a y up) = is_red_color c

-- `n` black nodes on every way down
abbrev pub HasHeight : Tree → ℕ → Type 0
HasHeight leaf n = n ≡ 0
HasHeight (node red l a r) n = HasHeight l n × HasHeight r n
HasHeight (node black l a r) n = (m : ℕ) × (n ≡ suc m) × HasHeight l m × HasHeight r m

abbrev pub NoRedRed : Tree → Type 0
NoRedRed leaf = Unit {0}
NoRedRed (node red l a r) =
    (is_red_tree l ≡ false) × (is_red_tree r ≡ false) × NoRedRed l × NoRedRed r
NoRedRed (node black l a r) = NoRedRed l × NoRedRed r

-- the same around a hole for a subtree of height `n`
abbrev pub FitsHeight : Ctx → ℕ → Type 0
FitsHeight top n = Unit {0}
FitsHeight (frame s red a y up) n = HasHeight y n × FitsHeight up n
FitsHeight (frame s black a y up) n = HasHeight y n × FitsHeight up (suc n)

abbrev pub NoRedRedCtx : Ctx → Type 0
NoRedRedCtx top = Unit {0}
NoRedRedCtx (frame s red a y up) =
    (is_red_tree y ≡ false) × (is_red_owner up ≡ false) × NoRedRed y × NoRedRedCtx up
NoRedRedCtx (frame s black a y up) = NoRedRed y × NoRedRedCtx up

-- of a whole tree
pub record IsBalanced (t : Tree) : Type 0 where
  pub root_black : is_red_tree t ≡ false
  pub no_red_red : NoRedRed t
  pub height : ℕ
  pub has_height : HasHeight t height

pub HasHeight-join_black :
    (s : Side) (x : Tree) (a : Ptr) (y : Tree) (n : ℕ)
    → HasHeight x n
    → HasHeight y n
    → HasHeight (join s black x a y) (suc n)
HasHeight-join_black Side.left x a y n hx hy = (n, refl, hx, hy)
HasHeight-join_black Side.right x a y n hx hy = (n, refl, hy, hx)

pub HasHeight-join_red :
    (s : Side) (x : Tree) (a : Ptr) (y : Tree) (n : ℕ)
    → HasHeight x n
    → HasHeight y n
    → HasHeight (join s red x a y) n
HasHeight-join_red Side.left x a y n hx hy = (hx, hy)
HasHeight-join_red Side.right x a y n hx hy = (hy, hx)

pub NoRedRed-join_black :
    (s : Side) (x : Tree) (a : Ptr) (y : Tree)
    → NoRedRed x
    → NoRedRed y
    → NoRedRed (join s black x a y)
NoRedRed-join_black Side.left x a y hx hy = (hx, hy)
NoRedRed-join_black Side.right x a y hx hy = (hy, hx)

pub NoRedRed-join_red :
    (s : Side) (x : Tree) (a : Ptr) (y : Tree)
    → is_red_tree x ≡ false
    → is_red_tree y ≡ false
    → NoRedRed x
    → NoRedRed y
    → NoRedRed (join s red x a y)
NoRedRed-join_red Side.left x a y bx by hx hy = (bx, by, hx, hy)
NoRedRed-join_red Side.right x a y bx by hx hy = (by, bx, hy, hx)

pub is_red_join :
    (s : Side) (c : Color) (x : Tree) (a : Ptr) (y : Tree)
    → is_red_tree (join s c x a y) ≡ is_red_color c
is_red_join Side.left c x a y = refl
is_red_join Side.right c x a y = refl

-- a subtree goes into a hole, where not both sides of the edge are red
pub plug-NoRedRed :
    (k : Ctx) (t : Tree)
    → NoRedRedCtx k
    → NoRedRed t
    → (is_red_owner k && is_red_tree t) ≡ false
    → NoRedRed (plug k t)
plug-NoRedRed top t hk ht edge = ht
plug-NoRedRed (frame s red a y up) t (by, ub, hy, hk) ht edge =
    plug-NoRedRed up (join s red t a y) hk (NoRedRed-join_red s t a y edge by ht hy) (rw ub refl)
plug-NoRedRed (frame s black a y up) t (hy, hk) ht edge =
    plug-NoRedRed up (join s black t a y) hk (NoRedRed-join_black s t a y ht hy)
      (rw (is_red_join s black t a y) (ground arith))

pub plug-HasHeight :
    (k : Ctx) (t : Tree) (n : ℕ) → FitsHeight k n → HasHeight t n → (m : ℕ) × HasHeight (plug k t) m
plug-HasHeight top t n hk ht = (n, ht)
plug-HasHeight (frame s red a y up) t n (hy, hk) ht =
    plug-HasHeight up (join s red t a y) n hk (HasHeight-join_red s t a y n ht hy)
plug-HasHeight (frame s black a y up) t n (hy, hk) ht =
    plug-HasHeight up (join s black t a y) (suc n) hk (HasHeight-join_black s t a y n ht hy)

-- a black root
pub paint-IsBalanced : (t : Tree) (n : ℕ) → NoRedRed t → HasHeight t n → IsBalanced (paint black t)
paint-IsBalanced leaf n r h = record {
  root_black = refl;
  no_red_red = tt;
  height = n;
  has_height = h;
}
paint-IsBalanced (node red l a r) n red_ok h = record {
  root_black = refl;
  no_red_red = (red_ok.2, red_ok.3);
  height = suc n;
  has_height = (n, refl, h.0, h.1);
}
paint-IsBalanced (node black l a r) n red_ok h = record {
  root_black = refl;
  no_red_red = red_ok;
  height = n;
  has_height = h;
}
