-- ===== src/Rbtree/Shape/Unplug.antt =====
-- What the invariant of a whole tree says of a subtree and of what is around it.
use fping.Base.{ℕ, suc, ◌+◌, ◌≡◌, refl, false, ◌&&◌, arith}
use fping.Rbtree.{Ptr, Side}
use fping.Rbtree.Shape.{
  red, black, Tree, join, Ctx, top, frame, plug, is_red_tree, count, count_ctx, count-join,
}
use fping.Rbtree.Shape.Balance.{
  is_red_owner, HasHeight, NoRedRed, FitsHeight, NoRedRedCtx, is_red_join,
}
use fping.Rbtree.Insert.Fix.{IsRooted}

pub join_red-NoRedRed :
    (s : Side) (x : Tree) (a : Ptr) (y : Tree)
    → NoRedRed (join s red x a y)
    → (is_red_tree x ≡ false) × (is_red_tree y ≡ false) × NoRedRed x × NoRedRed y
join_red-NoRedRed Side.left x a y h = h
join_red-NoRedRed Side.right x a y (bx, by, hx, hy) = (by, bx, hy, hx)

pub join_black-NoRedRed :
    (s : Side) (x : Tree) (a : Ptr) (y : Tree)
    → NoRedRed (join s black x a y)
    → NoRedRed x × NoRedRed y
join_black-NoRedRed Side.left x a y h = h
join_black-NoRedRed Side.right x a y (hx, hy) = (hy, hx)

pub unplug-NoRedRed :
    (k : Ctx) (t : Tree)
    → NoRedRed (plug k t)
    → NoRedRedCtx k × NoRedRed t × ((is_red_owner k && is_red_tree t) ≡ false)
unplug-NoRedRed top t h = (tt, h, refl)
unplug-NoRedRed (frame s red a y up) t h =
    let (hk, ht, edge) = unplug-NoRedRed up (join s red t a y) h in
    let (bt, by, nt, ny) = join_red-NoRedRed s t a y ht in
    ((by, ground (arith, is_red_join s red t a y), ny, hk), nt, bt)
unplug-NoRedRed (frame s black a y up) t h =
    let (hk, ht, edge) = unplug-NoRedRed up (join s black t a y) h in
    let (nt, ny) = join_black-NoRedRed s t a y ht in ((ny, hk), nt, refl)

pub join_red-HasHeight :
    (s : Side) (x : Tree) (a : Ptr) (y : Tree) (n : ℕ)
    → HasHeight (join s red x a y) n
    → HasHeight x n × HasHeight y n
join_red-HasHeight Side.left x a y n h = h
join_red-HasHeight Side.right x a y n (hx, hy) = (hy, hx)

pub join_black-HasHeight :
    (s : Side) (x : Tree) (a : Ptr) (y : Tree) (n : ℕ)
    → HasHeight (join s black x a y) n
    → (m : ℕ) × (n ≡ suc m) × HasHeight x m × HasHeight y m
join_black-HasHeight Side.left x a y n h = h
join_black-HasHeight Side.right x a y n (m, e, hx, hy) = (m, e, hy, hx)

pub unplug-HasHeight :
    (k : Ctx) (t : Tree) (m : ℕ) → HasHeight (plug k t) m → (n : ℕ) × FitsHeight k n × HasHeight t n
unplug-HasHeight top t m h = (m, tt, h)
unplug-HasHeight (frame s red a y up) t m h =
    let (n, hk, ht) = unplug-HasHeight up (join s red t a y) m h in
    let (hx, hy) = join_red-HasHeight s t a y n ht in (n, (hy, hk), hx)
unplug-HasHeight (frame s black a y up) t m h =
    let (n, hk, ht) = unplug-HasHeight up (join s black t a y) m h in
    let (j, e, hx, hy) = join_black-HasHeight s t a y n ht in (j, (hy, rw e at hk), hx)

pub plug-IsRooted : (k : Ctx) (t : Tree) → is_red_tree (plug k t) ≡ false → IsRooted k
plug-IsRooted top t h = tt
plug-IsRooted (frame s red a y top) t h = absurd (ground (arith, is_red_join s red t a y))
plug-IsRooted (frame s black a y top) t h = tt
plug-IsRooted (frame s red a y (frame s' c' a' y' up)) t h =
    plug-IsRooted (frame s' c' a' y' up) (join s red t a y) h
plug-IsRooted (frame s black a y (frame s' c' a' y' up)) t h =
    plug-IsRooted (frame s' c' a' y' up) (join s black t a y) h

pub count-plug : (k : Ctx) (t : Tree) (q : Ptr) → count q (plug k t) ≡ count q t + count_ctx q k
count-plug top t q = omega arith
count-plug (frame s c a y up) t q =
    omega (arith, count-plug up (join s c t a y) q, count-join s c t a y q)
