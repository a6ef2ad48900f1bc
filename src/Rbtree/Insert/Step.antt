-- ===== src/Rbtree/Insert/Step.antt =====
-- One round of `insert_color` in memory.
use fping.Base.{◌≡◌, ◌≢◌, refl, ◌==◌, true, false, some, arith, ◌∙◌, ap}
use fping.Rbtree.{Ptr, null, Side, other, Heap, ◌>>◌, pure, set_red, set_black}
use fping.Rbtree.Rotate.{rotate}
use fping.Rbtree.Shape.{Color, red, black, Tree, node, join, Ctx, frame, ptr, is_red_tree, ptr-join}
use fping.Rbtree.Focus.{Focus, Focus-up, Focus-across, Focus-back, Focus-up_other}
use fping.Rbtree.Focus.Holds.{child-ok, child-other-ok}
use fping.Rbtree.Focus.Frame.{ptr-ne}
use fping.Rbtree.Focus.Paint.{Focus-owner, set_color-Focus, set_color-Focus-join}
use fping.Rbtree.Focus.Turn.{rotate-Focus, rotate-other-Focus}
use fping.Rbtree.Focus.Read.{exists_red-Focus, count-ptr}
use fping.Rbtree.Insert.{turn_inner, insert_step}

-- the end of both cases of a black uncle
lift_up :
    (s : Side) (c d : Color) (x : Tree) (b : Ptr) (y : Tree) (g : Ptr) (u : Tree) (up : Ctx)
    (v : Ptr) (h : Heap)
    → Focus h (frame s c g u up) (join s d x b y)
    → (h' : Heap) × ((do set_black b; set_red g; rotate (other s) g; pure v) h ≡ some (v, h'))
      × Focus h' up (join s black x b (join s red y g u))
lift_up s c d x b y g u up v h f =
    let (h1, run1, f1) = set_color-Focus-join s (frame s c g u up) d black x b y h f in
    let (h2, run2, f2) =
      set_color-Focus-join s up c red (join s black x b y) g u h1 (Focus-up s f1) in
    let (h3, run3, f3) = rotate-other-Focus s up red black x y u g b h2 f2 in
    (h3, rw (run1, run2, run3) refl, f3)

-- the uncle is red: the colours change, and the walk goes on from the grandparent
pub insert_step_red :
    (s s' : Side) (c : Color) (t : Tree) (p : Ptr) (y : Tree) (g : Ptr) (ul : Tree) (ua : Ptr)
    (ur : Tree) (up : Ctx) (h : Heap)
    → Focus h (frame s' red p y (frame s c g (node red ul ua ur) up)) t
    → (h' : Heap) × (insert_step s (ptr t) p g h ≡ some (g, h'))
      × Focus h' up (join s red (join s' black t p y) g (node black ul ua ur))
unfolding insert_step
insert_step_red s s' c t p y g ul ua ur up h f =
    let u = node red ul ua ur in
    let tp = join s' red t p y in
    let f0 = Focus-up s' f in
    let fu = Focus-across s f0 in
    let (h1, run1, f1) = set_color-Focus (frame (other s) c g tp up) red black ul ua ur h fu in
    let (h2, run2, f2) =
      set_color-Focus-join s' (frame s c g (node black ul ua ur) up) red black t p y h1
        (Focus-back s f1) in
    let (h3, run3, f3) =
      set_color-Focus-join s up c red (join s' black t p y) g (node black ul ua ur) h2
        (Focus-up s f2) in
    (
      h3,
      rw
          (
            child-other-ok s (Focus-owner s c g u up tp f0),
            exists_red-Focus (frame (other s) c g tp up) u h fu,
            run1,
            run2,
            run3,
          )
          refl,
      f3,
    )

pub insert_step_outer :
    (s : Side) (c : Color) (t : Tree) (p : Ptr) (y : Tree) (g : Ptr) (u : Tree) (up : Ctx)
    (h : Heap)
    → is_red_tree u ≡ false
    → ptr t ≢ null
    → Focus h (frame s red p y (frame s c g u up)) t
    → (h' : Heap) × (insert_step s (ptr t) p g h ≡ some (ptr t, h'))
      × Focus h' up (join s black t p (join s red y g u))
unfolding insert_step turn_inner
insert_step_outer s c t p y g u up h ub ne f =
    let f0 = Focus-up s f in
    let fu = Focus-across s f0 in
    let apart = ptr-ne y h.nodes p (ptr t) ne (omega (arith, count-ptr t ne, f.once (ptr t))) in
    let miss : (ptr y == ptr t) ≡ false = ground (arith, apart) in
    let (h', run, f') = lift_up s c red t p y g u up (ptr t) h f0 in
    (
      h',
      rw
          (
            child-other-ok s (Focus-owner s c g u up (join s red t p y) f0),
            exists_red-Focus (frame (other s) c g (join s red t p y) up) u h fu,
            ub,
            child-other-ok s (Focus-owner s red p y (frame s c g u up) t f),
            miss,
          )
          run,
      f',
    )

-- the new node between its parent and its grandparent
pub insert_step_inner :
    (s : Side) (c d : Color) (x : Tree) (n : Ptr) (z : Tree) (p : Ptr) (y : Tree) (g : Ptr)
    (u : Tree) (up : Ctx) (h : Heap)
    → is_red_tree u ≡ false
    → Focus h (frame (other s) red p y (frame s c g u up)) (join s d x n z)
    → (h' : Heap) × (insert_step s n p g h ≡ some (p, h'))
      × Focus h' up (join s black (join s red y p x) n (join s red z g u))
unfolding insert_step turn_inner
insert_step_inner s c d x n z p y g u up h ub f =
    let t = join s d x n z in
    let f0 = Focus-up_other s f in
    let fu = Focus-across s f0 in
    let found : ptr t ≡ n = ptr-join s d x n z in
    let hit : (n == n) ≡ true = ground arith in
    let below =
      child-ok (other s) (Focus-owner (other s) red p y (frame s c g u up) t f)
      ∙ ap (λ q. some (q, h)) found in
    let (h1, run1, f1) = rotate-Focus s (frame s c g u up) red d y x z p n h f0 in
    let (h2, run2, f2) = lift_up s c d (join s red y p x) n z g u up p h1 f1 in
    (
      h2,
      rw
          (
            child-other-ok s (Focus-owner s c g u up (join s red y p t) f0),
            exists_red-Focus (frame (other s) c g (join s red y p t) up) u h fu,
            ub,
            below,
            hit,
            run1,
          )
          run2,
      f2,
    )
