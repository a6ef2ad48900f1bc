-- ===== src/Rbtree/Insert/Loop.antt =====
-- `insert_color` in memory does what `fix` does to the tree.
use fping.Base.{
  ℕ, Option, zero, suc, ◌<◌, ◌≡◌, ◌≢◌, refl, ◌==◌, if◌then◌else◌, false, some, arith, ◌∙◌, sym, ap,
}
use fping.Rbtree.{Ptr, null, Side, Heap}
use fping.Rbtree.Shape.{
  Color, red, black, Tree, leaf, node, join, Ctx, top, frame, plug, ptr, paint, is_red_tree,
  ptr-join,
}
use fping.Rbtree.Focus.{Focus, Focus-up, Focus-down}
use fping.Rbtree.Focus.Holds.{parent-ok}
use fping.Rbtree.Focus.Paint.{
  parent-Focus, Focus-owner, set_black_root-Focus, Focus-top, ptr-plug-ne_null,
}
use fping.Rbtree.Focus.Read.{exists_red-owner, side_found}
use fping.Rbtree.Insert.Step.{insert_step_red, insert_step_outer, insert_step_inner}
use fping.Rbtree.Insert.{exists_red, insert_step, insert_color}
use fping.Rbtree.Insert.Fix.{lift, fix, depth, IsRooted, IsRooted-up}

-- the loop ends below a black node and at the root
insert_color_black :
    (fuel : ℕ) (s : Side) (p : Ptr) (y : Tree) (up : Ctx) (t : Tree) (h : Heap)
    → ptr t ≢ null
    → Focus h (frame s black p y up) t
    → (g : Heap) × (insert_color (suc fuel) (ptr t) h ≡ some (tt, g))
      × Focus g top (paint black (plug up (join s black t p y)))
unfolding insert_color
insert_color_black fuel s p y up t h ne f =
    let k = frame s black p y up in
    let (g, run, f') =
      set_black_root-Focus (plug k t) h (ptr-plug-ne_null k t f ne) (Focus-top k t f) in
    (g, rw (parent-Focus k t ne f, exists_red-owner s black p y up t h f) run, f')

insert_color_top :
    (fuel : ℕ) (t : Tree) (h : Heap)
    → ptr t ≢ null
    → Focus h top t
    → (g : Heap) × (insert_color (suc fuel) (ptr t) h ≡ some (tt, g)) × Focus g top (paint black t)
unfolding insert_color exists_red
insert_color_top fuel t h ne f =
    let (g, run, f') = set_black_root-Focus t h ne f in (g, rw (parent-Focus top t ne f) run, f')

-- a round below a red node, by what its step does
insert_color_round :
    (fuel : ℕ) (s s' : Side) (c : Color) (t : Tree) (p : Ptr) (y : Tree) (g : Ptr) (u : Tree)
    (up : Ctx) (h h1 : Heap) (v : Ptr) (o : Option (Unit {0} × Heap))
    → ptr t ≢ null
    → Focus h (frame s' red p y (frame s c g u up)) t
    → insert_step s (ptr t) p g h ≡ some (v, h1)
    → insert_color fuel v h1 ≡ o
    → insert_color (suc fuel) (ptr t) h ≡ o
unfolding insert_color
insert_color_round fuel s s' c t p y g u up h h1 v o ne f step rest =
    let k = frame s' red p y (frame s c g u up) in
    let f0 = Focus-up s' f in
    let here = ptr-join s' red t p y in
    let (first, run, side) =
      side_found s c g u up (join s' red t p y) h f0 (λ e. f.around.0.ne_null (sym here ∙ e)) in
    let side' = ap (λ q. if q == first then Side.left else Side.right) (sym here) ∙ side in
    rw
      (
        parent-Focus k t ne f,
        exists_red-owner s' red p y (frame s c g u up) t h f,
        parent-ok s' (Focus-owner s' red p y (frame s c g u up) t f),
        run,
        side',
        step,
      )
      rest

-- where the uncle is black
insert_color-lift :
    (fuel : ℕ) (s s' : Side) (c : Color) (t : Tree) (p : Ptr) (y : Tree) (g : Ptr) (u : Tree)
    (up : Ctx) (h : Heap)
    → is_red_tree u ≡ false
    → ptr t ≢ null
    → Focus h (frame s' red p y (frame s c g u up)) t
    → (g' : Heap) × (insert_color (suc (suc fuel)) (ptr t) h ≡ some (tt, g'))
      × Focus g' top (paint black (plug up (lift s s' t p y g u)))
unfolding lift
insert_color-lift fuel Side.left Side.left c t p y g u up h ub ne f =
    let s = Side.left in
    let (h1, step, f1) = insert_step_outer s c t p y g u up h ub ne f in
    let (h2, run, f2) =
      insert_color_black fuel s p (join s red y g u) up t h1 ne (Focus-down s f1) in
    (h2, insert_color_round (suc fuel) s s c t p y g u up h h1 (ptr t) _ ne f step run, f2)
insert_color-lift fuel Side.right Side.right c t p y g u up h ub ne f =
    let s = Side.right in
    let (h1, step, f1) = insert_step_outer s c t p y g u up h ub ne f in
    let (h2, run, f2) =
      insert_color_black fuel s p (join s red y g u) up t h1 ne (Focus-down s f1) in
    (h2, insert_color_round (suc fuel) s s c t p y g u up h h1 (ptr t) _ ne f step run, f2)
insert_color-lift fuel Side.left Side.right c leaf p y g u up h ub ne f = absurd (ne refl)
insert_color-lift fuel Side.right Side.left c leaf p y g u up h ub ne f = absurd (ne refl)
insert_color-lift fuel Side.left Side.right c (node d l n r) p y g u up h ub ne f =
    let s = Side.left in
    let (h1, step, f1) = insert_step_inner s c d l n r p y g u up h ub f in
    let (h2, run, f2) =
      insert_color_black fuel s n (join s red r g u) up (join s red y p l) h1 f.around.0.ne_null
        (Focus-down s f1) in
    (
      h2,
      insert_color_round (suc fuel) s Side.right c (node d l n r) p y g u up h h1 p _ ne f step run,
      f2,
    )
insert_color-lift fuel Side.right Side.left c (node d l n r) p y g u up h ub ne f =
    let s = Side.right in
    let (h1, step, f1) = insert_step_inner s c d r n l p y g u up h ub f in
    let (h2, run, f2) =
      insert_color_black fuel s n (join s red l g u) up (join s red y p r) h1 f.around.0.ne_null
        (Focus-down s f1) in
    (
      h2,
      insert_color_round (suc fuel) s Side.left c (node d l n r) p y g u up h h1 p _ ne f step run,
      f2,
    )

insert_color_recolor :
    (fuel : ℕ) (s s' : Side) (c : Color) (t : Tree) (p : Ptr) (y : Tree) (g : Ptr) (ul : Tree)
    (ua : Ptr) (ur : Tree) (up : Ctx) (h : Heap) (w : Tree)
    → ptr t ≢ null
    → Focus h (frame s' red p y (frame s c g (node red ul ua ur) up)) t
    → ((h1 : Heap)
        → Focus h1 up (join s red (join s' black t p y) g (node black ul ua ur))
        → (g' : Heap) × (insert_color fuel g h1 ≡ some (tt, g')) × Focus g' top w)
    → (g' : Heap) × (insert_color (suc fuel) (ptr t) h ≡ some (tt, g')) × Focus g' top w
insert_color_recolor fuel s s' c t p y g ul ua ur up h w ne f rest =
    let (h1, step, f1) = insert_step_red s s' c t p y g ul ua ur up h f in
    let (h2, run, f2) = rest h1 f1 in
    (h2, insert_color_round fuel s s' c t p y g (node red ul ua ur) up h h1 g _ ne f step run, f2)

-- In memory that holds a tree whose root is not red, `ks_rb_insert_color` at a node ends, within fuel
-- for its depth, and memory then holds the tree that `fix` makes, with a black root.
pub insert_color-fix :
    (fuel : ℕ) (t : Tree) (k : Ctx) (h : Heap)
    → depth k < fuel
    → IsRooted k
    → ptr t ≢ null
    → Focus h k t
    → (g : Heap) × (insert_color fuel (ptr t) h ≡ some (tt, g))
      × Focus g top (paint black (fix t k))
unfolding fix
insert_color-fix zero t k h lt rooted ne f = absurd (omega arith)
insert_color-fix (suc fuel) t top h lt rooted ne f = insert_color_top fuel t h ne f
insert_color-fix (suc fuel) t (frame s black p y up) h lt rooted ne f =
    insert_color_black fuel s p y up t h ne f
insert_color-fix (suc fuel) t (frame s red p y top) h lt rooted ne f = elim rooted [ ]
insert_color-fix (suc zero) t (frame s' red p y (frame s c g u up)) h lt rooted ne f =
    absurd (omega arith)
insert_color-fix (suc (suc fuel)) t (frame s' red p y (frame s c g (node red ul ua ur) up)) h lt
      rooted ne f =
    insert_color_recolor (suc fuel) s s' c t p y g ul ua ur up h _ ne f (λ h1 f1.
      let tree = join s red (join s' black t p y) g (node black ul ua ur) in
      let here = ptr-join s red (join s' black t p y) g (node black ul ua ur) in
      let (g', run, f') =
        insert_color-fix (suc fuel) tree up h1 (omega arith)
          (IsRooted-up s c g (node red ul ua ur) up
            (IsRooted-up s' red p y (frame s c g (node red ul ua ur) up) rooted))
          (λ e.
            (Focus-owner s c g (node red ul ua ur) up (join s' red t p y)
                (Focus-up s' f)).is.ne_null
              (sym here ∙ e))
          f1 in
      (g', ap (λ q. insert_color (suc fuel) q h1) (sym here) ∙ run, f'))
insert_color-fix (suc (suc fuel)) t (frame s' red p y (frame s c g (node black ul ua ur) up)) h lt
      rooted ne f =
    insert_color-lift fuel s s' c t p y g (node black ul ua ur) up h refl ne f
insert_color-fix (suc (suc fuel)) t (frame s' red p y (frame s c g leaf up)) h lt rooted ne f =
    insert_color-lift fuel s s' c t p y g leaf up h refl ne f
