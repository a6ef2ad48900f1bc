-- ===== src/Rbtree/Augment/Path.antt =====
-- Such a callback along the path to the root makes every value right.
use fping.Base.{ℕ, zero, suc, ◌<◌, ◌≡◌, ◌≢◌, refl, eq→true, ne→false, some, arith, sym, subst}
use fping.Rbtree.{Ptr, null, Side, other, Heap}
use fping.Rbtree.Shape.{Color, Tree, leaf, node, join, ptr-join, Ctx, top, frame, plug, ptr}
use fping.Rbtree.Insert.Fix.{depth}
use fping.Rbtree.Focus.{Focus, Focus-up, Focus-across}
use fping.Rbtree.Focus.Holds.{child-ok, child-other-ok}
use fping.Rbtree.Focus.Frame.{ptr-ne}
use fping.Rbtree.Focus.Paint.{Focus-owner, parent-Focus}
use fping.Rbtree.Focus.Read.{count-ptr}
use fping.Rbtree.Augment.{AugmentF, augment_sibling, augment_path}
use fping.Rbtree.Augment.Values.{
  set, IsRecompute, Right, Below, Siblings, Right-set, Below-set, Siblings-set, Right-Below,
  refresh,
}

module _ {V : Type 0} (e : V) (g : Ptr → V → V → V) (func : AugmentF (Ptr → V))
    (is : IsRecompute e g func) (h : Heap) where
  -- the values at, beside and above the focus after a call for the sibling
  abbrev Caught : Side → Ptr → Tree → Ctx → Tree → (Ptr → V) → Type 0
  Caught s a y up t d =
      (d' : Ptr → V) × (augment_sibling func (ptr t) a d h ≡ some (d', h))
      × Right e g d' t
      × Right e g d' y
      × Siblings e g d' up

  join-Below :
      (s : Side) (c : Color) (a : Ptr) (t y : Tree) (d : Ptr → V)
      → Right e g d t
      → Right e g d y
      → Below e g d (join s c t a y)
  join-Below Side.left c a t y d x z = (x, z)
  join-Below Side.right c a t y d x z = (z, x)

  -- a call for the root of a subtree next to the focus
  beside :
      (s : Side) (c : Color) (a : Ptr) (y t : Tree) (up : Ctx) (d : Ptr → V)
      → Focus h (frame s c a y up) t
      → ptr y ≢ null
      → Right e g d t
      → Below e g d y
      → Siblings e g d up
      → (d' : Ptr → V) × (func (ptr y) d h ≡ some (d', h))
        × Right e g d' t
        × Right e g d' y
        × Siblings e g d' up
  beside s c a y t up d f ne x z u =
      let (v, run, new) =
        refresh e g func is h (frame (other s) c a t up) y d (Focus-across s f) ne z in
      (
        set d (ptr y) v,
        run,
        Right-set e g t d (ptr y) v (omega (arith, f.once (ptr y), count-ptr y ne)) x,
        new,
        Siblings-set e g up d (ptr y) v (omega (arith, f.once (ptr y), count-ptr y ne)) u,
      )

  -- The call for the sibling, where the node itself has the right value.
  catch :
      (s : Side) (c : Color) (a : Ptr) (y t : Tree) (up : Ctx) (d : Ptr → V)
      → Focus h (frame s c a y up) t
      → ptr t ≢ null
      → Right e g d t
      → Below e g d y
      → Siblings e g d up
      → Caught s a y up t d
  unfolding augment_sibling
  catch Side.left c a leaf t up d f ne x z u =
      let held = Focus-owner Side.left c a leaf up t f in
      let (v, run, new) =
        refresh e g func is h (frame Side.left c a leaf up) t d f ne (Right-Below e g t d x) in
      (
        set d (ptr t) v,
        rw
            (
              child-ok Side.left held,
              child-other-ok Side.left held,
              eq→true (ptr t),
              ne→false (ptr t) null ne,
            )
            run,
        new,
        tt,
        Siblings-set e g up d (ptr t) v (omega (arith, f.once (ptr t), count-ptr t ne)) u,
      )
  catch Side.left c a (node c' l b m) t up d f ne x z u =
      let y = node c' l b m in
      let held = Focus-owner Side.left c a y up t f in
      let ne_y = (Focus-across Side.left f).inside.0.ne_null in
      let (d', run, xt, xy, xu) = beside Side.left c a y t up d f ne_y x z u in
      (
        d',
        rw
            (
              child-ok Side.left held,
              child-other-ok Side.left held,
              eq→true (ptr t),
              ne→false b null ne_y,
            )
            run,
        xt,
        xy,
        xu,
      )
  catch Side.right c a leaf t up d f ne x z u =
      let held = Focus-owner Side.right c a leaf up t f in
      (
        d,
        rw (child-other-ok Side.right held, child-ok Side.right held, ne→false (ptr t) null ne)
            refl,
        x,
        tt,
        u,
      )
  catch Side.right c a (node c' l b m) t up d f ne x z u =
      let y = node c' l b m in
      let held = Focus-owner Side.right c a y up t f in
      let ne_y = (Focus-across Side.right f).inside.0.ne_null in
      let apart = ptr-ne y h.nodes a (ptr t) ne (omega (arith, count-ptr t ne, f.once (ptr t))) in
      let (d', run, xt, xy, xu) = beside Side.right c a y t up d f ne_y x z u in
      (
        d',
        rw
            (
              child-other-ok Side.right held,
              child-ok Side.right held,
              ne→false (ptr t) b (λ q. apart (sym q)),
              ne→false b null ne_y,
            )
            run,
        xt,
        xy,
        xu,
      )

  -- A call for the node, its sibling and so on up to the root.
  pub augment_path-Right :
      (k : Ctx) (t : Tree) (fuel : ℕ) (d : Ptr → V)
      → depth k < fuel
      → Focus h k t
      → ptr t ≢ null
      → Below e g d t
      → Siblings e g d k
      → (d' : Ptr → V) × (augment_path fuel (ptr t) func d h ≡ some (d', h))
        × Right e g d' (plug k t)
  unfolding augment_path
  augment_path-Right k t zero d lt f ne x u = absurd (omega arith)
  augment_path-Right top t (suc fuel) d lt f ne x u =
      let (v, run, new) = refresh e g func is h top t d f ne x in
      (set d (ptr t) v, rw (run, parent-Focus top t ne f) refl, new)
  augment_path-Right (frame s c a y up) t (suc fuel) d lt f ne (x) (z, u) =
      let (v, run, new) = refresh e g func is h (frame s c a y up) t d f ne x in
      let d1 = set d (ptr t) v in
      let off = f.once (ptr t) in
      let (d2, caught, xt, xy, xu) =
        catch s c a y t up d1 f ne new
          (Below-set e g y d (ptr t) v (omega (arith, off, count-ptr t ne)) z)
          (Siblings-set e g up d (ptr t) v (omega (arith, off, count-ptr t ne)) u) in
      let ne_a = f.around.0.ne_null in
      let (d3, more, all) =
        augment_path-Right up (join s c t a y) fuel d2 (omega arith) (Focus-up s f)
          (subst (λ q. q ≢ null) (sym (ptr-join s c t a y)) ne_a) (join-Below s c a t y d2 xt xy)
          xu in
      (
        d3,
        rw (run, parent-Focus (frame s c a y up) t ne f, ne→false a null ne_a, caught)
            (rw (ptr-join s c t a y) at more),
        all,
      )
