-- ===== src/Rbtree/Augment/Update.antt =====
-- `ks_rb_augment_insert` and `ks_rb_augment_erase_end` with such a callback.
use fping.Base.{ℕ, suc, ◌<◌, ◌≡◌, refl, ne→false, some, arith, inl, inr, ◌⊎◌}
use fping.Rbtree.{Ptr, null, Side, Heap}
use fping.Rbtree.Shape.{Color, Tree, leaf, node, Ctx, frame, plug, ptr}
use fping.Rbtree.Insert.Fix.{depth}
use fping.Rbtree.Focus.{Focus, Focus-down}
use fping.Rbtree.Focus.Holds.{child-ok, child-other-ok}
use fping.Rbtree.Focus.Paint.{Focus-Holds}
use fping.Rbtree.Augment.{AugmentF, augment_insert, augment_erase_end}
use fping.Rbtree.Augment.Values.{IsRecompute, Right, Below, Siblings}
use fping.Rbtree.Augment.Path.{augment_path-Right}

module _ {V : Type 0} (e : V) (g : Ptr → V → V → V) (func : AugmentF (Ptr → V))
    (is : IsRecompute e g func) (h : Heap) where
  -- Let a callback give each node a value from its address and the values of its children. Where before
  -- the call wrong values are found only at a node, its children, the nodes above it and the other
  -- children of those, `ks_rb_augment_insert` for that node leaves every value of the tree right.
  pub augment_insert-Right :
      (k : Ctx) (c : Color) (l : Tree) (a : Ptr) (r : Tree) (fuel : ℕ) (d : Ptr → V)
      → suc (depth k) < fuel
      → Focus h k (node c l a r)
      → Below e g d l
      → Below e g d r
      → Siblings e g d k
      → (d' : Ptr → V) × (augment_insert fuel a func d h ≡ some (d', h))
        × Right e g d' (plug k (node c l a r))
  unfolding augment_insert
  augment_insert-Right k c leaf a leaf fuel d lt f x z u =
      let held = Focus-Holds k c leaf a leaf f in
      let (d', run, all) =
        augment_path-Right e g func is h k (node c leaf a leaf) fuel d (omega arith) f
          f.inside.0.ne_null (tt, tt) u in
      (d', rw (child-ok Side.left held, child-other-ok Side.left held) run, all)
  augment_insert-Right k c leaf a (node c' m b n) fuel d lt f x z u =
      let r = node c' m b n in
      let held = Focus-Holds k c leaf a r f in
      let f' = Focus-down Side.right f in
      let ne = f'.inside.0.ne_null in
      let (d', run, all) =
        augment_path-Right e g func is h (frame Side.right c a leaf k) r fuel d lt f' ne z
          (tt, u) in
      (d', rw (child-ok Side.left held, child-other-ok Side.left held, ne→false b null ne) run, all)
  augment_insert-Right k c (node c' m b n) a r fuel d lt f x z u =
      let l = node c' m b n in
      let held = Focus-Holds k c l a r f in
      let f' = Focus-down Side.left f in
      let ne = f'.inside.0.ne_null in
      let (d', run, all) =
        augment_path-Right e g func is h (frame Side.left c a r k) l fuel d lt f' ne x (z, u) in
      (d', rw (child-ok Side.left held, child-other-ok Side.left held, ne→false b null ne) run, all)

  -- The same of `ks_rb_augment_erase_end`, for wrong values at a node, the nodes above it and the other
  -- children of those. For NULL it does nothing.
  pub augment_erase_end-Right :
      (k : Ctx) (t : Tree) (fuel : ℕ) (d : Ptr → V)
      → depth k < fuel
      → Focus h k t
      → Below e g d t
      → Siblings e g d k
      → (d' : Ptr → V) × (augment_erase_end fuel (ptr t) func d h ≡ some (d', h))
        × (((ptr t ≡ null) × (d' ≡ d)) ⊎ Right e g d' (plug k t))
  unfolding augment_erase_end
  augment_erase_end-Right k leaf fuel d lt f x u = (d, refl, inl (refl, refl))
  augment_erase_end-Right k (node c l a r) fuel d lt f x u =
      let ne = f.inside.0.ne_null in
      let (d', run, all) = augment_path-Right e g func is h k (node c l a r) fuel d lt f ne x u in
      (d', rw (ne→false a null ne) run, inr all)
