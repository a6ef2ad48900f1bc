-- ===== src/Rbtree/Augment/Insert.antt =====
-- An insertion with its rebalancing, and the callbacks behind it.
use fping.Base.{ℕ, suc, ◌<◌, ◌≡◌, refl, some, arith, inl, sym, ◌∙◌, ap, subst}
use fping.Rbtree.{Ptr, Heap}
use fping.Rbtree.Shape.{red, black, Tree, leaf, node, Ctx, top, plug, paint, size}
use fping.Rbtree.Shape.Order.{size_of_inorder}
use fping.Rbtree.Insert.{insert_color}
use fping.Rbtree.Insert.Fix.{fix, depth, IsRooted}
use fping.Rbtree.Insert.Balance.{inorder-fix}
use fping.Rbtree.Insert.Loop.{insert_color-fix}
use fping.Rbtree.Focus.{Focus}
use fping.Rbtree.Focus.Paint.{Focus-unplug}
use fping.Rbtree.Walk.Next.{depth-plug}
use fping.Rbtree.Augment.{AugmentF, augment_insert}
use fping.Rbtree.Augment.Values.{IsRecompute, Right}
use fping.Rbtree.Augment.Along.{Along-Found, Along-paint, fix-Along, Right-Rights}
use fping.Rbtree.Augment.Update.{augment_insert-Right}

size-paint : (t : Tree) → size (paint black t) ≡ size t
size-paint leaf = refl
size-paint (node c l a r) = refl

module _ {V : Type 0} (e : V) (g : Ptr → V → V → V) (func : AugmentF (Ptr → V))
    (is : IsRecompute e g func) where
  -- Let a callback give each node a value from its address and the values of its children, in a tree in
  -- memory, with a root that is not red, whose values are all right. After a new node is linked in,
  -- `ks_rb_insert_color` and then `ks_rb_augment_insert` for the node, with fuel for more rounds than
  -- there are nodes, end in memory that holds the rebalanced tree, with every value of it right.
  pub insert_color-augment_insert :
      (h : Heap) (k : Ctx) (a : Ptr) (fuel : ℕ) (d : Ptr → V)
      → size (plug k (node red leaf a leaf)) < fuel
      → IsRooted k
      → Focus h k (node red leaf a leaf)
      → Right e g d (plug k leaf)
      → let w = paint black (fix (node red leaf a leaf) k) in
        (h' : Heap) × (insert_color fuel a h ≡ some (tt, h'))
        × Focus h' top w
        × ((d' : Ptr → V) × (augment_insert fuel a func d h' ≡ some (d', h')) × Right e g d' w)
  insert_color-augment_insert h k a fuel d small rooted f right =
      let t = node red leaf a leaf in
      let w = paint black (fix t k) in
      let (h', run, f') =
        insert_color-fix fuel t k h (omega (arith, depth-plug k t)) rooted f.inside.0.ne_null f in
      let at =
        Along-Found e g d a top w
          (Along-paint e g d a black (fix t k)
            (fix-Along e g d a k t (inl (refl, tt, tt)) (Right-Rights e g d a k leaf right).1))
          tt in
      let place = subst (λ v. Focus h' top v) (sym at.whole) f' in
      let same : size w ≡ size (plug k t) =
        size-paint (fix t k) ∙ size_of_inorder (fix t k) (plug k t) (inorder-fix k t refl) in
      let deep : suc (depth at.k) < fuel =
        omega (arith, depth-plug at.k (node at.c at.l a at.r), ap size at.whole, same, small) in
      let (d', call, all) =
        augment_insert-Right e g func is h' at.k at.c at.l a at.r fuel d deep
          (Focus-unplug at.k (node at.c at.l a at.r) place) at.left_below at.right_below
          at.beside in
      (h', run, f', (d', call, subst (λ v. Right e g d' v) at.whole all))
