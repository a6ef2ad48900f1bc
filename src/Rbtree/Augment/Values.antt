-- ===== src/Rbtree/Augment/Values.antt =====
-- A callback that gives each node a value from its address and the values of its children.
use fping.Base.{◌≡◌, ◌≢◌, refl, ◌==◌, if◌then◌else◌, eq→true, ne→false, some, arith, ◌∙◌}
use mathlib.Core.Path.{ap₂}
use fping.Rbtree.{Ptr, null, Side, Node, Heap}
use fping.Rbtree.Shape.{Tree, leaf, node, Ctx, top, frame, ptr, at_self, count, count_ctx}
use fping.Rbtree.Focus.{Focus, Focus-down}
use fping.Rbtree.Augment.{AugmentF}

module _ {V : Type 0} where
  unfoldable pub set : (Ptr → V) → Ptr → V → Ptr → V
  set d a v q = if q == a then v else d q

  -- the value of what a link points to, where NULL has the value `e`
  unfoldable pub value : V → (Ptr → V) → Ptr → V
  value e d p = if p == null then e else d p

  module _ (e : V) (g : Ptr → V → V → V) where
    -- What such a callback does, for a node in memory.
    pub record IsRecompute (func : AugmentF (Ptr → V)) : Type 0 where
      pub calls :
          (h : Heap) (a : Ptr) (n : Node) (d : Ptr → V)
          → a ≢ null
          → h.nodes a ≡ some n
          → func a d h ≡ some (set d a (g a (value e d n.left) (value e d n.right)), h)

    -- the value that a subtree should have
    abbrev pub aggregate : Tree → V
    aggregate leaf = e
    aggregate (node c l a r) = g a (aggregate l) (aggregate r)

    -- Every value in a tree is right, or every one but the one at its root.
    abbrev pub Right : (Ptr → V) → Tree → Type 0
    Right d leaf = Unit
    Right d (node c l a r) = (d a ≡ g a (aggregate l) (aggregate r)) × Right d l × Right d r

    abbrev pub Below : (Ptr → V) → Tree → Type 0
    Below d leaf = Unit
    Below d (node c l a r) = Right d l × Right d r

    -- Around a hole only the nodes above it and the roots of their other subtrees may be wrong.
    abbrev pub Siblings : (Ptr → V) → Ctx → Type 0
    Siblings d top = Unit
    Siblings d (frame s c a y up) = Below d y × Siblings d up

    pub Right-Below : (t : Tree) (d : Ptr → V) → Right d t → Below d t
    Right-Below leaf d r = tt
    Right-Below (node c l a m) d (same, x, y) = (x, y)

    pub Right-set :
        (t : Tree) (d : Ptr → V) (a : Ptr) (v : V) → count a t ≡ 0 → Right d t → Right (set d a v) t
    unfolding set
    Right-set leaf d a v off r = tt
    Right-set (node c l b m) d a v off (same, x, y) =
        (ground arith, Right-set l d a v (ground arith) x, Right-set m d a v (ground arith) y)

    pub Below-set :
        (t : Tree) (d : Ptr → V) (a : Ptr) (v : V) → count a t ≡ 0 → Below d t → Below (set d a v) t
    Below-set leaf d a v off r = tt
    Below-set (node c l b m) d a v off (x, y) =
        (Right-set l d a v (omega arith) x, Right-set m d a v (omega arith) y)

    pub Siblings-set :
        (k : Ctx) (d : Ptr → V) (a : Ptr) (v : V)
        → count_ctx a k ≡ 0
        → Siblings d k
        → Siblings (set d a v) k
    Siblings-set top d a v off r = tt
    Siblings-set (frame s c b y up) d a v off (x, z) =
        (Below-set y d a v (omega arith) x, Siblings-set up d a v (omega arith) z)

    value-aggregate :
        (h : Heap) (k : Ctx) (t : Tree) (d : Ptr → V)
        → Focus h k t
        → Right d t
        → value e d (ptr t) ≡ aggregate t
    unfolding value
    value-aggregate h k leaf d f r = refl
    value-aggregate h k (node c l a m) d f (same, x, y) =
        rw (ne→false a null f.inside.0.ne_null) same

    module _ (func : AugmentF (Ptr → V)) (is : IsRecompute func) where
      -- the call for the root of a subtree
      pub refresh :
          (h : Heap) (k : Ctx) (t : Tree) (d : Ptr → V)
          → Focus h k t
          → ptr t ≢ null
          → Below d t
          → (v : V) × (func (ptr t) d h ≡ some (set d (ptr t) v, h)) × Right (set d (ptr t) v) t
      unfolding set
      refresh h k leaf d f ne b = absurd (ne refl)
      refresh h k (node c l a m) d f ne (x, y) =
          let near = value-aggregate h (frame Side.left c a m k) l d (Focus-down Side.left f) x in
          let far = value-aggregate h (frame Side.right c a l k) m d (Focus-down Side.right f) y in
          let v = g a (aggregate l) (aggregate m) in
          (
            v,
            is.calls h a _ d ne f.inside.1
                ∙ ap₂ (λ (p q : V). some (set d a (g a p q), h)) near far,
            (
              rw (eq→true a) refl,
              Right-set l d a v (omega (arith, f.once a, at_self a)) x,
              Right-set m d a v (omega (arith, f.once a, at_self a)) y,
            ),
          )
