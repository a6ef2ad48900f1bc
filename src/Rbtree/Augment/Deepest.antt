-- ===== src/Rbtree/Augment/Deepest.antt =====
-- The node that `ks_rb_augment_erase_begin` returns.
use fping.Base.{
  ℕ, ◌+◌, ◌≤◌, ◌<◌, ◌≡◌, ◌≢◌, refl, ◌==◌, ne→false, Bool-cases, some, arith, ap, sym, ◌∙◌, eq→true,
  Bool, true, false, not, if◌then◌else◌, inl, inr, ◌⊎◌,
}
use fping.Rbtree.{Ptr, null, Side, Heap, pure}
use fping.Rbtree.Shape.{
  Color, Tree, leaf, node, Ctx, top, frame, plug, owner, ptr, at_self, at_eq, count, count_ctx,
  size,
}
use fping.Rbtree.Shape.Unplug.{count-plug}
use fping.Rbtree.Focus.{Focus, Focus-down}
use fping.Rbtree.Focus.Holds.{child-ok, child-other-ok, parent-ok}
use fping.Rbtree.Focus.Paint.{Focus-Holds}
use fping.Rbtree.Walk.{neighbor}
use fping.Rbtree.Walk.Next.{neighbor_start}
use fping.Rbtree.Augment.{augment_erase_begin}
use fping.Rbtree.Augment.First.{First, first, first_place, place, apart}

-- The bottom of the path that changes when a node at the place `k`, with these subtrees, is removed. With
-- at most one subtree the node leaves its own place. Otherwise the first node of its right subtree
-- leaves its place to take that of the node; if it was the root of that subtree, it is itself what
-- then stands above the place that it left.
unfoldable pub deepest : Ctx → Tree → Tree → Ptr
unfolding first_place
deepest k leaf r = place r (owner k)
deepest k l leaf = place l (owner k)
deepest k l r = first_place r (ptr r)

-- the address is that of another node of the tree
abbrev Remains : Ptr → Tree → Ptr → Type 0
Remains a w p = (p ≢ a) × (1 ≤ count p w)

module _ (h : Heap) (k : Ctx) (c : Color) (a : Ptr) where
  -- an address in one of the subtrees, and one above
  inner-Remains :
      (l r : Tree) (p : Ptr)
      → Focus h k (node c l a r)
      → 1 ≤ count p l + count p r
      → Remains a (plug k (node c l a r)) p
  inner-Remains l r p f le = (
    λ e. absurd (omega (arith, f.once p, at_eq p a e, le)),
    omega (arith, count-plug k (node c l a r) p),
  )

  outer-Remains :
      (l r : Tree) (p : Ptr)
      → Focus h k (node c l a r)
      → 1 ≤ count_ctx p k
      → Remains a (plug k (node c l a r)) p
  outer-Remains l r p f le = (
    λ e. absurd (omega (arith, f.once p, at_eq p a e, le)),
    omega (arith, count-plug k (node c l a r) p),
  )

-- the parent of a node without children
alone :
    (h : Heap) (k : Ctx) (c : Color) (a : Ptr)
    → Focus h k (node c leaf a leaf)
    → ((owner k ≡ null) × (plug k (node c leaf a leaf) ≡ node c leaf a leaf))
      ⊎ Remains a (plug k (node c leaf a leaf)) (owner k)
alone h top c a f = inl (refl, refl)
alone h (frame s d b y up) c a f =
    inr (outer-Remains h (frame s d b y up) c a leaf leaf b f (omega (arith, at_self b)))

-- which of the next node `p`, its parent and its right child the code takes
abbrev corrected : Ptr → Ptr → Ptr → Ptr → Ptr
corrected p up below a = if not (below == null) then below else if not (up == a) then up else p

corrected-pure :
    (b c : Bool) (x y z : Ptr) (h : Heap)
    → (if not b then pure x else if not c then pure y else pure z) h
      ≡ some ((if not b then x else if not c then y else z), h)
corrected-pure false c x y z h = refl
corrected-pure true false x y z h = refl
corrected-pure true true x y z h = refl

-- for the first node of a subtree below `a`, it is where that node's place ends
first-corrected :
    (h : Heap) (k : Ctx) (t : Tree) (fuel : ℕ) (a : Ptr) (q : First h k t fuel)
    → owner k ≡ a
    → count a t ≡ 0
    → let v = corrected q.p q.up (ptr q.z) a in (v ≡ first_place t (ptr t)) × (1 ≤ count v t)
first-corrected h k t fuel a q above out = elim (Bool-cases (ptr q.z == null)) [
  | inr more ↦ rw more (
    elim q.above_inside [
      | inl (e, root, spot) ↦ sym (spot (ptr t) ∙ q.filled (ptr t) more)
      | inr (le, spot) ↦ sym (spot (ptr t) ∙ q.filled q.up more)
    ],
    elim q.right_inside [ inl e ↦ absurd (apart (ptr q.z) null more e) | inr le ↦ le ],
  )
  | inl last ↦ elim q.above_inside [
    | inl (e, root, spot) ↦
        rw (last, e, above, eq→true a)
          (root ∙ sym (spot (ptr t) ∙ q.unfilled (ptr t) last), q.inside)
    | inr (le, spot) ↦
        let far : q.up ≢ a = λ e. absurd (omega (arith, ap (λ p. count p t) e, le, out)) in
        rw (last, ne→false q.up a far) (sym (spot (ptr t) ∙ q.unfilled q.up last), le)
  ]
]

module _ (h : Heap) (k : Ctx) (c : Color) (a : Ptr) where
  -- For a node of a tree in memory, with fuel for the nodes on its right, `ks_rb_augment_erase_begin`
  -- returns the root of what moves into the place that is emptied, or, if nothing does, the node above that
  -- place. The place is the node's own if it has at most one subtree, and otherwise that of the first
  -- node of its right subtree, which is itself the node above it if it was the root of that subtree.
  -- What is returned is NULL if the tree has no other node, and otherwise another node of the tree.
  pub augment_erase_begin-Remains :
      (l r : Tree) (fuel : ℕ)
      → size r < fuel
      → Focus h k (node c l a r)
      → (augment_erase_begin fuel a h ≡ some (deepest k l r, h))
        × (((deepest k l r ≡ null) × (plug k (node c l a r) ≡ node c leaf a leaf))
            ⊎ Remains a (plug k (node c l a r)) (deepest k l r))
  unfolding augment_erase_begin deepest
  augment_erase_begin-Remains leaf leaf fuel lt f =
      let held = Focus-Holds k c leaf a leaf f in
      (
        rw (child-other-ok Side.left held, child-ok Side.left held) (parent-ok Side.left held),
        alone h k c a f,
      )
  augment_erase_begin-Remains (node c' x b y) leaf fuel lt f =
      let l = node c' x b y in
      let held = Focus-Holds k c l a leaf f in
      let ne = (Focus-down Side.left f).inside.0.ne_null in
      (
        rw (child-other-ok Side.left held, child-ok Side.left held, ne→false b null ne) refl,
        inr (inner-Remains h k c a l leaf b f (omega (arith, at_self b))),
      )
  augment_erase_begin-Remains leaf (node c' x b y) fuel lt f =
      let r = node c' x b y in
      let held = Focus-Holds k c leaf a r f in
      let ne = (Focus-down Side.right f).inside.0.ne_null in
      (
        rw (child-other-ok Side.left held, child-ok Side.left held, ne→false b null ne) refl,
        inr (inner-Remains h k c a leaf r b f (omega (arith, at_self b))),
      )
  augment_erase_begin-Remains (node c1 x1 b1 y1) (node c2 x2 b2 y2) fuel lt f =
      let l = node c1 x1 b1 y1 in
      let r = node c2 x2 b2 y2 in
      let held = Focus-Holds k c l a r f in
      let ne_l = (Focus-down Side.left f).inside.0.ne_null in
      let f' = Focus-down Side.right f in
      let ne_r = f'.inside.0.ne_null in
      let q = first h fuel r (frame Side.right c a l k) lt ne_r f' in
      let next : neighbor Side.right fuel a h ≡ some (q.p, h) =
        neighbor_start Side.right h fuel k c l a r f ∙ rw (ne→false b2 null ne_r) q.run in
      let (same, inside) =
        first-corrected h (frame Side.right c a l k) r fuel a q refl
          (omega (arith, f.once a, at_self a)) in
      rw (sym same) (
        rw
            (
              child-other-ok Side.left held,
              child-ok Side.left held,
              ne→false b1 null ne_l,
              ne→false b2 null ne_r,
              next,
              q.right,
              q.above,
            )
            (corrected-pure (ptr q.z == null) (q.up == a) (ptr q.z) q.up q.p h),
        inr (inner-Remains h k c a l r (corrected q.p q.up (ptr q.z) a) f (omega (arith, inside))),
      )
