-- ===== src/Rbtree/Focus/Turn.antt =====
-- A rotation turns the represented tree.
use fping.Base.{
  Option-cases, inl, inr, ◌+◌, ◌≤◌, ◌≡◌, ◌≢◌, ◌==◌, not, Option, some, arith, ◌∙◌, sym, ap, subst,
}
use fping.Rbtree.{M, Ptr, null, Side, other, Heap, set_child, set_parent, when, ◌>>◌}
use fping.Rbtree.Rotate.{relink, rotate}
use fping.Rbtree.Shape.{
  Color, Tree, join, Ctx, ptr, owner, at, at_self, at_ne, count, count_ctx, count-join, ptr-join,
}
use fping.Rbtree.Focus.{cell, Rep, Around, Focus, Rep-join, join-Rep, Around-write}
use fping.Rbtree.Focus.Holds.{
  put, Holds, Holds-put, Holds-same, put_eq, put_ne, child-ok, child-other-ok, set_child-ok,
  set_child-other-ok, set_parent-ok, parent-ok,
}
use fping.Rbtree.Focus.Frame.{
  Rep-same, Around-same, owner_aligned, reparent, hooked, relink-hooked, hooked-Around, hooked_same,
}

-- the first two of three commands
seq_two :
    (m n r : M (Unit {0})) (h g : Heap) (o : Option (Unit {0} × Heap))
    → (m >> n) h ≡ some (tt, g)
    → r g ≡ o
    → (m >> (n >> r)) h ≡ o
seq_two m n r h g o e f = elim (Option-cases (m h)) [
  | inl bad ↦ let e' = rw bad at e in absurd (ground arith)
  | inr ((u, h'), good) ↦ let e' = rw good at e in rw (good, e') f
]

module _ (s : Side) (k : Ctx) (c d : Color) (x m z : Tree) (a b : Ptr) where
  abbrev before : Tree
  before = join s c x a (join s d m b z)

  abbrev after : Tree
  after = join s d (join s c x a m) b z

  count-after : (q : Ptr) → count q after ≡ count q before
  count-after q = omega (
    arith,
    count-join s d (join s c x a m) b z q,
    count-join s c x a m q,
    count-join s c x a (join s d m b z) q,
    count-join s d m b z q,
  )

  record Parts (h : Heap) : Type 0 where
    upper : Holds s h a (owner k) c (ptr x) b
    lower : Holds s h b a d (ptr m) (ptr z)
    outer : Rep h.nodes a x
    inner : Rep h.nodes b m
    far : Rep h.nodes b z
    around : Around h.nodes h.root k a
    once : (q : Ptr) → at q a + count q x + (at q b + count q m + count q z) + count_ctx q k ≤ 1

  Focus-Parts : (h : Heap) → Focus h k before → Parts h
  Focus-Parts h f =
      let aligned = owner_aligned k h.nodes h.root (ptr before) f.around in
      let (isa, ea, rx, rb) = Rep-join s h.nodes (owner k) c x a (join s d m b z) f.inside in
      let (isb, eb, rm, rz) = Rep-join s h.nodes a d m b z rb in
      let below = ap (λ p. some (cell s (owner k) c (ptr x) p)) (ptr-join s d m b z) in
      record {
        upper = record { is = isa; holds = ea ∙ below; aligned = aligned };
        lower = record { is = isb; holds = eb; aligned = isa.aligned };
        outer = rx;
        inner = rm;
        far = rz;
        around = subst (Around h.nodes h.root k) (ptr-join s c x a (join s d m b z)) f.around;
        once = λ q.
            omega (arith, count-join s c x a (join s d m b z) q, count-join s d m b z q, f.once q);
      }

  -- the node `a` is in the way of no other part
  apart :
      (h : Heap) (p : Parts h)
      → (a ≢ b) × (count a m ≡ 0) × (count b m ≡ 0) × (count_ctx a k ≡ 0) × (count_ctx b k ≡ 0)
  apart h p = (
    at_ne a b (omega (arith, at_self a, p.once a)),
    omega (arith, at_self a, p.once a),
    omega (arith, at_self b, p.once b),
    omega (arith, at_self a, p.once a),
    omega (arith, at_self b, p.once b),
  )

  -- the writes behind that to the inner subtree, which leaves `h`
  lowered : Heap → Heap
  lowered h = put h b (cell s a d a (ptr z))

  lifted : Heap → Heap
  lifted h = put (lowered h) b (cell s (owner k) d a (ptr z))

  turned : Heap → Heap
  turned h = put (hooked k b (lifted h)) a (cell s b c (ptr x) (ptr m))

  lifted_same : (h : Heap) (q : Ptr) → q ≢ b → (lifted h).nodes q ≡ h.nodes q
  unfolding lifted lowered
  lifted_same h q nb = put_ne (lowered h) b q _ nb ∙ put_ne h b q _ nb

  turned_same :
      (h : Heap) (q : Ptr) → q ≢ a → q ≢ b → count_ctx q k ≡ 0 → (turned h).nodes q ≡ h.nodes q
  unfolding turned
  turned_same h q na nb out =
      put_ne (hooked k b (lifted h)) a q _ na
      ∙ hooked_same k b (lifted h) q out
      ∙ lifted_same h q nb

  -- what is known once the inner subtree is below `a`
  record Halfway (h : Heap) : Type 0 where
    upper : Holds s h a (owner k) c (ptr x) (ptr m)
    lower : Holds s h b a d (ptr m) (ptr z)
    outer : Rep h.nodes a x
    inner : Rep h.nodes a m
    far : Rep h.nodes b z
    around : Around h.nodes h.root k a

  Parts-Halfway :
      (h : Heap)
      → Parts h
      → (g : Heap) × ((do
        set_child (other s) a (ptr m)
        when (not (ptr m == null)) (set_parent (ptr m) a))
            h
          ≡ some (tt, g))
        × Halfway g
  Parts-Halfway h p =
      let (ab, am, bm, ak, bk) = apart h p in
      let h1 = put h a (cell s (owner k) c (ptr x) (ptr m)) in
      let same1 = λ (q : Ptr) (ne : q ≢ a). put_ne h a q (cell s (owner k) c (ptr x) (ptr m)) ne in
      let (g, run, moved) =
        reparent m h1 b a p.lower.is.aligned (λ q. omega (arith, p.once q))
          (Rep-same m h.nodes h1.nodes b (λ q i. same1 q (at_ne q a (omega (arith, p.once q))))
            p.inner) in
      let same = λ (q : Ptr) (na : q ≢ a) (out : count q m ≡ 0). moved.same q out ∙ same1 q na in
      (
        g,
        rw (set_child-other-ok s (ptr m) p.upper) run,
        record {
          upper =
              Holds-same s h1 g a (owner k) c (ptr x) (ptr m) (moved.same a am)
                (Holds-put s h a (owner k) c (ptr x) (ptr m) p.upper.is p.upper.aligned);
          lower = Holds-same s h g b a d (ptr m) (ptr z) (same b (λ e. ab (sym e)) bm) p.lower;
          outer =
              Rep-same x h.nodes g.nodes a
                (λ q i. same q (at_ne q a (omega (arith, p.once q))) (omega (arith, p.once q)))
                p.outer;
          inner = moved.rep;
          far =
              Rep-same z h.nodes g.nodes b
                (λ q i. same q (at_ne q a (omega (arith, p.once q))) (omega (arith, p.once q)))
                p.far;
          around =
              subst (λ r. Around g.nodes r k a) (sym moved.root)
                (Around-same k h.nodes g.nodes h.root a
                  (λ q i. same q (at_ne q a (omega (arith, p.once q))) (omega (arith, p.once q)))
                  p.around);
        },
      )

  lifted-root : (h : Heap) → (lifted h).nodes b ≡ some (cell s (owner k) d a (ptr z))
  unfolding lifted
  lifted-root h = put_eq (lowered h) b (cell s (owner k) d a (ptr z))

  lifted-Around :
      (h : Heap)
      → Around h.nodes h.root k a
      → count_ctx b k ≡ 0
      → Around (lifted h).nodes (lifted h).root k a
  unfolding lifted lowered
  lifted-Around h around bk =
      Around-write k (lowered h).nodes h.root a b (cell s (owner k) d a (ptr z)) bk
        (Around-write k h.nodes h.root a b (cell s a d a (ptr z)) bk around)

  Halfway-Focus :
      (h : Heap)
      → Halfway h
      → ((q : Ptr) → at q a + count q x + (at q b + count q m + count q z) + count_ctx q k ≤ 1)
      → Focus (turned h) k after
  unfolding turned
  Halfway-Focus h p once =
      let ab = at_ne a b (omega (arith, at_self a, once a)) in
      let ak : count_ctx a k ≡ 0 = omega (arith, at_self a, once a) in
      let g = turned h in
      let kept = λ (q : Ptr) (i : 1 ≤ count q x + count q m + count q z).
        turned_same h q (at_ne q a (omega (arith, once q))) (at_ne q b (omega (arith, once q)))
          (omega (arith, once q)) in
      let bk : count_ctx b k ≡ 0 = omega (arith, at_self b, once b) in
      let lift = lifted-Around h p.around bk in
      record {
        around = subst (Around g.nodes g.root k) (sym (ptr-join s d (join s c x a m) b z)) (
            Around-write k (hooked k b (lifted h)).nodes g.root b a (cell s b c (ptr x) (ptr m)) ak
              (hooked-Around k (lifted h) a b (λ q. omega (arith, once q)) lift));
        inside = join-Rep s g.nodes (owner k) d (join s c x a m) b z (
          p.lower.is,
          put_ne (hooked k b (lifted h)) a b (cell s b c (ptr x) (ptr m)) (λ e. ab (sym e))
              ∙ hooked_same k b (lifted h) b bk
              ∙ lifted-root h
              ∙ ap (λ r. some (cell s (owner k) d r (ptr z))) (sym (ptr-join s c x a m)),
          join-Rep s g.nodes b c x a m (
            p.upper.is,
            put_eq (hooked k b (lifted h)) a (cell s b c (ptr x) (ptr m)),
            Rep-same x h.nodes g.nodes a (λ q i. kept q (omega arith)) p.outer,
            Rep-same m h.nodes g.nodes a (λ q i. kept q (omega arith)) p.inner,
          ),
          Rep-same z h.nodes g.nodes b (λ q i. kept q (omega arith)) p.far,
        );
        once = λ q. omega (
          arith,
          count-after q,
          count-join s c x a (join s d m b z) q,
          count-join s d m b z q,
          once q,
        );
      }

  rotate-turned :
      (h : Heap)
      → Halfway h
      → a ≢ b
      → count_ctx a k ≡ 0
      → count_ctx b k ≡ 0
      → (do set_child s b a; set_parent b (owner k); relink s (owner k) a b; set_parent a b) h
        ≡ some (tt, turned h)
  unfolding turned lifted lowered
  rotate-turned h p ab ak bk =
      let low = Holds-put s h b a d a (ptr z) p.lower.is p.lower.aligned in
      let same = hooked_same k b (lifted h) a ak ∙ lifted_same h a ab in
      let high =
        Holds-same s h (hooked k b (lifted h)) a (owner k) c (ptr x) (ptr m) same p.upper in
      rw
        (
          set_child-ok s a p.lower,
          set_parent-ok s (owner k) low,
          relink-hooked s k (lifted h) a b p.upper.is.ne_null ak (lifted-Around h p.around bk),
        )
        (set_parent-ok s b high)

  -- `rotate` at the node `a` lifts its child on the other side over it, and changes nothing else.
  pub rotate-Focus :
      (h : Heap) → Focus h k before → (g : Heap) × (rotate s a h ≡ some (tt, g)) × Focus g k after
  unfolding rotate
  rotate-Focus h f =
      let p = Focus-Parts h f in
      let (ab, am, bm, ak, bk) = apart h p in
      let (h2, run, half) = Parts-Halfway h p in
      (
        turned h2,
        rw (child-other-ok s p.upper, parent-ok s p.upper, child-ok s p.lower)
            (seq_two (set_child (other s) a (ptr m))
              (when (not (ptr m == null)) (set_parent (ptr m) a))
              (do set_child s b a; set_parent b (owner k); relink s (owner k) a b; set_parent a b) h
              h2 (some (tt, turned h2)) run (rotate-turned h2 half ab ak bk)),
        Halfway-Focus h2 half p.once,
      )

-- the same for the rotation to the other side
pub rotate-other-Focus :
    (s : Side) (k : Ctx) (c d : Color) (x m z : Tree) (a b : Ptr) (h : Heap)
    → Focus h k (join s c (join s d x b m) a z)
    → (g : Heap) × (rotate (other s) a h ≡ some (tt, g)) × Focus g k (join s d x b (join s c m a z))
rotate-other-Focus Side.left k c d x m z a b h f = rotate-Focus Side.right k c d z m x a b h f
rotate-other-Focus Side.right k c d x m z a b h f = rotate-Focus Side.left k c d z m x a b h f
