-- ===== src/Rbtree/Replace.antt =====
-- `ks_rb_replace_node` of ks_rbtree.c, and that it does what it says.
use fping.Base.{◌+◌, ◌≤◌, ◌≡◌, ◌≢◌, ◌==◌, Bool-cases, inl, inr, not, some, arith, ◌∙◌, sym, subst}
use fping.Rbtree.{
  Ptr, null, Side, Heap, M, ◌>>=◌, ◌>>◌, when, load, store, child, parent, set_parent,
}
use fping.Rbtree.Rotate.{relink}
use fping.Rbtree.Shape.{Color, Tree, node, Ctx, ptr, owner, at_self, count, count_ctx}
use fping.Rbtree.Focus.{cell, IsNode, Around, Focus}
use fping.Rbtree.Focus.Holds.{
  put, put_ne, put_eq, Holds-same, load-ok, store-ok, child-ok, child-other-ok, parent-ok,
}
use fping.Rbtree.Focus.Frame.{
  Rep-same, Around-same, reparent, hooked, hooked-Around, hooked_same, relink-hooked,
}
use fping.Rbtree.Focus.Paint.{Focus-Holds}

unfoldable pub replace_node : Ptr → Ptr → M (Unit {0})
unfolding relink
replace_node victim n = do
  up ← parent victim
  relink Side.left up victim n
  left ← child Side.left victim
  when (not (left == null)) (set_parent left n)
  right ← child Side.right victim
  when (not (right == null)) (set_parent right n)
  copy ← load victim
  store n copy

module _ (k : Ctx) (c : Color) (l : Tree) (a : Ptr) (r : Tree) (b : Ptr) (is : IsNode b)
    (out : count b (node c l a r) + count_ctx b k ≡ 0) where
  once_swapped :
      ((q : Ptr) → count q (node c l a r) + count_ctx q k ≤ 1)
      → (q : Ptr) → count q (node c l b r) + count_ctx q k ≤ 1
  once_swapped once q = elim (Bool-cases (q == b)) [
    | inl same ↦ grind (arith, out)
    | inr apart ↦ grind (arith, once q)
  ]

  outside_ne : (q : Ptr) → 1 ≤ count q l + count q r + count_ctx q k → q ≢ b
  outside_ne q i e = absurd (grind (arith, out))

  -- In memory that holds a tree with the node `a` in it, for a node `b` outside the tree:
  -- `ks_rb_replace_node` puts `b` in the place of `a`, with its colour and its subtrees, and the rest of
  -- the tree stays as it was.
  pub replace_node-Focus :
      (h : Heap)
      → Focus h k (node c l a r)
      → (g : Heap) × (replace_node a b h ≡ some (tt, g)) × Focus g k (node c l b r)
  unfolding replace_node
  replace_node-Focus h f =
      let held = Focus-Holds k c l a r f in
      let once = λ (q : Ptr). f.once q in
      let ak : count_ctx a k ≡ 0 = omega (arith, at_self a, once a) in
      let h1 = hooked k b h in
      let same1 = λ (q : Ptr) (i : count_ctx q k ≡ 0). hooked_same k b h q i in
      let held1 = Holds-same Side.left h h1 a (owner k) c (ptr l) (ptr r) (same1 a ak) held in
      let (h2, run2, m2) =
        reparent l h1 a b held.is.aligned (λ q. omega (arith, once q))
          (Rep-same l h.nodes h1.nodes a (λ q i. same1 q (omega (arith, once q))) f.inside.2) in
      let held2 =
        Holds-same Side.left h1 h2 a (owner k) c (ptr l) (ptr r)
          (m2.same a (omega (arith, at_self a, once a))) held1 in
      let (h3, run3, m3) =
        reparent r h2 a b held.is.aligned (λ q. omega (arith, once q))
          (Rep-same r h.nodes h2.nodes a
            (λ q i. m2.same q (omega (arith, once q)) ∙ same1 q (omega (arith, once q)))
            f.inside.3) in
      let held3 =
        Holds-same Side.left h2 h3 a (owner k) c (ptr l) (ptr r)
          (m3.same a (omega (arith, at_self a, once a))) held2 in
      let n = cell Side.left (owner k) c (ptr l) (ptr r) in
      let g = put h3 b n in
      let apart = λ (q : Ptr) (i : 1 ≤ count q l + count q r + count_ctx q k). outside_ne q i in
      let same = λ (q : Ptr) (i : 1 ≤ count_ctx q k).
        put_ne h3 b q n (apart q (omega arith))
        ∙ m3.same q (omega (arith, once q))
        ∙ m2.same q (omega (arith, once q)) in
      (
        g,
        rw
            (
              parent-ok Side.left held,
              relink-hooked Side.left k h a b held.is.ne_null ak f.around,
              child-ok Side.left held1,
              run2,
              child-other-ok Side.left held2,
              run3,
              load-ok h3 a n held.is held3.holds,
            )
            (store-ok h3 b n is),
        record {
          around =
              subst (λ p. Around g.nodes p k b) (sym (m3.root ∙ m2.root))
                (Around-same k h1.nodes g.nodes h1.root b same
                  (hooked-Around k h a b (λ q. omega (arith, once q)) f.around));
          inside = (
            is,
            put_eq h3 b n,
            Rep-same l h2.nodes g.nodes b
                (λ q i. put_ne h3 b q n (apart q (omega arith)) ∙ m3.same q (omega (arith, once q)))
                m2.rep,
            Rep-same r h3.nodes g.nodes b (λ q i. put_ne h3 b q n (apart q (omega arith))) m3.rep,
          );
          once = once_swapped once;
        },
      )
