-- ===== src/Rbtree/Remove/Unhook.antt =====
-- The next node leaves its place in memory.
use fping.Base.{
  ◌+◌, ◌%◌, ◌≤◌, ◌≡◌, ◌≢◌, refl, ne→false, eq→true, ◌==◌, false, some, arith, ◌∙◌, sym, ap,
}
use fping.Rbtree.{Ptr, null, Side, Heap, set_parent}
use fping.Rbtree.Shape.{
  Color, ptr-join, Tree, leaf, node, join, Ctx, top, frame, plug, ptr, count, count_ctx, at,
  at_self, at_ne,
}
use fping.Rbtree.Shape.Unplug.{count-plug}
use fping.Rbtree.Focus.{cell, Nodes, Rep, Rep-join}
use fping.Rbtree.Focus.Holds.{
  put, put_ne, put_eq, Holds, Holds-same, child-other-ok, parent-ok, set_child-ok,
  set_child-other-ok,
}
use fping.Rbtree.Focus.Frame.{Rep-same, reparent}
use fping.Rbtree.Remove.{unhook}
use fping.Rbtree.Remove.Next.{IsLeft, owner_in, Rep-Part}

ptr-plug : (k : Ctx) (t t' : Tree) → ptr t ≡ ptr t' → ptr (plug k t) ≡ ptr (plug k t')
ptr-plug top t t' e = e
ptr-plug (frame s c a y up) t t' e =
    ptr-plug up (join s c t a y) (join s c t' a y) (ptr-join s c t a y ∙ sym (ptr-join s c t' a y))

plug_ne :
    (k : Ctx) (t : Tree) (h : Nodes) (b : Ptr)
    → b % 4 ≡ 0
    → ptr t ≢ null
    → Rep h b (plug k t)
    → ptr (plug k t) ≢ null
plug_ne top t h b al ne r = ne
plug_ne (frame s c a y up) t h b al ne r =
    let p = Rep-Part h b up (join s c t a y) al r in
    let (is, _, _, _) = Rep-join s h (owner_in b up) c t a y p.rep in
    plug_ne up (join s c t a y) h b al (λ e. is.ne_null (sym (ptr-join s c t a y) ∙ e)) r

-- `m` has left the subtree on the right of `a`, and that is below `m`
pub record Unhooked (h : Heap) (k : Ctx) (d : Color) (m : Ptr) (z : Tree) (g : Heap) (v : Ptr)
    : Type 0 where
  pub up : Ptr
  pub next : Holds Side.left g m up d null (ptr (plug k z))
  pub rep : Rep g.nodes m (plug k z)
  pub same : (q : Ptr) → count q (plug k (node d leaf m z)) ≡ 0 → g.nodes q ≡ h.nodes q
  pub root : g.root ≡ h.root
  pub above : v ≡ owner_in m k

pub unhook-Unhooked :
    (k : Ctx) (d : Color) (m : Ptr) (z : Tree) (a up : Ptr) (c : Color) (l : Ptr) (h : Heap)
    → IsLeft k
    → Holds Side.left h a up c l (ptr (plug k (node d leaf m z)))
    → Rep h.nodes a (plug k (node d leaf m z))
    → ((q : Ptr) → at q a + count q (plug k (node d leaf m z)) ≤ 1)
    → (g : Heap) × (v : Ptr) × (unhook a m (ptr z) h ≡ some (v, g)) × Unhooked h k d m z g v
unfolding unhook
unhook-Unhooked top d m z a up c l h left held (is, e, _, rz) once =
    let next : Holds Side.left h m a d null (ptr z) = record {
      is = is;
      holds = e;
      aligned = held.is.aligned;
    } in
    (
      h,
      m,
      rw (parent-ok Side.left next, eq→true a) refl,
      record { up = a; next = next; rep = rz; same = λ q i. refl; root = refl; above = refl },
    )
unhook-Unhooked (frame Side.right e u y k) d m z a up c l h left held rep once = elim left [ ]
unhook-Unhooked (frame Side.left e u y k) d m z a up c l h left held rep once =
    let t = node e (node d leaf m z) u y in
    let t' = node e z u y in
    let r = plug k t in
    let r0 = plug k t' in
    let part = Rep-Part h.nodes a k t held.is.aligned rep in
    let (isu, eu, (ism, em, _, rz), ry) = part.rep in
    let all : (q : Ptr) → at q a + (at q u + (at q m + count q z) + count q y) + count_ctx q k ≤ 1 =
      λ q. omega (arith, once q, count-plug k t q) in
    let held_m : Holds Side.left h m u d null (ptr z) = record {
      is = ism;
      holds = em;
      aligned = isu.aligned;
    } in
    let held_u : Holds Side.left h u (owner_in a k) e m (ptr y) = record {
      is = isu;
      holds = eu;
      aligned = part.aligned;
    } in
    let (h2, run2, mv2) = reparent z h m u ism.aligned (λ q. omega (arith, all q)) rz in
    let held_u2 =
      Holds-same Side.left h h2 u (owner_in a k) e m (ptr y)
        (mv2.same u (omega (arith, at_self u, all u))) held_u in
    let nu = cell Side.left (owner_in a k) e (ptr z) (ptr y) in
    let h3 = put h2 u nu in
    let au = at_ne a u (omega (arith, at_self a, all a)) in
    let mu = at_ne m u (omega (arith, at_self m, all m)) in
    let same3 = λ (q : Ptr) (nq : q ≢ u) (i : count q z ≡ 0). put_ne h2 u q nu nq ∙ mv2.same q i in
    let held_a3 =
      Holds-same Side.left h h3 a up c l (ptr r) (same3 a au (omega (arith, at_self a, all a)))
        held in
    let held_m3 =
      Holds-same Side.left h h3 m u d null (ptr z) (same3 m mu (omega (arith, at_self m, all m)))
        held_m in
    let nm = cell Side.left u d null (ptr r) in
    let h4 = put h3 m nm in
    let same4 = λ (q : Ptr) (nm' : q ≢ m) (nq : q ≢ u) (i : count q z ≡ 0).
      put_ne h3 m q nm nm' ∙ same3 q nq i in
    let rep4 : Rep h4.nodes (owner_in a k) t' = (
      isu,
      put_ne h3 m u nm (λ x. mu (sym x)) ∙ put_eq h2 u nu,
      Rep-same z h2.nodes h4.nodes u
          (λ q i.
            put_ne h3 m q nm (at_ne q m (omega (arith, all q)))
            ∙ put_ne h2 u q nu (at_ne q u (omega (arith, all q))))
          mv2.rep,
      Rep-same y h.nodes h4.nodes u
          (λ q i.
            same4 q (at_ne q m (omega (arith, all q))) (at_ne q u (omega (arith, all q)))
              (omega (arith, all q)))
          ry,
    ) in
    let rep4r =
      part.back h4.nodes t' refl
        (λ q i.
          same4 q (at_ne q m (omega (arith, all q))) (at_ne q u (omega (arith, all q)))
            (omega (arith, all q)))
        rep4 in
    let (h5, run5, mv5) =
      reparent r0 h4 a m held.is.aligned (λ q. omega (arith, all q, count-plug k t' q)) rep4r in
    let here : ptr r ≡ ptr r0 = ptr-plug k t t' refl in
    let nn : (ptr r0 == null) ≡ false =
      ne→false (ptr r0) null (plug_ne k t' h4.nodes a held.is.aligned isu.ne_null rep4r) in
    let run5' : set_parent (ptr r) m h4 ≡ some (tt, h5) =
      ap (λ p. set_parent p m h4) here ∙ (rw nn at run5) in
    let ua : (u == a) ≡ false = ne→false u a (λ x. au (sym x)) in
    (
      h5,
      u,
      rw
          (
            parent-ok Side.left held_m,
            ua,
            run2,
            set_child-ok Side.left (ptr z) held_u2,
            child-other-ok Side.left held_a3,
            set_child-other-ok Side.left (ptr r) held_m3,
            run5',
          )
          refl,
      record {
        up = u;
        next = record {
          is = ism;
          holds =
              mv5.same m (omega (arith, at_self m, all m, count-plug k t' m))
              ∙ put_eq h3 m nm
              ∙ ap (λ p. some (cell Side.left u d null p)) here;
          aligned = isu.aligned;
        };
        rep = mv5.rep;
        same = λ q i.
            mv5.same q (omega (arith, count-plug k t q, count-plug k t' q))
            ∙ same4 q (at_ne q m (omega (arith, i, count-plug k t q)))
                (at_ne q u (omega (arith, i, count-plug k t q)))
                (omega (arith, i, count-plug k t q));
        root = mv5.root ∙ mv2.root;
        above = refl;
      },
    )
