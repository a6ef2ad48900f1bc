-- ===== src/Rbtree/Remove/Inner.antt =====
-- A node with two children leaves the tree: the next node takes its place.
use fping.Base.{
  ℕ, suc, ◌+◌, ◌≤◌, ◌<◌, ◌≡◌, ◌≢◌, refl, ne→false, ◌==◌, if◌then◌else◌, false, some, ◌∷◌, ◌++◌,
  arith, ◌∙◌, sym, ap, subst,
}
use fping.Rbtree.{
  Ptr, null, Side, Heap, M, ◌>>=◌, ◌>>◌, pure, load, store, child, set_child, parent, color,
  set_parent,
}
use fping.Rbtree.Rotate.{relink}
use fping.Rbtree.Shape.{
  Color, Tree, leaf, node, Ctx, top, frame, plug, ptr, owner, inorder, size, count, count_ctx, at,
  at_self, at_ne,
}
use fping.Rbtree.Shape.Balance.{IsBalanced}
use fping.Rbtree.Shape.Unplug.{count-plug}
use fping.Rbtree.Insert.Fix.{depth}
use fping.Rbtree.Focus.{bit, cell, Around, Focus, Focus-down}
use fping.Rbtree.Focus.Holds.{
  put, put_ne, put_eq, Holds, Holds-same, Holds-put, Holds-put_ne, load-ok, store-ok, child-ok,
  child-other-ok, parent-ok, color-ok, set_child-ok,
}
use fping.Rbtree.Focus.Frame.{
  Rep-same, Around-same, reparent, hooked, hooked-Around, hooked_same, relink-hooked,
}
use fping.Rbtree.Focus.Paint.{Focus-Holds}
use fping.Rbtree.Walk.Next.{depth-plug}
use fping.Rbtree.Erase.{erase_color}
use fping.Rbtree.Erase.Exit.{Ends}
use fping.Rbtree.Remove.{unhook}
use fping.Rbtree.Remove.Order.{remove, remove-node, remove-plug, readdress-IsBalanced}
use fping.Rbtree.Remove.Next.{IsLeft, owner_in, Rep-Part, stack, plug-stack, Focus-stack}
use fping.Rbtree.Remove.Splice.{removed-Ends}
use fping.Rbtree.Remove.Unhook.{unhook-Unhooked}

depth-stack : (j k : Ctx) → depth (stack j k) ≡ depth j + depth k
depth-stack top k = omega arith
depth-stack (frame s c a y up) k = omega (arith, depth-stack up k)

owner-stack :
    (j k : Ctx) (s : Side) (c : Color) (m : Ptr) (y : Tree)
    → owner (stack j (frame s c m y k)) ≡ owner_in m j
owner-stack top k s c m y = refl
owner-stack (frame s' c' a' y' up) k s c m y = refl

-- the node `m` takes the place of `a`: `m` is the leftmost node on the right of `a`
module _ (k : Ctx) (c : Color) (l : Tree) (a : Ptr) (j : Ctx) (d : Color) (m : Ptr) (z : Tree)
    (left : IsLeft j) (ne : ptr l ≢ null) where
  abbrev next : Tree
  next = node d leaf m z

  abbrev r : Tree
  r = plug j next

  abbrev r0 : Tree
  r0 = plug j z

  -- the run up to the `goto`, behind the search for `m`
  abbrev moves : ℕ → M (Unit {0})
  moves fuel = do
    above ← parent a
    relink Side.left above a m
    below ← child Side.right m
    e ← color m
    up ← unhook a m below
    word ← load a
    copy ← load m
    store m (record copy { parent_color = word.parent_color })
    first ← child Side.left a
    set_child Side.left m first
    set_parent first m
    if e == 1 then erase_color fuel below up else pure tt

  moves-Focus :
      (fuel : ℕ) (h : Heap)
      → Focus h k (node c l a r)
      → (g : Heap) × (v : Ptr) × (v ≡ owner_in m j)
        × (moves fuel h ≡ (if bit d == 1 then erase_color fuel (ptr z) v else pure tt) g)
        × Focus g k (node c l m r0)
  moves-Focus fuel h f =
      let held = Focus-Holds k c l a r f in
      let all : (q : Ptr)
          → at q a + count q l + (at q m + count q z + count_ctx q j) + count_ctx q k ≤ 1 =
        λ q. omega (arith, f.once q, count-plug j next q) in
      let ak : count_ctx a k ≡ 0 = omega (arith, at_self a, all a) in
      let am = at_ne a m (omega (arith, at_self a, all a)) in
      let h1 = hooked k m h in
      let same1 = λ (q : Ptr) (i : count_ctx q k ≡ 0). hooked_same k m h q i in
      let held1 = Holds-same Side.left h h1 a (owner k) c (ptr l) (ptr r) (same1 a ak) held in
      let rep1 =
        Rep-same r h.nodes h1.nodes a (λ q i. same1 q (omega (arith, all q, count-plug j next q)))
          f.inside.3 in
      let part = Rep-Part h1.nodes a j next held.is.aligned rep1 in
      let (ism, em, _, rz) = part.rep in
      let held_m : Holds Side.left h1 m (owner_in a j) d null (ptr z) = record {
        is = ism;
        holds = em;
        aligned = part.aligned;
      } in
      let (h5, v, run5, u) =
        unhook-Unhooked j d m z a (owner k) c (ptr l) h1 left held1 rep1
          (λ q. omega (arith, all q, count-plug j next q)) in
      let held5 =
        Holds-same Side.left h1 h5 a (owner k) c (ptr l) (ptr r)
          (u.same a (omega (arith, at_self a, all a, count-plug j next a))) held1 in
      let n6 = cell Side.left (owner k) c null (ptr r0) in
      let h6 = put h5 m n6 in
      let held_a6 = Holds-put_ne Side.left h5 a (owner k) c (ptr l) (ptr r) m n6 am held5 in
      let held_m6 = Holds-put Side.left h5 m (owner k) c null (ptr r0) ism held.aligned in
      let n7 = cell Side.left (owner k) c (ptr l) (ptr r0) in
      let h7 = put h6 m n7 in
      let same7 = λ (q : Ptr) (nm : q ≢ m) (i : count q r ≡ 0).
        put_ne h6 m q n7 nm ∙ put_ne h5 m q n6 nm ∙ u.same q i in
      let same7l = λ (q : Ptr) (i : 1 ≤ count q l).
        same7 q (at_ne q m (omega (arith, all q))) (omega (arith, all q, count-plug j next q))
        ∙ same1 q (omega (arith, all q)) in
      let (h8, run8, mv8) =
        reparent l h7 a m held.is.aligned (λ q. omega (arith, all q))
          (Rep-same l h.nodes h7.nodes a same7l f.inside.2) in
      let nn : (ptr l == null) ≡ false = ne→false (ptr l) null ne in
      let run8' : set_parent (ptr l) m h7 ≡ some (tt, h8) = rw nn at run8 in
      let around =
        Around-same k h1.nodes h8.nodes h1.root m
          (λ q i.
            mv8.same q (omega (arith, all q))
            ∙ same7 q (at_ne q m (omega (arith, all q)))
                (omega (arith, all q, count-plug j next q)))
          (hooked-Around k h a m (λ q. omega (arith, all q)) f.around) in
      (
        h8,
        v,
        u.above,
        rw
            (
              parent-ok Side.left held,
              relink-hooked Side.left k h a m held.is.ne_null ak f.around,
              child-other-ok Side.left held_m,
              color-ok Side.left held_m,
              run5,
              load-ok h5 a (cell Side.left (owner k) c (ptr l) (ptr r)) held.is held5.holds,
              load-ok h5 m (cell Side.left u.up d null (ptr r0)) ism u.next.holds,
              store-ok h5 m n6 ism,
              child-ok Side.left held_a6,
              set_child-ok Side.left (ptr l) held_m6,
              run8',
            )
            refl,
        record {
          around = subst (λ p. Around h8.nodes p k m) (sym (mv8.root ∙ u.root)) around;
          inside = (
            ism,
            mv8.same m (omega (arith, at_self m, all m)) ∙ put_eq h6 m n7,
            mv8.rep,
            Rep-same r0 h5.nodes h8.nodes m
                (λ q i.
                  mv8.same q (omega (arith, all q, count-plug j z q))
                  ∙ put_ne h6 m q n7 (at_ne q m (omega (arith, all q, count-plug j z q)))
                  ∙ put_ne h5 m q n6 (at_ne q m (omega (arith, all q, count-plug j z q))))
                u.rep,
          );
          once = λ q. omega (arith, all q, count-plug j z q);
        },
      )

  pub moves-Ends :
      (fuel : ℕ) (h : Heap)
      → suc (size (plug k (node c l a r))) < fuel
      → m ∷ inorder r0 ≡ inorder r
      → IsBalanced (plug k (node c l a r))
      → Focus h k (node c l a r)
      → Ends (moves fuel) h (remove a (inorder (plug k (node c l a r))))
  moves-Ends fuel h lt e b f =
      let (g, v, above, run, f') = moves-Focus fuel h f in
      let kk = frame Side.right c m l k in
      let hole = stack j kk in
      let ff = Focus-stack j kk z (Focus-down Side.right f') in
      let deep : suc (depth hole) < fuel =
        omega (arith, depth-stack j kk, depth-plug j next, depth-plug k (node c l a r)) in
      let balanced =
        subst IsBalanced (sym (plug-stack j kk next)) (readdress-IsBalanced k c l a m r b) in
      let (g', run', w, fw, bw, ow) = removed-Ends fuel Side.left hole d m z g deep balanced ff in
      let at_hole = above ∙ sym (owner-stack j k Side.right c m l) in
      let once = f.once a in
      let order =
        ap inorder (plug-stack j kk z)
        ∙ remove-plug k (node c l a r) (node c l m r0) a (omega (arith, at_self a, once)) (
            ap (λ x. inorder l ++ x) e
            ∙ sym (
                remove-node c l a r (omega (arith, at_self a, once))
                  (omega (arith, at_self a, once)))) in
      (
        g',
        run
            ∙ ap (λ p. (if bit d == 1 then erase_color fuel (ptr z) p else pure tt) g) at_hole
            ∙ run',
        w,
        fw,
        bw,
        ow ∙ order,
      )
