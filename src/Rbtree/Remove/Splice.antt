-- ===== src/Rbtree/Remove/Splice.antt =====
-- A node with one child or none leaves the tree.
use fping.Base.{
  ℕ, suc, ◌+◌, ◌≤◌, ◌<◌, ◌≡◌, refl, ◌==◌, if◌then◌else◌, not, false, some, arith, sym, subst,
}
use fping.Rbtree.{Ptr, null, Side, Heap, pure, when, set_parent}
use fping.Rbtree.Rotate.{relink}
use fping.Rbtree.Shape.{
  Color, red, black, Tree, leaf, node, join, Ctx, top, frame, plug, ptr, owner, inorder, count,
  count_ctx, at, at_self, count-join, ptr-join, is_red_tree, paint,
}
use fping.Rbtree.Shape.Balance.{
  NoRedRed, IsBalanced, FitsHeight, plug-NoRedRed, plug-HasHeight, is_red_owner,
}
use fping.Rbtree.Shape.Unplug.{
  unplug-NoRedRed, unplug-HasHeight, plug-IsRooted, join_red-NoRedRed, join_red-HasHeight,
  join_black-NoRedRed, join_black-HasHeight,
}
use fping.Rbtree.Insert.Fix.{depth, IsRooted}
use fping.Rbtree.Focus.{bit, Around, Focus, Rep-join}
use fping.Rbtree.Focus.Holds.{parent-ok, color-ok}
use fping.Rbtree.Focus.Frame.{
  Rep-same, Around-same, reparent, hooked, hooked-Around, hooked_same, relink-hooked,
}
use fping.Rbtree.Focus.Paint.{Focus-Holds-join, Focus-top}
use fping.Rbtree.Erase.{erase_color}
use fping.Rbtree.Erase.Balance.{both_false, plug_rooted}
use fping.Rbtree.Erase.Exit.{Ends}
use fping.Rbtree.Erase.Color.{erase_color-Ends}
use fping.Rbtree.Remove.{splice}

rooted_plug :
    (k : Ctx) (t : Tree) → IsRooted k → is_red_tree t ≡ false → is_red_tree (plug k t) ≡ false
rooted_plug top t r e = e
rooted_plug (frame s c a y up) t r e = plug_rooted s c a y up t r

NoRedRed-paint : (t : Tree) → NoRedRed t → NoRedRed (paint black t)
NoRedRed-paint leaf h = tt
NoRedRed-paint (node red l a r) h = (h.2, h.3)
NoRedRed-paint (node black l a r) h = h

-- the end of `ks_rb_erase`, where the node `a` of colour `c`, with nothing on side `s`, has left the tree
pub removed-Ends :
    (fuel : ℕ) (s : Side) (k : Ctx) (c : Color) (a : Ptr) (t : Tree) (h : Heap)
    → suc (depth k) < fuel
    → IsBalanced (plug k (join s c leaf a t))
    → Focus h k t
    → Ends
        (if bit c == 1 then erase_color fuel (ptr t) (owner k) else pure tt)
        h
        (inorder (plug k t))
removed-Ends fuel s k red a t h lt d f =
    let (nk, nj, edge) = unplug-NoRedRed k (join s red leaf a t) d.no_red_red in
    let (n, hk, hj) = unplug-HasHeight k (join s red leaf a t) d.height d.has_height in
    let (bl, bt, nl, nt) = join_red-NoRedRed s leaf a t nj in
    let (hl, ht) = join_red-HasHeight s leaf a t n hj in
    let (m, hp) = plug-HasHeight k t n hk ht in
    (
      h,
      refl,
      plug k t,
      Focus-top k t f,
      record {
        root_black = rooted_plug k t (plug-IsRooted k (join s red leaf a t) d.root_black) bt;
        no_red_red = plug-NoRedRed k t nk nt (rw bt (both_false (is_red_owner k)));
        height = m;
        has_height = hp;
      },
      refl,
    )
removed-Ends fuel s k black a t h lt d f =
    let (nk, nj, edge) = unplug-NoRedRed k (join s black leaf a t) d.no_red_red in
    let (n, hk, hj) = unplug-HasHeight k (join s black leaf a t) d.height d.has_height in
    let (nl, nt) = join_black-NoRedRed s leaf a t nj in
    let (m, e, hl, ht) = join_black-HasHeight s leaf a t n hj in
    erase_color-Ends fuel t k h m lt
      (record {
        rooted = plug-IsRooted k (join s black leaf a t) d.root_black;
        no_red_red = NoRedRed-paint t nt;
        around = nk;
        height = ht;
        fits = subst (FitsHeight k) e hk;
      })
      f

-- the writes of `splice`
splice-Focus :
    (s : Side) (k : Ctx) (c : Color) (a : Ptr) (t : Tree) (h : Heap)
    → Focus h k (join s c leaf a t)
    → (g1 : Heap) × (when (not (ptr t == null)) (set_parent (ptr t) (owner k)) h ≡ some (tt, g1))
      × (g : Heap) × (relink Side.left (owner k) a (ptr t) g1 ≡ some (tt, g))
      × Focus g k t
splice-Focus s k c a t h f =
    let held = Focus-Holds-join s k c leaf a t f in
    let (is, e, rl, rt) = Rep-join s h.nodes (owner k) c leaf a t f.inside in
    let once' : (q : Ptr) → at q a + count q t + count_ctx q k ≤ 1 =
      λ q. omega (arith, f.once q, count-join s c leaf a t q) in
    let (g1, run1, moved) = reparent t h a (owner k) is.aligned (λ q. omega (arith, once' q)) rt in
    let around =
      subst (λ r. Around g1.nodes r k a) (sym moved.root)
        (Around-same k h.nodes g1.nodes h.root a (λ q i. moved.same q (omega (arith, once' q)))
          (subst (Around h.nodes h.root k) (ptr-join s c leaf a t) f.around)) in
    let ak : count_ctx a k ≡ 0 = omega (arith, at_self a, once' a) in
    let g = hooked k (ptr t) g1 in
    (
      g1,
      run1,
      g,
      relink-hooked Side.left k g1 a (ptr t) is.ne_null ak around,
      record {
        around = hooked-Around k g1 a (ptr t) (λ q. omega (arith, once' q)) around;
        inside =
            Rep-same t g1.nodes g.nodes (owner k)
              (λ q i. hooked_same k (ptr t) g1 q (omega (arith, once' q))) moved.rep;
        once = λ q. omega (arith, once' q);
      },
    )

pub splice-Ends :
    (fuel : ℕ) (s : Side) (k : Ctx) (c : Color) (a : Ptr) (t : Tree) (h : Heap)
    → suc (depth k) < fuel
    → IsBalanced (plug k (join s c leaf a t))
    → Focus h k (join s c leaf a t)
    → Ends (splice fuel a (ptr t)) h (inorder (plug k t))
unfolding splice
splice-Ends fuel s k c a t h lt d f =
    let held = Focus-Holds-join s k c leaf a t f in
    let (g1, run1, g, run2, f') = splice-Focus s k c a t h f in
    let (g', run, w, fw, bw, ow) = removed-Ends fuel s k c a t g lt d f' in
    (g', rw (parent-ok s held, color-ok s held, run1, run2) run, w, fw, bw, ow)
