-- ===== src/Rbtree/Remove/Whole.antt =====
-- `ks_rb_erase` as a whole: the node is gone, and the tree is balanced.
use fping.Base.{
  ℕ, suc, ◌<◌, ◌≡◌, ◌≢◌, refl, ne→false, ◌==◌, if◌then◌else◌, false, arith, ◌∙◌, sym, ap, subst,
}
use fping.Rbtree.{Ptr, null, Side, Heap}
use fping.Rbtree.Shape.{
  Color, Tree, leaf, node, join, Ctx, plug, ptr, inorder, size, count, count_ctx, count-join,
  at_self,
}
use fping.Rbtree.Shape.Balance.{IsBalanced}
use fping.Rbtree.Focus.{Focus}
use fping.Rbtree.Focus.Holds.{child-ok, child-other-ok}
use fping.Rbtree.Focus.Paint.{Focus-Holds}
use fping.Rbtree.Walk.Next.{depth-plug, size-join}
use fping.Rbtree.Erase.Exit.{Ends}
use fping.Rbtree.Remove.{splice, erase_inner, erase}
use fping.Rbtree.Remove.Order.{remove, remove_alone, remove-plug}
use fping.Rbtree.Remove.Next.{descend-Leftmost}
use fping.Rbtree.Remove.Splice.{splice-Ends}
use fping.Rbtree.Remove.Inner.{moves-Ends}

-- the two children of a node
erase_inner-Ends :
    (fuel : ℕ) (k : Ctx) (c : Color) (l : Tree) (a : Ptr) (e : Color) (x : Tree) (b : Ptr)
    (y : Tree) (h : Heap)
    → ptr l ≢ null
    → suc (size (plug k (node c l a (node e x b y)))) < fuel
    → IsBalanced (plug k (node c l a (node e x b y)))
    → Focus h k (node c l a (node e x b y))
    → Ends (erase_inner fuel a) h (remove a (inorder (plug k (node c l a (node e x b y)))))
unfolding erase_inner
erase_inner-Ends fuel k c l a e x b y h ne lt d f =
    let r = node e x b y in
    let held = Focus-Holds k c l a r f in
    let (i, run) =
      descend-Leftmost fuel e x b y h a (omega (arith, lt, depth-plug k (node c l a r)))
        f.inside.3 in
    let tree = λ (t : Tree). node c l a t in
    let back = sym i.whole in
    let (g, run', w, fw, bw, ow) =
      moves-Ends k c l a i.k i.c i.m i.z i.left ne fuel h
        (subst (λ t. suc (size (plug k (node c l a t))) < fuel) back lt) (i.order ∙ ap inorder back)
        (subst (λ t. IsBalanced (plug k (node c l a t))) back d)
        (subst (λ t. Focus h k (node c l a t)) back f) in
    (
      g,
      rw (child-other-ok Side.left held, run) run',
      w,
      fw,
      bw,
      ow ∙ ap (λ t. remove a (inorder (plug k (node c l a t)))) i.whole,
    )

splice-remove :
    (fuel : ℕ) (s : Side) (k : Ctx) (c : Color) (a : Ptr) (t : Tree) (h : Heap)
    → suc (size (plug k (join s c leaf a t))) < fuel
    → IsBalanced (plug k (join s c leaf a t))
    → Focus h k (join s c leaf a t)
    → Ends (splice fuel a (ptr t)) h (remove a (inorder (plug k (join s c leaf a t))))
splice-remove fuel s k c a t h lt d f =
    let tree = join s c leaf a t in
    let (g, run, w, fw, bw, ow) =
      splice-Ends fuel s k c a t h (omega (arith, lt, depth-plug k tree, size-join s c leaf a t)) d
        f in
    let once = f.once a in
    let out : (count a t ≡ 0) × (count_ctx a k ≡ 0) =
      omega (arith, once, at_self a, count-join s c leaf a t a) in
    (g, run, w, fw, bw, ow ∙ remove-plug k tree t a out.1 (remove_alone s c a t out.0))

-- In memory that holds a balanced tree, with fuel for more than its nodes and one: `ks_rb_erase` at any of
-- its nodes ends, and memory then holds a balanced tree with all the other addresses, in their order.
pub erase-Ends :
    (fuel : ℕ) (k : Ctx) (c : Color) (l : Tree) (a : Ptr) (r : Tree) (h : Heap)
    → suc (size (plug k (node c l a r))) < fuel
    → IsBalanced (plug k (node c l a r))
    → Focus h k (node c l a r)
    → Ends (erase fuel a) h (remove a (inorder (plug k (node c l a r))))
unfolding erase
erase-Ends fuel k c leaf a r h lt d f =
    let held = Focus-Holds k c leaf a r f in
    let (g, run, w, fw, bw, ow) = splice-remove fuel Side.left k c a r h lt d f in
    (g, rw (child-ok Side.left held, child-other-ok Side.left held) run, w, fw, bw, ow)
erase-Ends fuel k c (node e x b y) a leaf h lt d f =
    let l = node e x b y in
    let held = Focus-Holds k c l a leaf f in
    let (g, run, w, fw, bw, ow) = splice-remove fuel Side.right k c a l h lt d f in
    let nn : (b == null) ≡ false = ne→false b null f.inside.2.0.ne_null in
    let start : erase fuel a h ≡ (if b == null then splice fuel a null else splice fuel a b) h =
      rw (child-ok Side.left held, child-other-ok Side.left held) refl in
    (
      g,
      start ∙ ap (λ v. (if v then splice fuel a null else splice fuel a b) h) nn ∙ run,
      w,
      fw,
      bw,
      ow,
    )
erase-Ends fuel k c (node e x b y) a (node e' x' b' y') h lt d f =
    let held = Focus-Holds k c (node e x b y) a (node e' x' b' y') f in
    let (g, run, w, fw, bw, ow) =
      erase_inner-Ends fuel k c (node e x b y) a e' x' b' y' h f.inside.2.0.ne_null lt d f in
    let nn : (b == null) ≡ false = ne→false b null f.inside.2.0.ne_null in
    let nn' : (b' == null) ≡ false = ne→false b' null f.inside.3.0.ne_null in
    (g, rw (child-ok Side.left held, child-other-ok Side.left held, nn, nn') run, w, fw, bw, ow)
