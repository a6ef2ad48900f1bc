-- ===== src/Table/Place.antt =====
-- The search of `table_add` ends at the place that the tree has for the key, and the node goes in there.
use fping.Base.{
  ℕ, zero, suc, ◌<◌, ◌≡◌, refl, ◌==◌, true, false, Bool-cases, inl, inr, some, arith, ℤ, pos, ltb_ℤ,
  ◌∙◌, sym, ap, subst,
}
use native.Mathlib.Nat.{sub-zero}
use fping.Result.{Key}
use fping.Rbtree.{Ptr, null, Side, Heap}
use fping.Rbtree.Shape.{
  size, red, black, Tree, leaf, node, Ctx, top, frame, plug, owner, inorder, count, count_ctx,
  paint,
}
use fping.Rbtree.Shape.Order.{inorder-paint}
use fping.Rbtree.Shape.Balance.{IsBalanced}
use fping.Rbtree.Shape.Unplug.{unplug-NoRedRed, unplug-HasHeight, plug-IsRooted, count-plug}
use fping.Rbtree.Focus.{IsNode, Focus, Focus-down}
use fping.Rbtree.Focus.Holds.{load-ok}
use fping.Rbtree.Focus.Attach.{link_of, deref-ok, link_node-Focus}
use fping.Rbtree.Insert.Fix.{fix, depth}
use fping.Rbtree.Insert.Balance.{inorder-fix, fix-IsBalanced}
use fping.Rbtree.Insert.Loop.{insert_color-fix}
use fping.Table.Tree.{Search, vacant, taken, find_place, attach}
use fping.Table.Search.{Place, hole, present, place}

-- what the search in memory returns
abbrev pub answer : Place → Search
answer (hole k) = vacant (link_of k) (owner k)
answer (present a) = taken a

module _ (strcmp : Key → Key → ℤ) where
  pub find_place-place :
      (keys : Ptr → Key) (key : Key) (fuel : ℕ) (t : Tree) (k : Ctx) (h : Heap)
      → size t < fuel
      → Focus h k t
      → find_place strcmp keys key fuel (link_of k) (owner k) h
        ≡ some (answer (place strcmp keys key t k), h)
  unfolding find_place
  find_place-place keys key zero t k h lt f = absurd (omega arith)
  find_place-place keys key (suc fuel) leaf k h lt f = rw (deref-ok k leaf f) refl
  find_place-place keys key (suc fuel) (node c l a r) k h lt f =
      let nn : (a == null) ≡ false = ground (arith, f.inside.0.ne_null) in
      let here = deref-ok k (node c l a r) f in
      let loaded = load-ok h a _ f.inside.0 f.inside.1 in
      elim (Bool-cases (ltb_ℤ (pos 0) (strcmp key (keys a)))) [
        | inl above ↦
            rw (here, nn, loaded, sub-zero a, above)
              (find_place-place keys key fuel l (frame Side.left c a r k) h (omega arith)
                (Focus-down Side.left f))
        | inr low ↦ elim (Bool-cases (ltb_ℤ (strcmp key (keys a)) (pos 0))) [
          | inl below ↦
              rw (here, nn, loaded, sub-zero a, low, below)
                (find_place-place keys key fuel r (frame Side.right c a l k) h (omega arith)
                  (Focus-down Side.right f))
          | inr same ↦ rw (here, nn, loaded, sub-zero a, low, same) refl
        ]
      ]

-- In memory that holds a balanced tree, at an empty place of it: the calls of `table_add` behind its loop
-- end, and memory then holds a balanced tree again, whose addresses from left to right are those of
-- the old one with the new node at the place.
pub attach-Focus :
    (fuel : ℕ) (k : Ctx) (te : Ptr) (h : Heap) (tree : Tree)
    → depth k < fuel
    → IsNode te
    → plug k leaf ≡ tree
    → count te tree ≡ 0
    → IsBalanced tree
    → Focus h k leaf
    → (g : Heap) × (attach fuel te (vacant (link_of k) (owner k)) h ≡ some (true, g))
      × (tree' : Tree) × Focus g top tree'
      × IsBalanced tree'
      × (inorder tree' ≡ inorder (plug k (node red leaf te leaf)))
unfolding attach
attach-Focus fuel k te h tree lt is same new balanced f =
    let sprig = node red leaf te leaf in
    let b = subst IsBalanced (sym same) balanced in
    let out : count_ctx te k ≡ 0 = omega (arith, count-plug k leaf te, ap (count te) same) in
    let (g1, run1, f1) = link_node-Focus k te h is out f in
    let rooted = plug-IsRooted k leaf b.root_black in
    let (g, run, f') = insert_color-fix fuel sprig k g1 lt rooted is.ne_null f1 in
    let (nk, nt, edge) = unplug-NoRedRed k leaf b.no_red_red in
    let (n, hk, hn) = unplug-HasHeight k leaf b.height b.has_height in
    (
      g,
      rw (run1, run) refl,
      paint black (fix sprig k),
      f',
      fix-IsBalanced k sprig n rooted refl (refl, refl, tt, tt) (hn, hn) nk hk,
      inorder-paint black (fix sprig k) ∙ inorder-fix k sprig refl,
    )
