-- ===== src/Rbtree/Focus/Attach.antt =====
-- A new leaf is linked into the tree.
use fping.Base.{Bool-cases, inl, inr, ◌==◌, ◌+◌, ◌≤◌, ◌≡◌, refl, some, arith, ◌∙◌, ap}
use fping.Rbtree.{Ptr, null, Side, Heap, Link, at_root, at_child, deref, assign, link_node}
use fping.Rbtree.Shape.{
  red, Tree, leaf, node, Ctx, top, frame, ptr, owner, at_self, count, count_ctx,
}
use fping.Rbtree.Focus.{cell, IsNode, Around, Focus, Around-write}
use fping.Rbtree.Focus.Holds.{put, put_eq, child-ok, set_child-ok, store-ok}
use fping.Rbtree.Focus.Frame.{frame-Holds, hooked, hooked-Around, hooked_same}
use fping.Rbtree.Focus.Paint.{Focus-owner}

-- the pointer at a hole
abbrev pub link_of : Ctx → Link
link_of top = at_root
link_of (frame s c a y up) = at_child s a

pub deref-ok : (k : Ctx) (t : Tree) {h : Heap} → Focus h k t → deref (link_of k) h ≡ some (ptr t, h)
unfolding deref
deref-ok top t {h} f = ap (λ p. some (p, h)) f.around
deref-ok (frame s c a y up) t f = child-ok s (Focus-owner s c a y up t f)

-- the new leaf itself
abbrev pub sprout : Ctx → Ptr → Heap → Heap
sprout k te h = put h te (cell Side.left (owner k) red null null)

assign-hooked :
    (k : Ctx) (te : Ptr) (h : Heap) (p : Ptr)
    → Around h.nodes h.root k p
    → assign (link_of k) te h ≡ some (tt, hooked k te h)
unfolding assign
assign-hooked top te h p x = refl
assign-hooked (frame s c a y up) te h p x = set_child-ok s te (frame-Holds s c a y up h p x)

once_more :
    (k : Ctx) (te q : Ptr)
    → count_ctx te k ≡ 0
    → count_ctx q k ≤ 1
    → count q (node red leaf te leaf) + count_ctx q k ≤ 1
once_more k te q new once = elim (Bool-cases (q == te)) [
  | inl same ↦ let e : q ≡ te = ground arith in rw e (omega (arith, at_self te))
  | inr ne ↦ rw ne (omega arith)
]

pub link_node-Focus :
    (k : Ctx) (te : Ptr) (h : Heap)
    → IsNode te
    → count_ctx te k ≡ 0
    → Focus h k leaf
    → (g : Heap) × (link_node te (owner k) (link_of k) h ≡ some (tt, g))
      × Focus g k (node red leaf te leaf)
unfolding link_node
link_node-Focus k te h is new f =
    let n = cell Side.left (owner k) red null null in
    let h1 = sprout k te h in
    let word : owner k ≡ owner k + 0 = omega arith in
    let around = Around-write k h.nodes h.root null te n new f.around in
    (
      hooked k te h1,
      rw (store-ok h te (record { parent_color = owner k; right = null; left = null }) is) (
          ap
            (λ w.
              assign (link_of k) te
                (put h te (record { parent_color = w; right = null; left = null })))
            word
          ∙ assign-hooked k te h1 null around),
      record {
        around = hooked-Around k h1 null te (λ q. omega (arith, f.once q)) around;
        inside = (is, hooked_same k te h1 te new ∙ put_eq h te n, tt, tt);
        once = λ q. once_more k te q new (omega (arith, f.once q));
      },
    )
