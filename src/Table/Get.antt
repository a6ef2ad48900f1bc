-- ===== src/Table/Get.antt =====
-- `table_get` finds what the sorted list has.
use fping.Base.{
  ℕ, zero, suc, ◌<◌, ◌≡◌, refl, ◌==◌, if◌then◌else◌, false, Option-cases, ◌≢◌, Bool-cases, inl, inr,
  Option, none, some, List, arith, ℤ, pos, ltb_ℤ, ◌∙◌, sym, ap, subst,
}
use native.Mathlib.Nat.{sub-zero}
use fping.Result.{Key}
use fping.Rbtree.{Ptr, null, Side, Heap}
use fping.Rbtree.Shape.{Tree, leaf, node, Ctx, top, frame, ptr, size}
use fping.Rbtree.Focus.{Nodes, Rep, Focus, Focus-down}
use fping.Rbtree.Focus.Holds.{load-ok, child-ok, child-other-ok}
use fping.Rbtree.Focus.Paint.{Focus-Holds}
use fping.Table.{IsOrder, lookup}
use fping.Table.Sorted.{IsSorted}
use fping.Table.Tree.{Table, get_loop, table_get}
use fping.Table.Search.{find, lookup-find}
use fping.Table.Meets.{Represents}

-- a pointer that is NULL for nothing
abbrev pointer : Option Ptr → Ptr
pointer none = null
pointer (some a) = a

module _ (strcmp : Key → Key → ℤ) where
  get_loop-find :
      (keys : Ptr → Key) (k : Key) (fuel : ℕ) (t : Tree) (up : Ctx) (h : Heap)
      → size t < fuel
      → Focus h up t
      → get_loop strcmp keys k fuel (ptr t) h ≡ some (pointer (find strcmp keys k t), h)
  unfolding get_loop
  get_loop-find keys k zero t up h lt f = absurd (omega arith)
  get_loop-find keys k (suc fuel) leaf up h lt f = refl
  get_loop-find keys k (suc fuel) (node c l a r) up h lt f =
      let nn : (a == null) ≡ false = ground (arith, f.inside.0.ne_null) in
      let loaded = load-ok h a _ f.inside.0 f.inside.1 in
      let held = Focus-Holds up c l a r f in
      elim (Bool-cases (ltb_ℤ (pos 0) (strcmp k (keys a)))) [
        | inl above ↦
            rw (nn, loaded, sub-zero a, above, child-ok Side.left held)
              (get_loop-find keys k fuel l (frame Side.left c a r up) h (omega arith)
                (Focus-down Side.left f))
        | inr low ↦ elim (Bool-cases (ltb_ℤ (strcmp k (keys a)) (pos 0))) [
          | inl below ↦
              rw (nn, loaded, sub-zero a, low, below, child-other-ok Side.left held)
                (get_loop-find keys k fuel r (frame Side.right c a l up) h (omega arith)
                  (Focus-down Side.right f))
          | inr same ↦ rw (nn, loaded, sub-zero a, low, same) refl
        ]
      ]

  find-ne_null :
      (keys : Ptr → Key) (k : Key) (t : Tree) (h : Nodes) (up a : Ptr)
      → Rep h up t
      → find strcmp keys k t ≡ some a
      → a ≢ null
  find-ne_null keys k leaf h up a rep e = absurd (ground arith)
  find-ne_null keys k (node c l b r) h up a (is, at, x, y) e =
      elim (Bool-cases (ltb_ℤ (pos 0) (strcmp k (keys b)))) [
        | inl above ↦ find-ne_null keys k l h b a x (rw above at e)
        | inr low ↦ elim (Bool-cases (ltb_ℤ (strcmp k (keys b)) (pos 0))) [
          | inl below ↦ find-ne_null keys k r h b a y (rw (low, below) at e)
          | inr same ↦ let e' = rw (low, same) at e in ground (arith, is.ne_null)
        ]
      ]

  -- For a table that represents a sorted list: `table_get` ends, and returns NULL for a key that is
  -- not in the list, and otherwise an entry with the value that the list has for the key.
  pub table_get-lookup :
      IsOrder strcmp
      → (t : Table) (l : List (Key × ℕ)) (used : List ℕ) (k : Key) → Represents strcmp t l used
      → (p : Ptr) × (table_get strcmp t k ≡ some p)
        × ((if p == null then none else some (t.values p)) ≡ lookup strcmp k l)
  unfolding table_get
  table_get-lookup order t l used k rep =
      let searched =
        ap (λ p. get_loop strcmp t.keys k (suc t.added) p t.heap) rep.focus.around
        ∙ get_loop-find t.keys k (suc t.added) rep.tree top t.heap (omega (arith, rep.small))
            rep.focus in
      let known =
        lookup-find strcmp order t.keys t.values k rep.tree
          (subst (IsSorted strcmp) (sym rep.listed) rep.sorted) in
      let listed = ap (lookup strcmp k) (sym rep.listed) ∙ known in
      elim (Option-cases (find strcmp t.keys k rep.tree)) [
        | inl missing ↦ (null, rw (searched, missing) refl, sym (rw missing at listed))
        | inr (a, found) ↦
            let nn : (a == null) ≡ false =
              ground (
                arith,
                find-ne_null t.keys k rep.tree t.heap.nodes null a rep.focus.inside found,
              ) in
            (a, rw (searched, found) refl, rw nn (sym (rw found at listed)))
      ]
