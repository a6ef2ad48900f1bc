-- ===== src/Table/Search.antt =====
-- The search of table.c on the represented tree: where it ends, and what that says of the sorted list.
use fping.Base.{
  ℕ, suc, ◌+◌, ◌≤◌, ◌≡◌, refl, ◌⊎◌, true, false, if◌then◌else◌, Option, none, some, List, [], ◌∷◌,
  ◌++◌, map, arith, ℤ, pos, ltb_ℤ, nonzero, Bool-cases, inl, inr, ◌∙◌, sym, ap,
}
use mathlib.Core.List.{map-append}
use fping.Result.{Key}
use fping.Rbtree.{Ptr, Side}
use fping.Rbtree.Shape.{size, Color, Tree, leaf, node, Ctx, frame, plug, inorder, at, count}
use fping.Rbtree.Insert.Fix.{depth}
use fping.Table.{IsOrder, Above, lookup, insert}
use fping.Table.Sorted.{
  IsSorted, IsSorted-Around, insert_before, insert_behind, lookup_before, lookup_behind,
  lookup_here,
}

pub data Place : Type 0 where
  hole : Ctx → Place
  present : Ptr → Place

module _ (strcmp : Key → Key → ℤ) (keys : Ptr → Key) (k : Key) where
  abbrev pub place : Tree → Ctx → Place
  place leaf up = hole up
  place (node c l a r) up =
      if ltb_ℤ (pos 0) (strcmp k (keys a))
      then place l (frame Side.left c a r up)
      else if ltb_ℤ (strcmp k (keys a)) (pos 0)
      then place r (frame Side.right c a l up)
      else present a

  -- the new leaf, and the node of a key
  abbrev pub grow : Color → Ptr → Tree → Tree
  grow d te leaf = node d leaf te leaf
  grow d te (node c l a r) =
      if ltb_ℤ (pos 0) (strcmp k (keys a))
      then node c (grow d te l) a r
      else if ltb_ℤ (strcmp k (keys a)) (pos 0)
      then node c l a (grow d te r)
      else node c l a r

  abbrev pub find : Tree → Option Ptr
  find leaf = none
  find (node c l a r) =
      if ltb_ℤ (pos 0) (strcmp k (keys a))
      then find l
      else if ltb_ℤ (strcmp k (keys a)) (pos 0)
      then find r
      else some a

  pub size-grow : (d : Color) (te : Ptr) (t : Tree) → size (grow d te t) ≤ suc (size t)
  size-grow d te leaf = omega arith
  size-grow d te (node c l a r) = elim (Bool-cases (ltb_ℤ (pos 0) (strcmp k (keys a)))) [
    | inl above ↦ rw above (omega (arith, size-grow d te l))
    | inr low ↦ elim (Bool-cases (ltb_ℤ (strcmp k (keys a)) (pos 0))) [
      | inl below ↦ rw (low, below) (omega (arith, size-grow d te r))
      | inr same ↦ rw (low, same) (omega arith)
    ]
  ]

  pub count-grow : (d : Color) (te q : Ptr) (t : Tree) → count q (grow d te t) ≤ at q te + count q t
  count-grow d te q leaf = omega arith
  count-grow d te q (node c l a r) = elim (Bool-cases (ltb_ℤ (pos 0) (strcmp k (keys a)))) [
    | inl above ↦ rw above (omega (arith, count-grow d te q l))
    | inr low ↦ elim (Bool-cases (ltb_ℤ (strcmp k (keys a)) (pos 0))) [
      | inl below ↦ rw (low, below) (omega (arith, count-grow d te q r))
      | inr same ↦ rw (low, same) (omega arith)
    ]
  ]

  pub record Vacant (t : Tree) (up up' : Ctx) : Type 0 where
    pub ends : place t up ≡ hole up'
    pub same : plug up' leaf ≡ plug up t
    pub grown : (d : Color) (te : Ptr) → plug up' (node d leaf te leaf) ≡ plug up (grow d te t)
    pub deep : depth up' ≤ depth up + size t
    pub unknown : find t ≡ none

  pub place-cases :
      (t : Tree) (up : Ctx)
      → ((up' : Ctx) × Vacant t up up') ⊎ ((a : Ptr) × (place t up ≡ present a) × (find t ≡ some a))
  place-cases leaf up = inl (
    up,
    record { ends = refl; same = refl; grown = λ d te. refl; deep = omega arith; unknown = refl },
  )
  place-cases (node c l a r) up = elim (Bool-cases (ltb_ℤ (pos 0) (strcmp k (keys a)))) [
    | inl above ↦ elim (place-cases l (frame Side.left c a r up)) [
      | inl (up', v) ↦ inl (
        up',
        record {
          ends = rw above v.ends;
          same = v.same;
          grown = λ d te. rw above (v.grown d te);
          deep = omega (arith, v.deep);
          unknown = rw above v.unknown;
        },
      )
      | inr (b, e, f) ↦ inr (b, rw above e, rw above f)
    ]
    | inr low ↦ elim (Bool-cases (ltb_ℤ (strcmp k (keys a)) (pos 0))) [
      | inl below ↦ elim (place-cases r (frame Side.right c a l up)) [
        | inl (up', v) ↦ inl (
          up',
          record {
            ends = rw (low, below) v.ends;
            same = v.same;
            grown = λ d te. rw (low, below) (v.grown d te);
            deep = omega (arith, v.deep);
            unknown = rw (low, below) v.unknown;
          },
        )
        | inr (b, e, f) ↦ inr (b, rw (low, below) e, rw (low, below) f)
      ]
      | inr same ↦ inr (a, rw (low, same), rw (low, same))
    ]
  ]

module _ (keys : Ptr → Key) (values : Ptr → ℕ) where
  abbrev pub entry : Ptr → Key × ℕ
  entry a = (keys a, values a)

  -- the pairs of a tree in its order
  abbrev pub entries : Tree → List (Key × ℕ)
  entries t = map entry (inorder t)

  pub entries-node :
      (c : Color) (l : Tree) (a : Ptr) (r : Tree)
      → entries (node c l a r) ≡ entries l ++ ((keys a, values a) ∷ entries r)
  entries-node c l a r = map-append entry (inorder l) (a ∷ inorder r)

module _ (strcmp : Key → Key → ℤ) (order : IsOrder strcmp) (keys : Ptr → Key) (values : Ptr → ℕ)
    (k : Key) where
  abbrev pub value_of : Option Ptr → Option ℕ
  value_of none = none
  value_of (some a) = some (values a)

  equal_of :
      (j : Key)
      → ltb_ℤ (pos 0) (strcmp k j) ≡ false
      → ltb_ℤ (strcmp k j) (pos 0) ≡ false
      → nonzero (strcmp k j) ≡ false
  equal_of j a b = ground arith

  below_of : (j : Key) → ltb_ℤ (strcmp k j) (pos 0) ≡ true → Above strcmp j k
  below_of j b = ground (arith, order.swap k j)

  pub lookup-find :
      (t : Tree)
      → IsSorted strcmp (entries keys values t)
      → lookup strcmp k (entries keys values t) ≡ value_of (find strcmp keys k t)
  unfolding lookup
  lookup-find leaf s = refl
  lookup-find (node c l a r) s =
      let e = entries-node keys values c l a r in
      let around =
        IsSorted-Around strcmp (entries keys values l) (keys a) (values a) (entries keys values r)
          (rw e at s) in
      rw e (elim (Bool-cases (ltb_ℤ (pos 0) (strcmp k (keys a)))) [
        | inl above ↦ rw above (
            lookup_before strcmp order k (entries keys values l) (keys a) (values a)
              (entries keys values r) around.behind above
            ∙ lookup-find l around.front)
        | inr low ↦ elim (Bool-cases (ltb_ℤ (strcmp k (keys a)) (pos 0))) [
          | inl below ↦
              rw (low, below)
                (lookup_behind strcmp order k (entries keys values l) (keys a) (values a)
                    (entries keys values r) around.before (below_of (keys a) below)
                  ∙ lookup-find r around.back)
          | inr same ↦
              rw (low, same)
                (lookup_here strcmp order k (entries keys values l) (keys a) (values a)
                  (entries keys values r) around.before (equal_of (keys a) low same))
        ]
      ])

  pub entries-grow :
      (d : Color) (te : Ptr) (t : Tree)
      → keys te ≡ k
      → find strcmp keys k t ≡ none
      → IsSorted strcmp (entries keys values t)
      → entries keys values (grow strcmp keys k d te t)
        ≡ insert strcmp k (values te) (entries keys values t)
  unfolding insert
  entries-grow d te leaf at new s = ap (λ j. (j, values te) ∷ []) at
  entries-grow d te (node c l a r) at new s =
      let el = entries keys values l in
      let er = entries keys values r in
      let e = entries-node keys values c l a r in
      let around = IsSorted-Around strcmp el (keys a) (values a) er (rw e at s) in
      elim (Bool-cases (ltb_ℤ (pos 0) (strcmp k (keys a)))) [
        | inl above ↦
            rw (above, entries-node keys values c (grow strcmp keys k d te l) a r, e)
              (ap (λ x. x ++ ((keys a, values a) ∷ er))
                  (entries-grow d te l at (rw above at new) around.front)
                ∙ sym (insert_before strcmp order k (values te) el (keys a) (values a) er above))
        | inr low ↦ elim (Bool-cases (ltb_ℤ (strcmp k (keys a)) (pos 0))) [
          | inl below ↦
              let new' = rw (low, below) at new in
              rw (low, below, entries-node keys values c l a (grow strcmp keys k d te r), e)
                (ap (λ x. el ++ ((keys a, values a) ∷ x)) (entries-grow d te r at new' around.back)
                  ∙ sym (
                      insert_behind strcmp order k (values te) el (keys a) (values a) er
                        around.before (below_of (keys a) below)))
          | inr same ↦ let new' = rw (low, same) at new in absurd (ground arith)
        ]
      ]
