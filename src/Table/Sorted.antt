-- ===== src/Table/Sorted.antt =====
-- Lists in the order of the table, and where a key is or goes in them.
use fping.Base.{
  ℕ, ◌≡◌, refl, true, false, none, some, List, [], ◌∷◌, ◌++◌, All, All-imp, arith, ℤ, pos, ltb_ℤ,
  nonzero, Bool-cases, inl, inr, ◌∙◌, ap,
}
use fping.Result.{Key}
use fping.Table.{Above, IsOrder, lookup, insert}

module _ (strcmp : Key → Key → ℤ) where
  abbrev pub IsSorted : List (Key × ℕ) → Type 0
  IsSorted [] = Unit {0}
  IsSorted ((j, w) ∷ l) = All (λ e. Above strcmp j e.0) l × IsSorted l

  -- a sorted list around one of its pairs
  pub record Around (j : Key) (xs ys : List (Key × ℕ)) : Type 0 where
    pub before : All (λ e. Above strcmp e.0 j) xs
    pub behind : All (λ e. Above strcmp j e.0) ys
    pub front : IsSorted xs
    pub back : IsSorted ys

  All-append_left {κ} :
      (P : Key × ℕ → Type κ) (xs ys : List (Key × ℕ)) → All P (xs ++ ys) → All P xs × All P ys
  All-append_left P [] ys h = (tt, h)
  All-append_left P (x ∷ xs) ys h = let (hx, hy) = All-append_left P xs ys h.1 in ((h.0, hx), hy)

  pub IsSorted-Around :
      (xs : List (Key × ℕ)) (j : Key) (w : ℕ) (ys : List (Key × ℕ))
      → IsSorted (xs ++ ((j, w) ∷ ys))
      → Around j xs ys
  IsSorted-Around [] j w ys h = record { before = tt; behind = h.0; front = tt; back = h.1 }
  IsSorted-Around ((i, v) ∷ xs) j w ys h =
      let r = IsSorted-Around xs j w ys h.1 in
      let (left, right) = All-append_left (λ e. Above strcmp i e.0) xs ((j, w) ∷ ys) h.0 in
      record {
        before = (right.0, r.before);
        behind = r.behind;
        front = (left, r.front);
        back = r.back;
      }

module _ (strcmp : Key → Key → ℤ) (order : IsOrder strcmp) where
  -- the three outcomes of a comparison
  not_above : (j k : Key) → Above strcmp j k → ltb_ℤ (pos 0) (strcmp k j) ≡ false
  not_above j k h = ground (arith, order.swap k j)

  pub ne_of_above : (j k : Key) → Above strcmp j k → nonzero (strcmp j k) ≡ true
  ne_of_above j k h = ground (arith, h)

  pub ne_of_below : (j k : Key) → Above strcmp j k → nonzero (strcmp k j) ≡ true
  ne_of_below j k h = ground (arith, h, order.swap k j)

  pub insert_before :
      (k : Key) (v : ℕ) (xs : List (Key × ℕ)) (j : Key) (w : ℕ) (ys : List (Key × ℕ))
      → Above strcmp k j
      → insert strcmp k v (xs ++ ((j, w) ∷ ys)) ≡ insert strcmp k v xs ++ ((j, w) ∷ ys)
  unfolding insert
  insert_before k v [] j w ys h = rw h
  insert_before k v ((i, u) ∷ xs) j w ys h = elim (Bool-cases (ltb_ℤ (pos 0) (strcmp k i))) [
    | inl above ↦ rw above
    | inr below ↦ rw below (ap (λ l. (i, u) ∷ l) (insert_before k v xs j w ys h))
  ]

  pub insert_behind :
      (k : Key) (v : ℕ) (xs : List (Key × ℕ)) (j : Key) (w : ℕ) (ys : List (Key × ℕ))
      → All (λ e. Above strcmp e.0 j) xs
      → Above strcmp j k
      → insert strcmp k v (xs ++ ((j, w) ∷ ys)) ≡ xs ++ ((j, w) ∷ insert strcmp k v ys)
  unfolding insert
  insert_behind k v [] j w ys h jk = rw (not_above j k jk)
  insert_behind k v ((i, u) ∷ xs) j w ys h jk =
      rw (not_above i k (order.trans i j k h.0 jk))
        (ap (λ l. (i, u) ∷ l) (insert_behind k v xs j w ys h.1 jk))

  -- a key is not among keys that are all before it, or all behind it
  pub lookup-none_below :
      (k : Key) (l : List (Key × ℕ)) → All (λ e. Above strcmp k e.0) l → lookup strcmp k l ≡ none
  unfolding lookup
  lookup-none_below k [] h = refl
  lookup-none_below k ((i, u) ∷ l) h = rw (ne_of_above k i h.0) (lookup-none_below k l h.1)

  lookup_skip :
      (k : Key) (xs ys : List (Key × ℕ))
      → All (λ e. Above strcmp e.0 k) xs
      → lookup strcmp k (xs ++ ys) ≡ lookup strcmp k ys
  unfolding lookup
  lookup_skip k [] ys h = refl
  lookup_skip k ((i, u) ∷ xs) ys h = rw (ne_of_below i k h.0) (lookup_skip k xs ys h.1)

  pub lookup_before :
      (k : Key) (xs : List (Key × ℕ)) (j : Key) (w : ℕ) (ys : List (Key × ℕ))
      → All (λ e. Above strcmp j e.0) ys
      → Above strcmp k j
      → lookup strcmp k (xs ++ ((j, w) ∷ ys)) ≡ lookup strcmp k xs
  unfolding lookup
  lookup_before k [] j w ys h kj =
      rw (ne_of_above k j kj)
        (lookup-none_below k ys (All-imp (λ e above. order.trans k j e.0 kj above) ys h))
  lookup_before k ((i, u) ∷ xs) j w ys h kj = elim (Bool-cases (nonzero (strcmp k i))) [
    | inl ne ↦ rw ne (lookup_before k xs j w ys h kj)
    | inr eq ↦ rw eq
  ]

  pub lookup_behind :
      (k : Key) (xs : List (Key × ℕ)) (j : Key) (w : ℕ) (ys : List (Key × ℕ))
      → All (λ e. Above strcmp e.0 j) xs
      → Above strcmp j k
      → lookup strcmp k (xs ++ ((j, w) ∷ ys)) ≡ lookup strcmp k ys
  unfolding lookup
  lookup_behind k xs j w ys h jk =
      lookup_skip k xs ((j, w) ∷ ys) (All-imp (λ e above. order.trans e.0 j k above jk) xs h)
      ∙ rw (ne_of_below j k jk)

  pub lookup_here :
      (k : Key) (xs : List (Key × ℕ)) (j : Key) (w : ℕ) (ys : List (Key × ℕ))
      → All (λ e. Above strcmp e.0 j) xs
      → nonzero (strcmp k j) ≡ false
      → lookup strcmp k (xs ++ ((j, w) ∷ ys)) ≡ some w
  unfolding lookup
  lookup_here k xs j w ys h same =
      let e : k ≡ j = (order.equal k j).0 same in
      lookup_skip k xs ((j, w) ∷ ys) (All-imp (λ x above. rw e above) xs h) ∙ rw same

  All-insert_above :
      (j k : Key) (v : ℕ) (l : List (Key × ℕ))
      → Above strcmp j k
      → All (λ e. Above strcmp j e.0) l
      → All (λ e. Above strcmp j e.0) (insert strcmp k v l)
  unfolding insert
  All-insert_above j k v [] h a = (h, tt)
  All-insert_above j k v ((i, u) ∷ l) h a = elim (Bool-cases (ltb_ℤ (pos 0) (strcmp k i))) [
    | inl above ↦ rw above (h, a)
    | inr below ↦ rw below (a.0, All-insert_above j k v l h a.1)
  ]

  pub insert-IsSorted :
      (k : Key) (v : ℕ) (l : List (Key × ℕ))
      → IsSorted strcmp l
      → lookup strcmp k l ≡ none
      → IsSorted strcmp (insert strcmp k v l)
  unfolding insert lookup
  insert-IsSorted k v [] s new = (tt, tt)
  insert-IsSorted k v ((i, u) ∷ l) s new = elim (Bool-cases (ltb_ℤ (pos 0) (strcmp k i))) [
    | inl above ↦ rw above ((above, All-imp (λ e h. order.trans k i e.0 above h) l s.0), s)
    | inr below ↦ elim (Bool-cases (nonzero (strcmp k i))) [
      | inl ne ↦
          let ik : Above strcmp i k = ground (arith, order.swap k i) in
          rw below (All-insert_above i k v l ik s.0, insert-IsSorted k v l s.1 (rw ne at new))
      | inr eq ↦ let new' = rw eq at new in absurd (ground arith)
    ]
  ]
