-- ===== src/Base/Lists.antt =====
-- Lists measured and indexed by native numbers, under the library's names.
use Prim.Native.Nat.{ℕ, zero, suc, ◌+◌, ◌-◌, ◌<◌, ◌≤◌}
use mathlib.Core.Path.{◌∙◌, sym, ◌≡◌, refl, subst, ap}
use mathlib.Core.Logic.{◌≢◌, inl, inr}
use mathlib.Core.List.{List, [], ◌∷◌, ◌++◌, map}
use mathlib.Core.Option.{Option, none, some}
use native.Mathlib.Omega.{arith}
use fping.Base.Tests.{Option-cases}

module _ {ℓ} {A : Type ℓ} where
  abbrev pub length : List A → ℕ
  length [] = 0
  length (x ∷ xs) = suc (length xs)

  abbrev pub get_elem? : List A → ℕ → Option A
  get_elem? [] i = none
  get_elem? (x ∷ xs) zero = some x
  get_elem? (x ∷ xs) (suc i) = get_elem? xs i

  abbrev pub take : ℕ → List A → List A
  take zero xs = []
  take (suc n) [] = []
  take (suc n) (x ∷ xs) = x ∷ take n xs

  abbrev pub drop : ℕ → List A → List A
  drop zero xs = xs
  drop (suc n) [] = []
  drop (suc n) (x ∷ xs) = drop n xs

  abbrev pub replicate : ℕ → A → List A
  replicate zero a = []
  replicate (suc n) a = a ∷ replicate n a

  -- Every item satisfies `P`.
  abbrev pub All {κ} : (A → Type κ) → List A → Type κ
  All P [] = Unit
  All P (x ∷ xs) = P x × All P xs

module _ {ℓ} {A : Type ℓ} where
  pub length-append : (xs ys : List A) → length (xs ++ ys) ≡ length xs + length ys
  length-append [] ys = omega arith
  length-append (x ∷ xs) ys = omega (arith, length-append xs ys)

  pub length-drop : (n : ℕ) (xs : List A) → length (drop n xs) ≡ length xs - n
  length-drop zero xs = omega arith
  length-drop (suc n) [] = omega arith
  length-drop (suc n) (x ∷ xs) = omega (arith, length-drop n xs)

  pub get_elem?-some : (xs : List A) (i : ℕ) → i < length xs → (x : A) × (get_elem? xs i ≡ some x)
  get_elem?-some [] i h = elim h [ ]
  get_elem?-some (x ∷ xs) zero h = (x, refl)
  get_elem?-some (x ∷ xs) (suc i) h = get_elem?-some xs i (omega arith)

  pub get_elem?-append_left :
      (xs ys : List A) (i : ℕ) → i < length xs → get_elem? (xs ++ ys) i ≡ get_elem? xs i
  get_elem?-append_left [] ys i h = elim h [ ]
  get_elem?-append_left (x ∷ xs) ys zero h = refl
  get_elem?-append_left (x ∷ xs) ys (suc i) h = get_elem?-append_left xs ys i (omega arith)

  pub All-append {κ} :
      (P : A → Type κ) (front back : List A) → All P front → All P back → All P (front ++ back)
  All-append P [] back _ rest = rest
  All-append P (x ∷ front) back first rest = (first.0, All-append P front back first.1 rest)

  pub get_elem?-append_right :
      (xs ys : List A) (n i : ℕ) → n ≡ length xs + i → get_elem? (xs ++ ys) n ≡ get_elem? ys i
  get_elem?-append_right [] ys n i e = let e' : n ≡ i = omega arith in rw e' refl
  get_elem?-append_right (x ∷ xs) ys zero i e = absurd (omega arith)
  get_elem?-append_right (x ∷ xs) ys (suc n) i e = get_elem?-append_right xs ys n i (omega arith)

  pub All-get_elem? {κ} :
      (P : A → Type κ) (xs : List A) (i : ℕ) {x : A} → All P xs → get_elem? xs i ≡ some x → P x
  All-get_elem? P [] i h e = cc
  All-get_elem? P (x ∷ xs) zero h e = subst P (cc) h.0
  All-get_elem? P (x ∷ xs) (suc i) h e = All-get_elem? P xs i h.1 e

  pub All-drop {κ} : (P : A → Type κ) (n : ℕ) (xs : List A) → All P xs → All P (drop n xs)
  All-drop P zero xs h = h
  All-drop P (suc n) [] h = tt
  All-drop P (suc n) (x ∷ xs) h = All-drop P n xs h.1

  drop-nil : (n : ℕ) → drop {A = A} n [] ≡ []
  drop-nil zero = refl
  drop-nil (suc n) = refl

  pub drop_add : (i n : ℕ) (xs : List A) → drop (i + n) xs ≡ drop n (drop i xs)
  drop_add zero n xs = ap (λ k. drop k xs) {y = n} (omega arith)
  drop_add (suc i) n [] = ap (λ k. drop k []) {y = suc (i + n)} (omega arith) ∙ sym (drop-nil n)
  drop_add (suc i) n (x ∷ xs) =
      ap (λ k. drop k (x ∷ xs)) {y = suc (i + n)} (omega arith) ∙ drop_add i n xs

  pub drop-length : (xs ys : List A) → drop (length xs) (xs ++ ys) ≡ ys
  drop-length [] ys = refl
  drop-length (x ∷ xs) ys = drop-length xs ys

  pub take-append-drop : (n : ℕ) (xs : List A) → take n xs ++ drop n xs ≡ xs
  take-append-drop zero xs = refl
  take-append-drop (suc n) [] = refl
  take-append-drop (suc n) (x ∷ xs) = ap (λ l. x ∷ l) (take-append-drop n xs)

  pub All-take {κ} : (P : A → Type κ) (n : ℕ) (xs : List A) → All P xs → All P (take n xs)
  All-take P zero xs h = tt
  All-take P (suc n) [] h = tt
  All-take P (suc n) (x ∷ xs) h = (h.0, All-take P n xs h.1)

  pub length-replicate : (n : ℕ) (a : A) → length (replicate n a) ≡ n
  length-replicate zero a = refl
  length-replicate (suc n) a = omega (arith, length-replicate n a)

  pub length-take_le : (n : ℕ) (xs : List A) → n ≤ length xs → length (take n xs) ≡ n
  length-take_le zero xs h = refl
  length-take_le (suc n) [] h = absurd (omega arith)
  length-take_le (suc n) (x ∷ xs) h = omega (arith, length-take_le n xs (omega arith))

  pub drop-take : (n : ℕ) (xs ys : List A) → n ≤ length xs → drop n (take n xs ++ ys) ≡ ys
  drop-take zero xs ys h = refl
  drop-take (suc n) [] ys h = absurd (omega arith)
  drop-take (suc n) (x ∷ xs) ys h = drop-take n xs ys (omega arith)

  -- One step of a loop by index is one step down the list.
  pub get_elem?-drop :
      (xs : List A) (i : ℕ) (y : A) (ys : List A)
      → drop i xs ≡ y ∷ ys
      → (get_elem? xs i ≡ some y) × (drop (suc i) xs ≡ ys)
  get_elem?-drop [] zero y ys e = cc
  get_elem?-drop [] (suc i) y ys e = cc
  get_elem?-drop (x ∷ xs) zero y ys e = (cc, cc)
  get_elem?-drop (x ∷ xs) (suc i) y ys e = get_elem?-drop xs i y ys e

  pub length-map {κ} : {B : Type κ} (f : A → B) (xs : List A) → length (map f xs) ≡ length xs
  length-map f [] = refl
  length-map f (x ∷ xs) = omega (arith, length-map f xs)

module _ {ℓ} {A : Type ℓ} (f : A → A) where
  -- `xs[i] = f(xs[i])`, which is none behind the end of the array.
  abbrev pub modify? : List A → ℕ → Option (List A)
  modify? [] i = none
  modify? (x ∷ xs) zero = some (f x ∷ xs)
  modify? (x ∷ xs) (suc i) = elim (modify? xs i) [ none ↦ none | some ys ↦ some (x ∷ ys) ]

  -- What such a write does to the array `xs`, with the array `ys` for its outcome.
  pub record Modified (xs : List A) (i : ℕ) (ys : List A) : Type ℓ where
    pub runs : modify? xs i ≡ some ys
    pub size : length ys ≡ length xs
    pub at : (x : A) → get_elem? xs i ≡ some x → get_elem? ys i ≡ some (f x)
    pub elsewhere : (j : ℕ) → j ≢ i → get_elem? ys j ≡ get_elem? xs j

  pub modify?-Modified : (xs : List A) (i : ℕ) → i < length xs → (ys : List A) × Modified xs i ys
  modify?-Modified [] i h = elim h [ ]
  modify?-Modified (x ∷ xs) zero h = (
    f x ∷ xs,
    record {
      runs = refl;
      size = refl;
      at = λ y e. cc;
      elsewhere = elim [ zero ↦ λ n. absurd (n refl) | suc j ↦ λ n. refl ];
    },
  )
  modify?-Modified (x ∷ xs) (suc i) h =
      let (ys, m) = modify?-Modified xs i (omega arith) in
      (
        x ∷ ys,
        record {
          runs = rw m.runs;
          size = ap suc m.size;
          at = m.at;
          elsewhere = elim [ zero ↦ λ n. refl | suc j ↦ λ n. m.elsewhere j (λ e. n (ap suc e)) ];
        },
      )

  pub modify?-none : (xs : List A) (i : ℕ) → length xs ≤ i → modify? xs i ≡ none
  modify?-none [] i h = refl
  modify?-none (x ∷ xs) zero h = absurd (omega arith)
  modify?-none (x ∷ xs) (suc i) h = rw (modify?-none xs i (omega arith))

  -- A write keeps what it does not change in an item.
  pub map-modify? {κ} :
      {B : Type κ} (g : A → B)
      → ((x : A) → g (f x) ≡ g x)
      → (xs : List A) (i : ℕ) (ys : List A) → modify? xs i ≡ some ys
      → map g ys ≡ map g xs
  map-modify? g keep [] i ys e = cc
  map-modify? g keep (x ∷ xs) zero ys e = let same : ys ≡ f x ∷ xs = cc in rw (same, keep x)
  map-modify? g keep (x ∷ xs) (suc i) ys e = elim (Option-cases (modify? xs i)) [
    | inl miss ↦ absurd (ground arith)
    | inr (zs, found) ↦
        let same : ys ≡ x ∷ zs = ground arith in rw (same, map-modify? g keep xs i zs found)
  ]

pub All-imp {ℓ κ μ} :
    {A : Type ℓ} {P : A → Type κ} {Q : A → Type μ}
    → ((x : A) → P x → Q x)
    → (xs : List A) → All P xs
    → All Q xs
All-imp f [] h = tt
All-imp f (x ∷ xs) h = (f x h.0, All-imp f xs h.1)
