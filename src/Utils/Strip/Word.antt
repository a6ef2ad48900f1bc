-- ===== src/Utils/Strip/Word.antt =====
-- `strip` against its specification: the first word of the text.
use fping.Base.{
  ℕ, suc, ◌≡◌, ◌≢◌, refl, Bool, if◌then◌else◌, some, List, [], ◌∷◌, ◌++◌, take, drop, length, All,
  Bool-cases, inl, inr, arith, ap, ◌∙◌, ◌≤◌, length-append, length-take_le, length-drop, drop-take,
}
use fping.Utils.Strip.{string, skip, cut, strip}

module _ (isspace : ℕ → Bool) where
  unfoldable pub drop_spaces : List ℕ → List ℕ
  drop_spaces [] = []
  drop_spaces (c ∷ text) = if isspace c then drop_spaces text else c ∷ text

  unfoldable pub take_word : List ℕ → List ℕ
  take_word [] = []
  take_word (c ∷ text) = if isspace c then [] else c ∷ take_word text

  -- the first word of a text: what stands between its leading white space and the next
  unfoldable pub word : List ℕ → List ℕ
  unfolding drop_spaces take_word
  word text = take_word (drop_spaces text)

  cut-take_word :
      (text rest : List ℕ)
      → All (λ c. c ≢ 0) text
      → (q : List ℕ) × (cut isspace (text ++ 0 ∷ rest) ≡ some q)
        × (string q ≡ take_word text)
        × (length q ≡ length (text ++ 0 ∷ rest))
  unfolding cut string take_word
  cut-take_word [] rest h = (0 ∷ rest, refl, refl, refl)
  cut-take_word (c ∷ text) rest h =
      let (q, run, same, len) = cut-take_word text rest h.1 in
      let c≢0 = h.0 in
      elim (Bool-cases (isspace c)) [
        | inl s ↦ (0 ∷ text ++ 0 ∷ rest, ground arith, ground arith, ground arith)
        | inr s ↦ (c ∷ q, ground arith, ground arith, ground arith)
      ]

  skip-drop_spaces :
      (text rest : List ℕ)
      → All (λ c. c ≢ 0) text
      → (n : ℕ) × (skip isspace (text ++ 0 ∷ rest) ≡ some n)
        × (drop n (text ++ 0 ∷ rest) ≡ drop_spaces text ++ 0 ∷ rest)
        × (n ≤ length (text ++ 0 ∷ rest))
        × All (λ c. c ≢ 0) (drop_spaces text)
  unfolding skip drop_spaces
  skip-drop_spaces [] rest h = (0, refl, refl, omega arith, tt)
  skip-drop_spaces (c ∷ text) rest h =
      let (n, run, same, le, ok) = skip-drop_spaces text rest h.1 in
      let c≢0 = h.0 in
      elim (Bool-cases (isspace c)) [
        | inl s ↦ (suc n, ground arith, same ∙ rw s, omega arith, rw s ok)
        | inr s ↦ (0, ground arith, rw s, omega arith, rw s h)
      ]

  -- For a C string in a buffer, whatever `isspace` is: `strip` stays inside the buffer, keeps its size,
  -- and leaves at the offset that it returns the C string of the text's first word.
  pub strip-word :
      (text rest : List ℕ)
      → All (λ c. c ≢ 0) text
      → (s : ℕ) × (buf : List ℕ) × (strip isspace (text ++ 0 ∷ rest) ≡ some (s, buf))
        × (string (drop s buf) ≡ word text)
        × (length buf ≡ length (text ++ 0 ∷ rest))
  unfolding strip word
  strip-word text rest h =
      let buf = text ++ 0 ∷ rest in
      let (n, run, same, le, ok) = skip-drop_spaces text rest h in
      let (q, run', same', len) = cut-take_word (drop_spaces text) rest ok in
      (
        n,
        take n buf ++ q,
        rw (run, same, run'),
        ap string (drop-take n buf q le) ∙ same',
        omega (
          arith,
          length-append (take n buf) q,
          length-take_le n buf le,
          length-drop n buf,
          ap length same,
        ),
      )
