-- ===== src/Table.antt =====
-- The contract of table.c, by which the rest of the program uses the table: a sorted association list
-- from keys to addresses of `struct ping_results`.
pub mod Lock
pub mod Delete
pub mod Each
pub mod Get
pub mod Meets
pub mod Place
pub mod Search
pub mod Sorted
pub mod Tree
use fping.Base.{
  ℕ, ◌≡◌, ◌≢◌, ◌%◌, Bool, true, false, if◌then◌else◌, Option, none, some, List, [], ◌∷◌, ℤ, pos,
  ltb_ℤ, nonzero,
}
use mathlib.Core.List.{Mem}
use fping.Result.{Key}

-- `strcmp` of the C library, a parameter; it is 0 exactly for equal strings.
abbrev pub IsStrcmp : (Key → Key → ℤ) → Type 0
IsStrcmp strcmp =
    (j k : Key) → (nonzero (strcmp j k) ≡ false → j ≡ k) × (j ≡ k → nonzero (strcmp j k) ≡ false)

module _ (strcmp : Key → Key → ℤ) where
  -- the value of a key
  unfoldable pub lookup : Key → List (Key × ℕ) → Option ℕ
  lookup k [] = none
  lookup k ((j, v) ∷ l) = if nonzero (strcmp k j) then lookup k l else some v

  -- a new key in its place: the iteration of the table runs from the greatest key to the least
  unfoldable pub insert : Key → ℕ → List (Key × ℕ) → List (Key × ℕ)
  insert k v [] = (k, v) ∷ []
  insert k v ((j, w) ∷ l) =
      if ltb_ℤ (pos 0) (strcmp k j) then (k, v) ∷ (j, w) ∷ l else (j, w) ∷ insert k v l

-- `strcmp` orders the strings: `j` comes before `k` in the table.
abbrev pub Above : (Key → Key → ℤ) → Key → Key → Type 0
Above strcmp j k = ltb_ℤ (pos 0) (strcmp j k) ≡ true

-- what the C library documents: a total order, told by the sign of the result
pub record IsOrder (strcmp : Key → Key → ℤ) : Type 0 where
  pub equal : IsStrcmp strcmp
  pub swap : (j k : Key) → ltb_ℤ (strcmp j k) (pos 0) ≡ ltb_ℤ (pos 0) (strcmp k j)
  pub trans : (i j k : Key) → Above strcmp i j → Above strcmp j k → Above strcmp i k

-- `table_init`, and `table_add` for an entry at the given address with its `k` and `v`
pub record TableOps (T : Type 0) : Type 0 where
  pub init : T
  pub add : T → ℕ → Key → ℕ → Option (T × Bool)

-- `Represents t l used`: the table `t` holds the pairs `l`, in entries at the addresses `used`.
pub record IsTable {T : Type 0} (ops : TableOps T) (strcmp : Key → Key → ℤ)
    (Represents : T → List (Key × ℕ) → List ℕ → Type 0) : Type 0 where
  pub init_empty : Represents ops.init [] []
  pub add_new :
      (t : T) (l : List (Key × ℕ)) (used : List ℕ) (te : ℕ) (k : Key) (v : ℕ)
      → Represents t l used
      → te ≢ 0
      → te % 4 ≡ 0
      → ¬ Mem te used
      → lookup strcmp k l ≡ none
      → (t' : T) × (ops.add t te k v ≡ some (t', true))
        × Represents t' (insert strcmp k v l) (te ∷ used)
  pub add_known :
      (t : T) (l : List (Key × ℕ)) (used : List ℕ) (te : ℕ) (k : Key) (v w : ℕ)
      → Represents t l used
      → ¬ Mem te used
      → lookup strcmp k l ≡ some w
      → (t' : T) × (ops.add t te k v ≡ some (t', false)) × Represents t' l used
