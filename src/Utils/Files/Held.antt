-- ===== src/Utils/Files/Held.antt =====
-- What `map_file` and `read_file` hold when they return.
use fping.Base.{
  ℕ, zero, suc, ◌+◌, ◌^◌, ◌<◌, ◌≤◌, ◌≡◌, ◌⊎◌, ◌↔◌, inl, inr, refl, true, not, ◌||◌, ◌==◌,
  Bool-cases, Option-cases, Option, none, some, List, [], ◌∷◌, ◌++◌, length, pos, ltb_ℤ, to_int,
  arith,
}
use fping.Utils.Files.{Action, Calls, Outcome, map_file, read_len, is_size, finish, read_file}

pub record Held : Type 0 where
  pub files : ℕ
  pub mappings : ℕ
  pub blocks : ℕ

abbrev pub nothing : Held
nothing = record { files = 0; mappings = 0; blocks = 0 }

-- what is held behind the actions; `none` if something is given back that is not held
unfoldable pub held : List Action → Held → Option Held
held [] h = some h
held (Action.opens ∷ rest) h = held rest (record h { files = suc h.files })
held (Action.closes ∷ rest) h = elim h.files [
  | zero ↦ none
  | suc n ↦ held rest (record h { files = n })
]
held (Action.maps ∷ rest) h = held rest (record h { mappings = suc h.mappings })
held (Action.allocates ∷ rest) h = held rest (record h { blocks = suc h.blocks })
held (Action.frees ∷ rest) h = elim h.blocks [
  | zero ↦ none
  | suc n ↦ held rest (record h { blocks = n })
]

-- an error: a negative status, nothing stored, nothing held
unfoldable pub IsFailure : Outcome → Type 0
unfolding held
IsFailure o =
    (ltb_ℤ o.status (pos 0) ≡ true) × (o.addr ≡ none) × (held o.actions nothing ≡ some nothing)

unfoldable pub IsMapped : Calls → Outcome → Type 0
unfolding held
IsMapped c o =
    (content : List ℕ) × (c.mmap c.size ≡ some content)
    × (o.addr ≡ some content)
    × (0 < c.size)
    × ((o.status ≡ pos c.size) ↔ (c.size < 2 ^ 31))
    × (held o.actions nothing ≡ some (record { files = 0; mappings = 1; blocks = 0 }))

unfoldable pub IsRead : Calls → Outcome → Type 0
unfolding held
IsRead c o =
    (bytes : List ℕ) × (c.read c.size ≡ some bytes)
    × (length bytes ≡ c.size)
    × (o.addr ≡ some (bytes ++ 0 ∷ []))
    × (0 < c.size)
    × (o.status ≡ pos c.size)
    × (held o.actions nothing ≡ some (record { files = 0; mappings = 0; blocks = 1 }))

to_int-pos : (n : ℕ) → (to_int (pos n) ≡ pos n) ↔ (n < 2 ^ 31)
unfolding to_int
to_int-pos n = (λ e. ground arith, λ h. ground arith)

-- Whatever the system calls do: either `map_file` fails with a negative status, stores nothing and
-- holds nothing; or it stores what `mmap` gave for the size of a file that is not empty, and holds
-- that mapping alone, and then its status is the size exactly if that is below 2^31.
pub map_file-Held : (c : Calls) → IsFailure (map_file c) ⊎ IsMapped c (map_file c)
unfolding map_file IsFailure IsMapped held
map_file-Held c = elim (Bool-cases (ltb_ℤ c.fd (pos 0))) [
  | inl closed ↦ rw closed (inl (refl, refl, refl))
  | inr opened ↦ elim (Bool-cases (not c.stat || (c.size == 0))) [
    | inl empty ↦ rw (opened, empty) (inl (refl, refl, refl))
    | inr full ↦ elim (Option-cases (c.mmap c.size)) [
      | inl refused ↦ rw (opened, full, refused) (inl (refl, refl, refl))
      | inr (content, mapped) ↦
          rw (opened, full, mapped)
            (inr (content, refl, refl, ground arith, to_int-pos c.size, refl))
    ]
  ]
]

is_size-to_int :
    (n size : ℕ)
    → n ≤ size
    → is_size (to_int (pos n)) size ≡ true
    → (n ≡ size) × (to_int (pos n) ≡ pos size)
unfolding to_int
is_size-to_int n size le e = (ground arith, ground arith)

-- Where `read` gives no more than it is asked for: either `read_file` fails with a negative status,
-- stores nothing and holds nothing; or the file is not empty, `read` gave as many bytes as its size,
-- which is the status, and `read_file` stores them with a NUL behind and holds that block alone.
pub read_file-Held :
    (c : Calls)
    → ((n : ℕ) (bytes : List ℕ) → c.read n ≡ some bytes → length bytes ≤ n)
    → IsFailure (read_file c) ⊎ IsRead c (read_file c)
unfolding read_file read_len finish IsFailure IsRead held
read_file-Held c short = elim (Bool-cases (ltb_ℤ c.fd (pos 0))) [
  | inl closed ↦ rw closed (inl (refl, refl, refl))
  | inr opened ↦ elim (Bool-cases (not c.stat || (c.size == 0))) [
    | inl empty ↦ rw (opened, empty) (inl (refl, refl, refl))
    | inr full ↦ elim (Bool-cases (not (c.malloc (c.size + 1)))) [
      | inl refused ↦ rw (opened, full, refused) (inl (refl, refl, refl))
      | inr given ↦ elim (Option-cases (c.read c.size)) [
        | inl failed ↦ rw (opened, full, given, failed) (inl (refl, refl, refl))
        | inr (bytes, got) ↦ elim (Bool-cases (is_size (to_int (pos (length bytes))) c.size)) [
          | inl whole ↦
              let (size, status) =
                is_size-to_int (length bytes) c.size (short c.size bytes got) whole in
              rw (opened, full, given, got, whole)
                (inr (bytes, refl, size, refl, ground arith, status, refl))
          | inr part ↦ rw (opened, full, given, got, part) (inl (refl, refl, refl))
        ]
      ]
    ]
  ]
]
