-- ===== src/Utils/Files.antt =====
-- `map_file` and `read_file` of utils.c. The system calls and `malloc` are parameters, what they do to
-- descriptors, mappings and memory is listed in order.
pub mod Held
use fping.Base.{
  ℕ, suc, ◌+◌, ◌≡◌, Bool, true, false, not, ◌||◌, ◌==◌, if◌then◌else◌, Option, none, some, List, [],
  ◌∷◌, ◌++◌, length, ℤ, pos, negsuc, ltb_ℤ, to_int,
}

pub data Action : Type 0 where
  opens : Action
  closes : Action
  maps : Action
  allocates : Action
  frees : Action

-- what the calls give for a file: `open`, whether `fstat` succeeds, `st_size`, `mmap` unless it fails,
-- whether `malloc` succeeds, and what `read` copies unless it fails
pub record Calls : Type 0 where
  pub fd : ℤ
  pub stat : Bool
  pub size : ℕ
  pub mmap : ℕ → Option (List ℕ)
  pub malloc : ℕ → Bool
  pub read : ℕ → Option (List ℕ)

-- the result, what is stored in `*addr`, if anything, and the actions
pub record Outcome : Type 0 where
  pub status : ℤ
  pub addr : Option (List ℕ)
  pub actions : List Action

abbrev pub fails : ℕ → List Action → Outcome
fails n actions = record { status = negsuc n; addr = none; actions = actions }

unfoldable pub map_file : Calls → Outcome
map_file c =
    if ltb_ℤ c.fd (pos 0)
    then fails 0 []
    else if not c.stat || (c.size == 0)
    then fails 1 (Action.opens ∷ Action.closes ∷ [])
    else elim (c.mmap c.size) [
      | none ↦ fails 2 (Action.opens ∷ Action.closes ∷ [])
      | some content ↦ record {
        status = to_int (pos c.size);
        addr = some content;
        actions = Action.opens ∷ Action.maps ∷ Action.closes ∷ [];
      }
    ]

-- the `int` that the result of `read` is stored in
unfoldable pub read_len : Option (List ℕ) → ℤ
read_len none = negsuc 0
read_len (some bytes) = to_int (pos (length bytes))

-- `len == st.st_size`
abbrev pub is_size : ℤ → ℕ → Bool
is_size (pos n) size = n == size
is_size (negsuc n) size = false

-- the part of `read_file` behind `read`: `bytes` is what the front of the block holds
unfoldable pub finish : ℕ → ℤ → List ℕ → Outcome
finish size len bytes =
    if is_size len size
    then record {
      status = len;
      addr = some (bytes ++ 0 ∷ []);
      actions = Action.opens ∷ Action.allocates ∷ Action.closes ∷ [];
    }
    else fails 3 (Action.opens ∷ Action.allocates ∷ Action.closes ∷ Action.frees ∷ [])

unfoldable pub read_file : Calls → Outcome
unfolding read_len finish
read_file c =
    if ltb_ℤ c.fd (pos 0)
    then fails 0 []
    else if not c.stat || (c.size == 0)
    then fails 1 (Action.opens ∷ Action.closes ∷ [])
    else if not (c.malloc (c.size + 1))
    then fails 2 (Action.opens ∷ Action.closes ∷ [])
    else finish c.size (read_len (c.read c.size))
        (elim (c.read c.size) [ none ↦ [] | some bytes ↦ bytes ])
