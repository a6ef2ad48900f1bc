-- ===== src/Log.antt =====
-- log.c: the level of the log, and which messages it prints. `getenv`, `strcasecmp` and `atoi` are
-- parameters.
pub mod Levels
pub mod Macros
use fping.Base.{
  ℕ, suc, ◌+◌, ◌≡◌, Bool, true, false, if◌then◌else◌, Option, none, some, List, [], ◌∷◌, get_elem?,
  ℤ, pos, negsuc, ltb_ℤ, nonzero,
}
use fping.Result.{Key}

abbrev pub log_name : Key
log_name = b'D' ∷ b'E' ∷ b'B' ∷ b'U' ∷ b'G' ∷ b'_' ∷ b'L' ∷ b'E' ∷ b'V' ∷ b'E' ∷ b'L' ∷ []

abbrev pub ll_error : ℤ
ll_error = pos 1

-- `m_debug` at the start, and the two functions that read and write it
abbrev pub m_debug_start : ℤ
m_debug_start = ll_error

abbrev pub log_get_level : ℤ → ℤ
log_get_level m_debug = m_debug

abbrev pub log_set_level : ℤ → ℤ → ℤ
log_set_level level m_debug = level

abbrev pub ll_max : ℕ
ll_max = 6

-- `m_levels`, without the NULL at its end
abbrev pub levels : List Key
levels = (b'F' ∷ []) ∷ (b'E' ∷ []) ∷ (b'W' ∷ []) ∷ (b'I' ∷ []) ∷ (b'D' ∷ []) ∷ (b'V' ∷ []) ∷ []

abbrev pub is_empty : Key → Bool
is_empty [] = true
is_empty (c ∷ s) = false

module _ (strcasecmp : Key → Key → ℤ) where
  -- the loop, at the index `i`
  unfoldable pub sindex_from : ℕ → List Key → Key → ℤ
  sindex_from i [] s = negsuc 0
  sindex_from i (a ∷ array) s =
      let next = sindex_from (suc i) array s in if nonzero (strcasecmp a s) then next else pos i

  unfoldable pub sindex : List Key → Key → ℤ
  unfolding sindex_from
  sindex array s = sindex_from 0 array s

  -- the value of the environment variable, and the level that it leaves
  unfoldable pub level_of : (Key → ℤ) → Option Key → ℤ → ℤ
  unfolding sindex
  level_of atoi none level = level
  level_of atoi (some value) level =
      let i = sindex levels value in
      if is_empty value then level else if ltb_ℤ i (pos 0) then atoi value else i

  -- `name` is NULL or a string; `level` is `m_debug` before
  unfoldable pub log_init : (Key → Option Key) → (Key → ℤ) → Option Key → ℤ → ℤ
  unfolding level_of
  log_init getenv atoi none level = level_of atoi (getenv log_name) level
  log_init getenv atoi (some name) level =
      level_of atoi (getenv (if is_empty name then log_name else name)) level

-- `(level >= 0 && level < LL_MAX) ? m_levels[level] : "?"`
abbrev pub tag : ℤ → Key
tag (negsuc n) = b'?' ∷ []
tag (pos n) = elim (get_elem? levels n) [ none ↦ b'?' ∷ [] | some s ↦ s ]

-- The tag of the line that `log_any` prints at a level, if it prints one.
unfoldable pub log_any : ℤ → ℤ → Option Key
log_any m_debug level = if ltb_ℤ m_debug level then none else some (tag level)

-- the macros of log.h
abbrev pub log_verbose : ℤ → Option Key
log_verbose m_debug = log_any m_debug (pos 5)

abbrev pub log_debug : ℤ → Option Key
log_debug m_debug = log_any m_debug (pos 4)

abbrev pub log_info : ℤ → Option Key
log_info m_debug = log_any m_debug (pos 3)

abbrev pub log_warn : ℤ → Option Key
log_warn m_debug = log_any m_debug (pos 2)

abbrev pub log_error : ℤ → Option Key
log_error m_debug = log_any m_debug ll_error

abbrev pub log_fatal : ℤ → Option Key
log_fatal m_debug = log_any m_debug (pos 0)
