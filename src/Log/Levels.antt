-- ===== src/Log/Levels.antt =====
-- Which messages the log prints for a value of the environment variable.
use fping.Base.{
  ℕ, suc, ◌+◌, ◌≡◌, ◌↔◌, ◌<◌, refl, true, false, if◌then◌else◌, is_some, Option, none, some, List,
  [], ◌∷◌, get_elem?, ℤ, pos, leb, nonzero, arith, length, Bool-cases, inl, inr, zero, ap, ◌∙◌,
}
use fping.Result.{Key}
use fping.Log.{levels, ll_max, log_name, is_empty, sindex_from, sindex, level_of, log_init, log_any}

-- The value `v` names the item `i` of the array, and no other, as `strcasecmp` of strings.h compares.
abbrev pub Names : (Key → Key → ℤ) → List Key → Key → ℕ → Type 0
Names strcasecmp array v i =
    (j : ℕ) (a : Key) → get_elem? array j ≡ some a → (nonzero (strcasecmp a v) ≡ false) ↔ (j ≡ i)

-- the environment variable that is read
abbrev pub variable : Option Key → Key
variable none = log_name
variable (some n) = if is_empty n then log_name else n

log_any-leb : (i l : ℕ) → is_some (log_any (pos i) (pos l)) ≡ leb l i
unfolding log_any
log_any-leb i l = ground arith

module _ (strcasecmp : Key → Key → ℤ) where
  sindex_from-Names :
      (k : ℕ) (array : List Key) (v : Key) (i : ℕ)
      → i < length array
      → Names strcasecmp array v i
      → sindex_from strcasecmp k array v ≡ pos (k + i)
  unfolding sindex_from
  sindex_from-Names k [] v i h names = elim h [ ]
  sindex_from-Names k (a ∷ array) v zero h names =
      rw ((names 0 a refl).1 refl) (ap pos (omega arith))
  sindex_from-Names k (a ∷ array) v (suc i) h names =
      let other : nonzero (strcasecmp a v) ≡ true = elim (Bool-cases (nonzero (strcasecmp a v))) [
        | inl differ ↦ differ
        | inr same ↦ absurd (omega (arith, (names 0 a refl).0 same))
      ] in
      rw other (
        sindex_from-Names (suc k) array v i (omega arith) (λ j b at. (
          (λ same. omega (arith, (names (suc j) b at).0 same)),
          (λ e. (names (suc j) b at).1 (ap suc e)),
        ))
        ∙ ap pos (omega arith))

  log_init-level_of :
      (getenv : Key → Option Key) (atoi : Key → ℤ) (name : Option Key) (level : ℤ) (v : Key)
      → getenv (variable name) ≡ some v
      → log_init strcasecmp getenv atoi name level ≡ level_of strcasecmp atoi (some v) level
  unfolding log_init
  log_init-level_of getenv atoi none level v found = rw found
  log_init-level_of getenv atoi (some n) level v found = rw found

  level_of-Names :
      (atoi : Key → ℤ) (level : ℤ) (v : Key) (i : ℕ)
      → is_empty v ≡ false
      → i < ll_max
      → Names strcasecmp levels v i
      → level_of strcasecmp atoi (some v) level ≡ pos i
  unfolding level_of
  level_of-Names atoi level v i given h names =
      let e : sindex strcasecmp levels v ≡ pos i =
        sindex_from-Names 0 levels v i h names ∙ ap pos (omega arith) in
      rw (given, e) (ground arith)

  -- Where the environment variable, `DEBUG_LEVEL` unless another name is given, holds a value that
  -- names one of the six levels: `log_init` sets that level, whatever the level was, and `log_any`
  -- then prints a message of a level exactly if that is not above it.
  pub log_init-Names :
      (getenv : Key → Option Key) (atoi : Key → ℤ) (name : Option Key) (level : ℤ) (v : Key) (i : ℕ)
      → getenv (variable name) ≡ some v
      → is_empty v ≡ false
      → i < ll_max
      → Names strcasecmp levels v i
      → (log_init strcasecmp getenv atoi name level ≡ pos i)
        × ((l : ℕ)
            → is_some (log_any (log_init strcasecmp getenv atoi name level) (pos l)) ≡ leb l i)
  log_init-Names getenv atoi name level v i found given h names =
      let e : log_init strcasecmp getenv atoi name level ≡ pos i =
        log_init-level_of getenv atoi name level v found
        ∙ level_of-Names atoi level v i given h names in
      (e, λ l. rw e (log_any-leb i l))
