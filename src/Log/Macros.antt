-- ===== src/Log/Macros.antt =====
-- The macros of log.h at every level of the log.
use fping.Base.{
  ℕ, zero, suc, ◌≡◌, ◌≤◌, refl, Option, none, some, List, [], ◌∷◌, take, ℤ, pos, arith,
}
use fping.Result.{Key}
use fping.Log.{
  levels, tag, log_any, log_set_level, log_get_level, log_fatal, log_error, log_warn, log_info,
  log_debug, log_verbose,
}

-- the tags of what a list of calls prints
abbrev pub printed : List (Option Key) → List Key
printed [] = []
printed (none ∷ rest) = printed rest
printed (some tag ∷ rest) = tag ∷ printed rest

-- all the macros, the gravest first
abbrev pub macros : ℤ → List (Option Key)
macros m_debug =
    log_fatal m_debug
    ∷ log_error m_debug
    ∷ log_warn m_debug
    ∷ log_info m_debug
    ∷ log_debug m_debug
    ∷ log_verbose m_debug
    ∷ []

take_nil : (n : ℕ) → ◌≡◌ {A = List Key} (take n []) []
take_nil zero = refl
take_nil (suc n) = refl

log_any_le : (m k : ℕ) → k ≤ m → log_any (pos m) (pos k) ≡ some (tag (pos k))
unfolding log_any
log_any_le m k h = ground arith

-- After `log_set_level` with a number `n` that is not negative, of all the macros the `n + 1` gravest
-- print, each with the tag of its own level.
pub macros-take :
    (n : ℕ) (m_debug : ℤ)
    → printed (macros (log_get_level (log_set_level (pos n) m_debug))) ≡ take (suc n) levels
unfolding log_any
macros-take zero m_debug = refl
macros-take (suc zero) m_debug = refl
macros-take (suc (suc zero)) m_debug = refl
macros-take (suc (suc (suc zero))) m_debug = refl
macros-take (suc (suc (suc (suc zero)))) m_debug = refl
macros-take (suc (suc (suc (suc (suc n))))) m_debug =
    let m = suc (suc (suc (suc (suc n)))) in
    rw
      (
        log_any_le m 0 (omega arith),
        log_any_le m 1 (omega arith),
        log_any_le m 2 (omega arith),
        log_any_le m 3 (omega arith),
        log_any_le m 4 (omega arith),
        log_any_le m 5 (omega arith),
        take_nil n,
      )
      refl
