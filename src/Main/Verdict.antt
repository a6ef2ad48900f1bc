-- ===== src/Main/Verdict.antt =====
-- What `args_init` makes of its options: the first bad one decides, and otherwise the last of a kind.
use fping.Base.{
  ◌≡◌, refl, false, if◌then◌else◌, Option, none, some, List, [], ◌∷◌, ℤ, pos, negsuc, ltb_ℤ, ◌≤ℤ◌,
  arith, subst, Bool-cases, inl, inr,
}
use fping.Result.{Key, max_count, def_count}
use fping.Main.Options.{
  Opt, Globals, Outcome, returned, exited, parse_options, args_init, def_wait, def_send_delay,
  not_positive, too_many, check_count,
}

-- what is wrong with an option: a code that is returned, or none for the exit with status 0
pub data Bad : Type 0 where
  code : ℤ → Bad
  quits : Bad

abbrev pub or_else : Option Bad → Option Bad → Option Bad
or_else none later = later
or_else (some b) later = some b

module _ (atoi : Key → ℤ) where
  abbrev pub fault_of : Opt → Option Bad
  fault_of (Opt.count arg) = if not_positive (atoi arg) then some (code (negsuc 0)) else none
  fault_of (Opt.wait arg) = if ltb_ℤ (atoi arg) (pos 0) then some (code (negsuc 1)) else none
  fault_of (Opt.delay arg) = if ltb_ℤ (atoi arg) (pos 0) then some (code (negsuc 2)) else none
  fault_of Opt.help = some quits
  fault_of (Opt.unknown c) = some (code (negsuc 3))
  fault_of (Opt.file arg) = none
  fault_of (Opt.debug arg) = none

  -- the first bad option
  unfoldable pub first_bad : List Opt → Option Bad
  first_bad [] = none
  first_bad (o ∷ rest) = or_else (fault_of o) (first_bad rest)

  -- the last argument of `-c`, `-w` and `-s`
  unfoldable pub last_count : ℤ → List Opt → ℤ
  last_count d [] = d
  last_count d (Opt.count arg ∷ rest) = last_count (atoi arg) rest
  last_count d (_ ∷ rest) = last_count d rest

  unfoldable pub last_wait : ℤ → List Opt → ℤ
  last_wait d [] = d
  last_wait d (Opt.wait arg ∷ rest) = last_wait (atoi arg) rest
  last_wait d (_ ∷ rest) = last_wait d rest

  unfoldable pub last_delay : ℤ → List Opt → ℤ
  last_delay d [] = d
  last_delay d (Opt.delay arg ∷ rest) = last_delay (atoi arg) rest
  last_delay d (_ ∷ rest) = last_delay d rest

  -- the outcome that the first bad option makes
  abbrev pub Fails : Bad → Outcome → Type 0
  Fails (code c) (returned e g) = e ≡ c
  Fails (code c) exited = ⊥
  Fails quits (returned e g) = ⊥
  Fails quits exited = Unit

  abbrev pub default_count : ℤ → ℤ
  default_count a = if too_many a then pos def_count else a

  -- where no option is bad: the return of 0 with the given count, wait and delay
  abbrev pub Accepts : ℤ → ℤ → ℤ → Outcome → Type 0
  Accepts c w d (returned e g) =
      (e ≡ pos 0) × (g.count ≡ default_count c) × (g.wait ≡ w) × (g.send_delay ≡ d)
  Accepts c w d exited = ⊥

  abbrev pub Judged : Option Bad → ℤ → ℤ → ℤ → Outcome → Type 0
  Judged none c w d out = Accepts c w d out
  Judged (some b) c w d out = Fails b out

  abbrev Positive : ℤ → Type 0
  Positive a = not_positive a ≡ false

  parse_options-Judged :
      (opts : List Opt) (g : Globals)
      → Positive g.count
      → Judged
          (first_bad opts)
          (last_count g.count opts)
          (last_wait g.wait opts)
          (last_delay g.send_delay opts)
          (parse_options atoi opts g)
  unfolding parse_options check_count first_bad last_count last_wait last_delay
  parse_options-Judged [] g h = ground arith
  parse_options-Judged (Opt.count arg ∷ rest) g h = elim (Bool-cases (not_positive (atoi arg))) [
    | inl bad ↦ rw bad refl
    | inr good ↦ rw good (parse_options-Judged rest (record g { count = atoi arg }) good)
  ]
  parse_options-Judged (Opt.wait arg ∷ rest) g h = elim (Bool-cases (ltb_ℤ (atoi arg) (pos 0))) [
    | inl bad ↦ rw bad refl
    | inr good ↦ rw good (parse_options-Judged rest (record g { wait = atoi arg }) h)
  ]
  parse_options-Judged (Opt.file arg ∷ rest) g h =
      parse_options-Judged rest (record g { file_in = some arg }) h
  parse_options-Judged (Opt.debug arg ∷ rest) g h =
      parse_options-Judged rest (record g { level = atoi arg }) h
  parse_options-Judged (Opt.delay arg ∷ rest) g h = elim (Bool-cases (ltb_ℤ (atoi arg) (pos 0))) [
    | inl bad ↦ rw bad refl
    | inr good ↦ rw good (parse_options-Judged rest (record g { send_delay = atoi arg }) h)
  ]
  parse_options-Judged (Opt.help ∷ rest) g h = tt
  parse_options-Judged (Opt.unknown c ∷ rest) g h = refl

  -- Whatever the options are, `args_init` does what the first bad one says: -1 for a count that is not
  -- positive, -2 and -3 for a negative wait or delay, -4 for an option without a case, and the exit
  -- for `-?`. Where none is bad it returns 0, with the last wait and delay that were given, or 5 and 3,
  -- and the last count that was given, or 3 where that was above 5 or none was given.
  pub args_init-Judged :
      (opts : List Opt) (path : Option Key) (level : ℤ)
      → Judged
          (first_bad opts)
          (last_count (pos def_count) opts)
          (last_wait (pos def_wait) opts)
          (last_delay (pos def_send_delay) opts)
          (args_init atoi opts path level)
  unfolding args_init
  args_init-Judged opts path level = parse_options-Judged opts _ refl

  -- What `args_init` leaves where it returns 0: a count from 1 to 5, and no negative wait or delay.
  abbrev pub Usable : Outcome → Type 0
  Usable (returned e g) =
      e ≡ pos 0
      → (pos 1 ≤ℤ g.count)
        × (g.count ≤ℤ pos max_count)
        × (pos 0 ≤ℤ g.wait)
        × (pos 0 ≤ℤ g.send_delay)
  Usable exited = Unit

  abbrev InRange : Globals → Type 0
  InRange g = (pos 0 ≤ℤ g.wait) × (pos 0 ≤ℤ g.send_delay)

  parse_options-Usable :
      (opts : List Opt) (g : Globals) → InRange g → Usable (parse_options atoi opts g)
  unfolding parse_options check_count
  parse_options-Usable [] g h = λ e. ground arith
  parse_options-Usable (Opt.count arg ∷ rest) g h = elim (Bool-cases (not_positive (atoi arg))) [
    | inl bad ↦ rw bad (λ e. cc)
    | inr good ↦ rw good (parse_options-Usable rest (record g { count = atoi arg }) h)
  ]
  parse_options-Usable (Opt.wait arg ∷ rest) g h = elim (Bool-cases (ltb_ℤ (atoi arg) (pos 0))) [
    | inl bad ↦ rw bad (λ e. cc)
    | inr good ↦ rw good (parse_options-Usable rest (record g { wait = atoi arg }) (ground arith))
  ]
  parse_options-Usable (Opt.file arg ∷ rest) g h =
      parse_options-Usable rest (record g { file_in = some arg }) h
  parse_options-Usable (Opt.debug arg ∷ rest) g h =
      parse_options-Usable rest (record g { level = atoi arg }) h
  parse_options-Usable (Opt.delay arg ∷ rest) g h = elim (Bool-cases (ltb_ℤ (atoi arg) (pos 0))) [
    | inl bad ↦ rw bad (λ e. cc)
    | inr good ↦
        rw good (parse_options-Usable rest (record g { send_delay = atoi arg }) (ground arith))
  ]
  parse_options-Usable (Opt.help ∷ rest) g h = tt
  parse_options-Usable (Opt.unknown c ∷ rest) g h = λ e. cc

  returned-Usable :
      (out : Outcome) (g : Globals)
      → Usable out
      → out ≡ returned (pos 0) g
      → Usable (returned (pos 0) g)
  returned-Usable out g h e = subst Usable e h

  -- Whatever the options are: where `args_init` returns 0, the count is from 1 to 5, and the wait and
  -- the delay are not negative.
  pub args_init-range :
      (opts : List Opt) (path : Option Key) (level : ℤ) (g : Globals)
      → args_init atoi opts path level ≡ returned (pos 0) g
      → (pos 1 ≤ℤ g.count)
        × (g.count ≤ℤ pos max_count)
        × (pos 0 ≤ℤ g.wait)
        × (pos 0 ≤ℤ g.send_delay)
  unfolding args_init
  args_init-range opts path level g e =
      returned-Usable _ g (parse_options-Usable opts _ (omega arith)) e refl
