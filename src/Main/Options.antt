-- ===== src/Main/Options.antt =====
-- `args_init` of main.c. What `getopt_long` returns is a list of options, `atoi` a parameter.
use fping.Base.{
  ℕ, Bool, ◌||◌, if◌then◌else◌, Option, none, some, List, [], ◌∷◌, ℤ, pos, negsuc, ltb_ℤ,
}
use fping.Effects.{Action, synopsis, option}
use fping.Log.{log_set_level}
use fping.Result.{Key, max_count, def_count}

abbrev pub def_wait : ℕ
def_wait = 5

abbrev pub def_send_delay : ℕ
def_send_delay = 3

-- one line each
unfoldable pub usage : Key → List Action
usage self =
    Action.helps (synopsis self)
    ∷ Action.helps (option b'c' (some def_count))
    ∷ Action.helps (option b'w' (some def_wait))
    ∷ Action.helps (option b's' (some def_send_delay))
    ∷ Action.helps (option b'f' none)
    ∷ []

-- the options, with `optarg`; `help` is also what `getopt_long` makes of an unknown option
pub data Opt : Type 0 where
  count : Key → Opt
  wait : Key → Opt
  file : Key → Opt
  debug : Key → Opt
  delay : Key → Opt
  help : Opt
  unknown : ℕ → Opt

-- `g_count`, `g_wait`, `g_send_delay`, `m_file_in` and the level of log.c
pub record Globals : Type 0 where
  pub count : ℤ
  pub wait : ℤ
  pub send_delay : ℤ
  pub file_in : Option Key
  pub level : ℤ

-- `args_init` returns a code, or the process exits with status 0.
pub data Outcome : Type 0 where
  returned : ℤ → Globals → Outcome
  exited : Outcome

-- `a <= 0`, and `a > MAX_COUNT`
abbrev pub not_positive : ℤ → Bool
not_positive a = ltb_ℤ a (pos 1)

abbrev pub too_many : ℤ → Bool
too_many a = ltb_ℤ (pos max_count) a

module _ (atoi : Key → ℤ) where
  -- the test behind the loop
  unfoldable pub check_count : Globals → Outcome
  check_count g =
      returned (pos 0)
        (if not_positive g.count || too_many g.count then record g { count = pos def_count } else g)

  -- the loop over the options
  unfoldable pub parse_options : List Opt → Globals → Outcome
  parse_options [] g = check_count g
  parse_options (count arg ∷ rest) g =
      let g' = record g { count = atoi arg } in
      let next = parse_options rest g' in
      if not_positive (atoi arg) then returned (negsuc 0) g' else next
  parse_options (wait arg ∷ rest) g =
      let g' = record g { wait = atoi arg } in
      let next = parse_options rest g' in
      if ltb_ℤ (atoi arg) (pos 0) then returned (negsuc 1) g' else next
  parse_options (file arg ∷ rest) g = parse_options rest (record g { file_in = some arg })
  parse_options (debug arg ∷ rest) g =
      parse_options rest (record g { level = log_set_level (atoi arg) g.level })
  parse_options (delay arg ∷ rest) g =
      let g' = record g { send_delay = atoi arg } in
      let next = parse_options rest g' in
      if ltb_ℤ (atoi arg) (pos 0) then returned (negsuc 2) g' else next
  parse_options (help ∷ rest) g = exited
  parse_options (unknown c ∷ rest) g = returned (negsuc 3) g

  -- `path` and `level` are what `m_file_in` and the level of log.c hold before
  unfoldable pub args_init : List Opt → Option Key → ℤ → Outcome
  unfolding parse_options check_count
  args_init opts path level = parse_options opts (record {
    count = pos def_count;
    wait = pos def_wait;
    send_delay = pos def_send_delay;
    file_in = path;
    level = level;
  })
