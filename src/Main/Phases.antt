-- ===== src/Main/Phases.antt =====
-- `main` of main.c: which phase follows which, for every outcome of the calls that it makes, with
-- `result_init` and `result_free` of result.c and the ends of the two threads.
use fping.Base.{
  ℕ, Bool, true, false, if◌then◌else◌, Option, none, some, List, [], ◌∷◌, ◌++◌, ℤ, pos, negsuc,
  ltb_ℤ, nonzero,
}
use fping.Result.{Key}
use fping.Effects.{Action}
use fping.Log.{log_init, m_debug_start}
use fping.Recv.Thread.{recv_init, recv_wait}
use fping.Send.Thread.{send_init, send_wait}
use fping.Main.Options.{Opt, Globals, Outcome, returned, exited, args_init, usage}

-- what the calls of `main` meet
pub record World : Type 0 where
  pub self : Key
  pub euid : ℕ
  pub opts : List Opt
  pub strcasecmp : Key → Key → ℤ
  pub getenv : Key → Option Key
  pub opens : Key → Bool
  pub had_pool : Bool
  pub pool : Bool
  pub new_code : ℤ
  pub recv_sock : ℤ
  pub recv_created : ℤ
  pub send_sock : ℤ
  pub send_created : ℤ

-- the return value, and the actions in their order
pub record Run : Type 0 where
  pub code : ℤ
  pub actions : List Action

abbrev pub before : Action → Run → Run
before a r = record r { actions = a ∷ r.actions }

-- `m_pool` is not NULL
abbrev pub result_free : Bool → List Action
result_free pool = if pool then Action.frees_pool ∷ [] else []

-- at the start no pool is there
abbrev pub m_pool : Bool
m_pool = false

-- `result_init`, for a pool that was there before and one that `nedcreatepool` makes
unfoldable pub result_init : Bool → Bool → ℤ
result_init had_pool pool = if had_pool then negsuc 0 else if pool then pos 0 else negsuc 1

-- the label `quit`, which only a run with a pool comes to
abbrev pub quit : ℤ → Run
quit e = record { code = e; actions = result_free true }

abbrev pub stop : ℤ → Run
stop e = record { code = e; actions = [] }

-- From `send_wait` on, with the sockets of both threads. The sending thread is joined; the receiving
-- thread is only asked to stop, and may run on for a while.
abbrev pub finish : Globals → ℤ → ℤ → Run
finish g recv_sock send_sock =
    let r = quit (pos 0) in
    record r {
      actions =
          send_wait send_sock ++ (recv_wait g.wait recv_sock ++ (Action.prints_report ∷ r.actions));
    }

module _ (w : World) where
  unfoldable pub start_sender : Globals → ℤ → Run
  start_sender g recv_sock =
      let s = send_init true w.send_sock w.send_created in
      if ltb_ℤ s.code (pos 0)
      then quit (negsuc 5)
      else before Action.starts_sender (finish g recv_sock s.sock)

  unfoldable pub start_receiver : Globals → Run
  start_receiver g =
      let r = recv_init true w.recv_sock w.recv_created in
      if ltb_ℤ r.code (pos 0)
      then quit (negsuc 4)
      else if r.running
      then before Action.starts_receiver (start_sender g r.sock)
      else start_sender g r.sock

  unfoldable pub build : Globals → Run
  build g =
      if ltb_ℤ (result_init w.had_pool w.pool) (pos 0)
      then stop (negsuc 2)
      else before Action.makes_pool (
          if ltb_ℤ w.new_code (pos 0)
          then quit (negsuc 3)
          else before Action.builds_table (start_receiver g))

  unfoldable pub open_file : Globals → Option Key → Run
  open_file g none = build g
  open_file g (some path) =
      if w.opens path then before (Action.opens_file path) (build g) else stop (negsuc 2)

  unfoldable pub after_options : Outcome → Run
  after_options (returned e g) = if ltb_ℤ e (pos 0) then stop (negsuc 1) else open_file g g.file_in
  after_options exited = record { code = pos 0; actions = usage w.self }

  -- what `log_init(NULL)` leaves
  abbrev pub start_level : (Key → ℤ) → ℤ
  start_level atoi = log_init w.strcasecmp w.getenv atoi none m_debug_start

  unfoldable pub main : (Key → ℤ) → Run
  main atoi =
      if nonzero (pos w.euid)
      then stop (negsuc 0)
      else after_options (args_init atoi w.opts none (start_level atoi))
