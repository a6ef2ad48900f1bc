-- ===== src/Main/Cleanup.antt =====
-- What a run of `main` leaves behind, on every path through its phases.
use fping.Base.{
  ℕ, suc, ◌+◌, ◌≤◌, ◌≡◌, ◌↔◌, Bool, true, false, not, ◌&&◌, ◌||◌, if◌then◌else◌, none, some, Option,
  List, [], ◌∷◌, ℤ, pos, negsuc, nonzero, arith,
}
use fping.Result.{Key}
use fping.Recv.Thread.{recv_init}
use fping.Send.Thread.{send_init}
use fping.Main.Options.{Globals, Outcome, returned, exited, usage, args_init}
use fping.Effects.{Action}
use fping.Main.Phases.{
  start_level, World, Run, start_sender, start_receiver, build, open_file, after_options, main,
  result_init,
}

-- A pool is made only where there is none and given back only where there is one, whatever is done
-- with it is done in between, and none is left at the end. The flag says that there is a pool.
abbrev pub disciplined : Bool → List Action → Bool
disciplined pool [] = not pool
disciplined pool (Action.makes_pool ∷ rest) = not pool && disciplined true rest
disciplined pool (Action.frees_pool ∷ rest) = pool && disciplined false rest
disciplined pool (Action.opens_file path ∷ rest) = disciplined pool rest
disciplined pool (Action.helps h ∷ rest) = disciplined pool rest
disciplined pool (_ ∷ rest) = pool && disciplined pool rest

-- how often a pool is made
abbrev pub pools : List Action → ℕ
pools [] = 0
pools (Action.makes_pool ∷ rest) = suc (pools rest)
pools (_ ∷ rest) = pools rest

-- The pool is given back where the receiving thread has been started and not been asked to stop. The
-- flag says that it has been started, and not been asked.
abbrev pub frees_early : Bool → List Action → Bool
frees_early running [] = false
frees_early running (Action.starts_receiver ∷ rest) = frees_early true rest
frees_early running (Action.cancels_receiver ∷ rest) = frees_early false rest
frees_early running (Action.frees_pool ∷ rest) = running || frees_early running rest
frees_early running (_ ∷ rest) = frees_early running rest

abbrev pub prints : List Action → Bool
prints [] = false
prints (Action.prints_report ∷ rest) = true
prints (_ ∷ rest) = prints rest

abbrev pub closed : List Action → List ℤ
closed [] = []
closed (Action.closes s ∷ rest) = s ∷ closed rest
closed (_ ∷ rest) = closed rest

abbrev pub is_exit : Outcome → Bool
is_exit exited = true
is_exit (returned e g) = false

recv_init_sock : (sock created : ℤ) → (recv_init true sock created).sock ≡ sock
unfolding recv_init
recv_init_sock sock created = ground arith

send_init_sock : (sock created : ℤ) → (send_init true sock created).sock ≡ sock
unfolding send_init
send_init_sock sock created = ground arith

module _ (w : World) where
  -- the two sockets, where the report is printed
  abbrev pub sockets_of : Bool → List ℤ
  sockets_of report = if report then w.send_sock ∷ w.recv_sock ∷ [] else []

  -- what is left behind by the phases behind `result_init`, and by those before it
  record Ends (pool : Bool) (r : Run) : Type 0 where
    order : disciplined pool r.actions ≡ true
    success : (r.code ≡ pos 0) ↔ (prints r.actions ≡ true)
    sockets : closed r.actions ≡ sockets_of (prints r.actions)
    pools_made : pools r.actions + (if pool then 1 else 0) ≤ 1
    early :
        frees_early false r.actions ≡ true → (r.code ≡ negsuc 5) × (nonzero w.recv_created ≡ false)
    abandons :
        r.code ≡ negsuc 5 → nonzero w.recv_created ≡ false → frees_early false r.actions ≡ true

  start_receiver-Ends : (g : Globals) → Ends true (start_receiver w g)
  unfolding start_receiver start_sender recv_init
  start_receiver-Ends g =
      ground (
        arith,
        recv_init_sock w.recv_sock w.recv_created,
        send_init_sock w.send_sock w.send_created,
      )

  build-Ends : (g : Globals) → Ends false (build w g)
  unfolding build result_init
  build-Ends g = ground (arith, start_receiver-Ends g)

  open_file-Ends : (g : Globals) (file : Option Key) → Ends false (open_file w g file)
  unfolding open_file
  open_file-Ends g none = build-Ends g
  open_file-Ends g (some path) = ground (arith, build-Ends g)

  -- what is left behind by all that follows the test for the superuser
  record Left (o : Outcome) (r : Run) : Type 0 where
    order : disciplined false r.actions ≡ true
    success : (r.code ≡ pos 0) ↔ ((prints r.actions || is_exit o) ≡ true)
    sockets : closed r.actions ≡ sockets_of (prints r.actions)
    pools_made : pools r.actions ≤ 1
    abandons :
        (frees_early false r.actions ≡ true)
        ↔ ((r.code ≡ negsuc 5) × (nonzero w.recv_created ≡ false))

  after_options-Left : (o : Outcome) → Left o (after_options w o)
  unfolding after_options usage
  after_options-Left (returned e g) = ground (arith, open_file-Ends g g.file_in)
  after_options-Left exited = ground arith

  -- On every path through `main`: the pool is made at most once, used only while it is there, and given
  -- back before the end; the two sockets are closed, the sender's first, where the report is printed, and
  -- none is where it is not; and `main` returns 0 exactly where it has printed the report or, for a
  -- superuser, `args_init` has ended the process.
  pub main-disciplined :
      (atoi : Key → ℤ)
      → (disciplined false (main w atoi).actions ≡ true)
        × (pools (main w atoi).actions ≤ 1)
        × (closed (main w atoi).actions ≡ sockets_of (prints (main w atoi).actions))
        × (((main w atoi).code ≡ pos 0) ↔ (
            (prints (main w atoi).actions
              || (not (nonzero (pos w.euid))
                  && is_exit (args_init atoi w.opts none (start_level w atoi))))
            ≡ true))
  unfolding main
  main-disciplined atoi =
      ground (arith, after_options-Left (args_init atoi w.opts none (start_level w atoi)))

  -- `main` gives back the pool, which holds the results that the receiving thread writes to, with that
  -- thread started and not asked to stop exactly where `main` returns -6, which is its code for a
  -- failing `send_init`, and `pthread_create` had returned 0 for the receiving thread.
  pub main_abandons :
      (atoi : Key → ℤ)
      → (frees_early false (main w atoi).actions ≡ true)
        ↔ (((main w atoi).code ≡ negsuc 5) × (nonzero w.recv_created ≡ false))
  unfolding main
  main_abandons atoi =
      ground (arith, after_options-Left (args_init atoi w.opts none (start_level w atoi)))
