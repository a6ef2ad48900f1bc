-- ===== src/Recv/Thread.antt =====
-- `recv_init` of recv.c: the socket and the thread of the receiver.
use fping.Base.{List, ◌∷◌, Bool, false, if◌then◌else◌, ℤ, pos, negsuc, ltb_ℤ, nonzero, not}
use fping.Effects.{Action}
use fping.Icmp.{icmp_close}

-- What is left behind: the return value, `m_sock`, and whether a thread runs.
pub record Started : Type 0 where
  pub code : ℤ
  pub sock : ℤ
  pub running : Bool

-- at the start
abbrev pub m_sock : ℤ
m_sock = negsuc 0

-- `given` says that the table is not NULL, `sock` is what `icmp_open` returns, and `created` what
-- `pthread_create` returns: 0 with a new thread, or an error number without one.
unfoldable pub recv_init : Bool → ℤ → ℤ → Started
recv_init given sock created =
    if not given
    then record { code = negsuc 0; sock = m_sock; running = false }
    else if ltb_ℤ sock (pos 0)
    then record { code = negsuc 1; sock = sock; running = false }
    else if ltb_ℤ created (pos 0)
    then record { code = negsuc 2; sock = sock; running = false }
    else record { code = pos 0; sock = sock; running = not (nonzero created) }

-- for the `g_wait` and the `m_sock` that it finds; what it returns is not used
abbrev pub recv_wait : ℤ → ℤ → List Action
recv_wait wait sock = Action.sleeps wait ∷ Action.cancels_receiver ∷ icmp_close sock
