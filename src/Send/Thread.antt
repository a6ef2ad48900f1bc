-- ===== src/Send/Thread.antt =====
-- `send_init` of send.c: the socket and the thread of the sender, started like the receiver's.
use fping.Base.{List, ◌∷◌, Bool, false, if◌then◌else◌, ℤ, pos, negsuc, ltb_ℤ, nonzero, not}
use fping.Effects.{Action}
use fping.Icmp.{icmp_close}
use fping.Recv.Thread.{Started}

-- at the start
abbrev pub m_sock : ℤ
m_sock = negsuc 0

unfoldable pub send_init : Bool → ℤ → ℤ → Started
send_init given sock created =
    if not given
    then record { code = negsuc 0; sock = m_sock; running = false }
    else if ltb_ℤ sock (pos 0)
    then record { code = negsuc 1; sock = sock; running = false }
    else if ltb_ℤ created (pos 0)
    then record { code = negsuc 2; sock = sock; running = false }
    else record { code = pos 0; sock = sock; running = not (nonzero created) }

abbrev pub send_wait : ℤ → List Action
send_wait sock = Action.joins_sender ∷ icmp_close sock
