-- ===== src/Session.antt =====
-- The sending and the receiving thread over the shared results, interleaved in any order: the steps of
-- `send_loop` of send.c and of `recv_loop` of recv.c. The network and the clock choose.
pub mod Alone
pub mod Causal
pub mod Clock
pub mod Race
pub mod Silent
use fping.Base.{ℕ, ◌+◌, ◌≡◌, ◌<◌, true, false, Option, none, some, List, [], ◌∷◌, ℤ, pos, ltb_ℤ}
use mathlib.Core.List.{Mem}
use fping.Result.{Key, Timeval}
use fping.Recv.{Store, write_result, set_sent, on_reply}

-- where the sending thread stands: the round `i`, the hosts still to come in it, and the object that is
-- to be stamped, between `icmp_send` and the `gettimeofday` behind it
pub record Sender : Type 0 where
  pub round : ℕ
  pub rest : List (Key × ℕ)
  pub pending : Option ℕ

pub record System : Type 0 where
  pub sender : Sender
  pub store : Store
  -- the requests that `icmp_send` has put on the wire, an address and a sequence number each
  pub wire : List (ℕ × ℕ)

module _ (table_get : Key → Option ℕ) (inet_ntoa : ℕ → Key) (hosts : List (Key × ℕ))
    (count : ℕ) where
  abbrev pub init : Store → System
  init st = record {
    sender = record { round = 0; rest = hosts; pending = none };
    store = st;
    wire = [];
  }

  -- the steps of the sending thread
  pub data SendStep (s : System) : System → Type 0 where
    -- `icmp_send` for the next host of the round succeeds
    sends :
        (ips : Key) (pr : ℕ) (rest : List (Key × ℕ))
        → s.sender.round < count
        → s.sender.pending ≡ none
        → s.sender.rest ≡ (ips, pr) ∷ rest
        → SendStep s (record {
          sender = record { round = s.sender.round; rest = rest; pending = some pr };
          store = s.store;
          wire = ((s.store pr).addr, s.sender.round) ∷ s.wire;
        })
    -- it fails, and the host is passed over
    fails :
        (ips : Key) (pr : ℕ) (rest : List (Key × ℕ))
        → s.sender.round < count
        → s.sender.pending ≡ none
        → s.sender.rest ≡ (ips, pr) ∷ rest
        → SendStep s (record {
          sender = record { round = s.sender.round; rest = rest; pending = none };
          store = s.store;
          wire = s.wire;
        })
    -- the time is stored behind a successful `icmp_send`
    stamps :
        (pr : ℕ) (tv : Timeval) (st : Store)
        → s.sender.pending ≡ some pr
        → write_result (set_sent tv) pr s.sender.round s.store ≡ some st
        → SendStep s (record {
          sender = record { round = s.sender.round; rest = s.sender.rest; pending = none };
          store = st;
          wire = s.wire;
        })
    -- the next round begins
    turns :
        s.sender.pending ≡ none
        → s.sender.rest ≡ []
        → s.sender.round < count
        → SendStep s (record {
          sender = record { round = s.sender.round + 1; rest = hosts; pending = none };
          store = s.store;
          wire = s.wire;
        })

  -- a step of the receiving thread: `icmp_recv` has returned 0 for a reply
  pub data RecvStep (s : System) : ℕ → ℕ → System → Type 0 where
    receives :
        (addr seq : ℕ) (tv : Timeval) (st : Store)
        → on_reply table_get inet_ntoa count addr seq tv s.store ≡ some st
        → RecvStep s addr seq (record { sender = s.sender; store = st; wire = s.wire })

  -- Any interleaving over a network whose echo replies answer requests.
  pub data Reach (st : Store) : System → Type 0 where
    start : Reach st (init st)
    send : {s t : System} → Reach st s → SendStep s t → Reach st t
    recv :
        {s t : System} (addr seq : ℕ)
        → Reach st s
        → Mem (addr, seq) s.wire
        → RecvStep s addr seq t
        → Reach st t
