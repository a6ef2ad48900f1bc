-- ===== src/Ping/Counts.antt =====
-- What the packets, the addresses and the answers of a run of `start` have to do with each other.
use fping.Base.{ℕ, suc, ◌+◌, ◌≤◌, ◌≡◌, refl, Option, some, List, [], ◌∷◌, ◌++◌, map, arith}
use fping.Ping.{
  Line, no_socket, no_host, no_filter, not_sent, incorrect, short_write, Event, Outcome, finished,
  exited, blocked, Run, not_received, emit, exit, echo_reply, prints, sends, hears, total,
  unreachable, ids_match,
}

-- Every packet goes to the address that the last datagram has left, or to `addr` before there is one.
abbrev pub Follows : ℕ → List Event → Type 0
Follows addr [] = Unit {0}
Follows addr (sends to pkt ∷ es) = (to ≡ addr) × Follows addr es
Follows addr (hears from ∷ es) = Follows from es
Follows addr (_ ∷ es) = Follows addr es

-- the number of packets, and of lines that report an echo reply
abbrev pub requests : List Event → ℕ
requests [] = 0
requests (sends to pkt ∷ es) = suc (requests es)
requests (_ ∷ es) = requests es

abbrev pub replies : List Event → ℕ
replies [] = 0
replies (prints Line.echo_reply ∷ es) = suc (replies es)
replies (_ ∷ es) = replies es

-- What `nrec` can be in the end: `n` packets are still to be sent, and `b` answers can still count.
abbrev pub Counts : ℕ → ℕ → ℕ → List Event → Outcome → Type 0
Counts nrec n b es (finished c) =
    (requests es ≡ n) × (nrec ≤ c) × (c ≤ nrec + b) × (c ≤ nrec + replies es)
Counts nrec n b es (exited code) = requests es ≤ n
Counts nrec n b es blocked = requests es ≤ n

pub record IsRun (addr nrec n b : ℕ) (r : Run) : Type 0 where
  pub follows : Follows addr r.events
  pub counts : Counts nrec n b r.events r.outcome

abbrev pub Runs : ℕ → ℕ → ℕ → ℕ → Option Run → Type 0
Runs addr nrec n b o = (r : Run) × (o ≡ some r) × IsRun addr nrec n b r

-- lines change neither packets nor addresses
Follows-prints :
    (addr : ℕ) (ls : List Line) (es : List Event)
    → Follows addr es
    → Follows addr (map prints ls ++ es)
Follows-prints addr [] es h = h
Follows-prints addr (l ∷ ls) es h = Follows-prints addr ls es h

requests-prints : (ls : List Line) (es : List Event) → requests (map prints ls ++ es) ≡ requests es
requests-prints [] es = refl
requests-prints (l ∷ ls) es = requests-prints ls es

replies-cons : (l : Line) (es : List Event) → replies es ≤ replies (prints l ∷ es)
replies-cons no_socket es = omega arith
replies-cons no_host es = omega arith
replies-cons no_filter es = omega arith
replies-cons not_sent es = omega arith
replies-cons not_received es = omega arith
replies-cons incorrect es = omega arith
replies-cons echo_reply es = omega arith
replies-cons unreachable es = omega arith
replies-cons ids_match es = omega arith
replies-cons (short_write n) es = omega arith
replies-cons (total n) es = omega arith

replies-prints : (ls : List Line) (es : List Event) → replies es ≤ replies (map prints ls ++ es)
replies-prints [] es = omega arith
replies-prints (l ∷ ls) es =
    omega (arith, replies-prints ls es, replies-cons l (map prints ls ++ es))

Counts-emit :
    (nrec n b b' : ℕ) (ls : List Line) (es : List Event) (o : Outcome)
    → b ≤ b'
    → Counts nrec n b es o
    → Counts nrec n b' (map prints ls ++ es) o
Counts-emit nrec n b b' ls es (finished c) h (e, low, high, seen) =
    omega (arith, requests-prints ls es, replies-prints ls es)
Counts-emit nrec n b b' ls es (exited code) h e = omega (arith, requests-prints ls es)
Counts-emit nrec n b b' ls es blocked h e = omega (arith, requests-prints ls es)

Counts-reply :
    (nrec n b : ℕ) (es : List Event) (o : Outcome)
    → Counts (nrec + 1) n b es o
    → Counts nrec n (suc b) (prints echo_reply ∷ es) o
Counts-reply nrec n b es (finished c) h = omega arith
Counts-reply nrec n b es (exited code) h = h
Counts-reply nrec n b es blocked h = h

Counts-request :
    (nrec n b addr : ℕ) (pkt : List ℕ) (es : List Event) (o : Outcome)
    → Counts nrec n b es o
    → Counts nrec (suc n) b (sends addr pkt ∷ es) o
Counts-request nrec n b addr pkt es (finished c) h = omega arith
Counts-request nrec n b addr pkt es (exited code) h = omega arith
Counts-request nrec n b addr pkt es blocked h = omega arith

-- a datagram that does not count
pub Runs-heard :
    (addr from nrec n b b' : ℕ) (ls : List Line) (o : Option Run)
    → b ≤ b'
    → Runs from nrec n b o
    → Runs addr nrec n b' (emit (hears from ∷ map prints ls) o)
Runs-heard addr from nrec n b b' ls o h (r, e, is) = (
  record r { events = hears from ∷ map prints ls ++ r.events },
  rw e refl,
  record {
    follows = Follows-prints from ls r.events is.follows;
    counts = Counts-emit nrec n b b' ls r.events r.outcome h is.counts;
  },
)

-- a datagram that counts
pub Runs-counted :
    (addr from nrec n b : ℕ) (o : Option Run)
    → Runs from (nrec + 1) n b o
    → Runs addr nrec n (suc b) (emit (hears from ∷ prints echo_reply ∷ []) o)
Runs-counted addr from nrec n b o (r, e, is) = (
  record r { events = hears from ∷ prints echo_reply ∷ r.events },
  rw e refl,
  record { follows = is.follows; counts = Counts-reply nrec n b r.events r.outcome is.counts },
)

-- a packet before the rest of a run, and one that ends the process
pub Runs-request :
    (addr nrec n : ℕ) (pkt : List ℕ) (o : Option Run)
    → Runs addr nrec n (suc n) o
    → Runs addr nrec (suc n) (suc n) (emit (sends addr pkt ∷ []) o)
Runs-request addr nrec n pkt o (r, e, is) = (
  record r { events = sends addr pkt ∷ r.events },
  rw e refl,
  record {
    follows = (refl, is.follows);
    counts = Counts-request nrec n (suc n) addr pkt r.events r.outcome is.counts;
  },
)

pub Runs-exit :
    (addr nrec n b code : ℕ) (es : List Event)
    → Follows addr es
    → requests es ≤ n
    → Runs addr nrec n b (exit es code)
Runs-exit addr nrec n b code es h few =
    (record { events = es; outcome = exited code }, refl, record { follows = h; counts = few })
