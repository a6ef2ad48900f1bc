-- ===== src/Result/New/Dump.antt =====
-- What `result_dump` prints of the table that `result_new` builds.
use fping.Base.{ℕ, ◌≡◌, refl, Bool, true, some, List, [], ◌∷◌, map, All, ℤ, pos, ap}
use mathlib.Core.Path.{ap₂}
use fping.Result.{Key, PingResults, dump_loop, result_dump}
use fping.Recv.{Store}
use fping.Table.{TableOps, IsTable}
use fping.Result.New.{Build, result_new}
use fping.Result.New.Hosts.{IsText, IsPool, IsEntry, buffer, hosts, result_new-hosts}

-- the entries of a table with what their objects hold
abbrev pub filled : Store → List (Key × ℕ) → List (Key × PingResults)
filled st hs = map (λ host. (host.0, st host.1)) hs

module _ (inet_addr : Key → ℕ) (inet_ntoa : ℕ → Key) where
  abbrev pub dumped : List (Key × ℕ) → List (Key × Key)
  dumped hs = map (λ host. (host.0, inet_ntoa (inet_addr host.0))) hs

  dump_loop-filled :
      (st : Store) (hs : List (Key × ℕ))
      → All (IsEntry inet_addr st) hs
      → dump_loop inet_ntoa (filled st hs) ≡ dumped hs
  unfolding dump_loop
  dump_loop-filled st [] h = refl
  dump_loop-filled st (host ∷ hs) (entry, h) =
      ap₂ (λ (a : ℕ) (rest : List (Key × Key)). (host.0, inet_ntoa a) ∷ rest)
        (ap (λ pr. pr.addr) entry.filled) (dump_loop-filled st hs h)

  module _ {T : Type 0} (ops : TableOps T) (isspace : ℕ → Bool) (alloc : ℕ → ℕ)
      (strcmp : Key → Key → ℤ) (Represents : T → List (Key × ℕ) → List ℕ → Type 0)
      (table : IsTable ops strcmp Represents) (pool : IsPool alloc) where
    -- For a table that meets its contract, a pool that has memory and lines that are C strings:
    -- `result_new` returns 0 with a table of the hosts of the lines, and `result_dump` then prints one
    -- line for each of them, in the table's order: its word, and the address that the word stands for
    -- as `inet_ntoa` writes it.
    pub result_new-dump :
        (lines : List (List ℕ × List ℕ)) (st : Store)
        → All IsText lines
        → let hs = hosts isspace inet_addr alloc strcmp lines 1 [] in
          (s : Build T) × (result_new ops isspace inet_addr alloc true true (map buffer lines) st
            ≡ some (pos 0, some s))
          × ((used : List ℕ) × Represents s.table hs used)
          × (result_dump inet_ntoa (some (filled s.store hs)) ≡ dumped hs)
    unfolding result_dump
    result_new-dump lines st texts =
        let (s, run, held, entries) =
          result_new-hosts ops isspace inet_addr alloc strcmp Represents table pool lines st
            texts in
        (
          s,
          run,
          held,
          dump_loop-filled s.store (hosts isspace inet_addr alloc strcmp lines 1 []) entries,
        )
