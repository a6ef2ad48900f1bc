-- ===== src/Tests/Hosts.antt =====
-- `result_new` of result.c, and `result_dump` behind it, at concrete inputs.
use fping.Utils.Strip.Word.{word}
use fping.Base.{
  ◌*◌, ◌^◌, ◌-◌, ◌||◌, ltb, is_some, ℕ, suc, ◌+◌, ◌≡◌, refl, Bool, true, false, ◌==◌, if◌then◌else◌,
  arith, Option, some, List, [], ◌∷◌, map, All, ℤ, pos, negsuc,
}
use fping.Result.{Key, PingResults, zeroed, result_dump}
use fping.Result.New.{Build, result_new}
use fping.Result.New.Hosts.{buffer, hosts, IsPool, IsEntry, result_new-hosts}
use fping.Result.New.Dump.{filled, dumped, result_new-dump}
use fping.Rbtree.{Ptr}
use fping.Rbtree.Walk.{for_each}
use fping.Table.Each.{result_new-for_each}
use fping.Table.Search.{entry}
use fping.Table.Tree.{Table, tree_table}
use fping.Tests.Tree.{cmp, cmp-IsOrder}
use fping.Table.{TableOps, IsTable, lookup, insert}

abbrev key_cmp : Key → Key → ℤ
key_cmp [] [] = pos 0
key_cmp [] (_ ∷ _) = negsuc 0
key_cmp (_ ∷ _) [] = pos 1
key_cmp (a ∷ _) (b ∷ _) = if a == b then pos 0 else if ltb b a then pos 1 else negsuc 0

-- the contract's own list as a table
abbrev list_add : List (Key × ℕ) → ℕ → Key → ℕ → Option (List (Key × ℕ) × Bool)
list_add l te k v =
    some (if is_some (lookup key_cmp k l) then (l, false) else (insert key_cmp k v l, true))

abbrev list_table : TableOps (List (Key × ℕ))
list_table = record { init = []; add = list_add }

abbrev Same : List (Key × ℕ) → List (Key × ℕ) → List ℕ → Type 0
Same t l used = t ≡ l

list_table-IsTable : IsTable list_table key_cmp Same
list_table-IsTable = record {
  init_empty = refl;
  add_new = λ t l used te k v same ne al out new. (insert key_cmp k v l, rw (same, new), refl);
  add_known = λ t l used te k v w same out known. (l, rw (same, known), refl);
}

abbrev alloc : ℕ → ℕ
alloc n = 8 * n + 64

alloc-IsPool : IsPool alloc
alloc-IsPool = record {
  nonnull = λ n. omega arith;
  aligned = λ n. omega arith;
  distinct = λ m n e. omega arith;
}

abbrev digit_addr : Key → ℕ
digit_addr [] = 2 ^ 32 - 1
digit_addr (c ∷ _) = if ltb c b'0' then 2 ^ 32 - 1 else c - 48

abbrev lines : List (List ℕ × List ℕ)
lines =
    (b'1' ∷ b'\n' ∷ [], [])
    ∷ (b'\n' ∷ [], b'9' ∷ [])
    ∷ (b'#' ∷ b'\n' ∷ [], [])
    ∷ (b' ' ∷ b'7' ∷ b'\n' ∷ [], [])
    ∷ (b'1' ∷ [], [])
    ∷ []

abbrev blank : ℕ → Bool
blank c = (c == b' ') || (c == b'\n')

abbrev empty_store : ℕ → PingResults
empty_store p = zeroed

lines_hosts :
    hosts blank digit_addr alloc key_cmp lines 1 []
    ≡ (b'7' ∷ [], alloc 4) ∷ (b'1' ∷ [], alloc 1) ∷ []
unfolding hosts word lookup insert
lines_hosts = refl

result_new-hosts_example :
    (s : Build (List (Key × ℕ))) × (result_new list_table blank digit_addr alloc true true
        (map buffer lines)
        empty_store
      ≡ some (pos 0, some s))
    × ((used : List ℕ) × Same s.table (hosts blank digit_addr alloc key_cmp lines 1 []) used)
    × All (IsEntry digit_addr s.store) (hosts blank digit_addr alloc key_cmp lines 1 [])
result_new-hosts_example =
    result_new-hosts list_table blank digit_addr alloc key_cmp Same list_table-IsTable alloc-IsPool
      lines empty_store (omega arith)

result_new-for_each_example :
    let hs = hosts blank digit_addr alloc cmp lines 1 [] in
    (s : Build Table) × (result_new
        (tree_table cmp)
        blank
        digit_addr
        alloc
        true
        true
        (map buffer lines)
        empty_store
      ≡ some (pos 0, some s))
    × ((ps : List Ptr) × (for_each (suc s.table.added) s.table.heap ≡ some (ps, s.table.heap))
        × (map (entry s.table.keys s.table.values) ps ≡ hs))
    × All (IsEntry digit_addr s.store) hs
result_new-for_each_example =
    result_new-for_each blank digit_addr alloc cmp cmp-IsOrder alloc-IsPool lines empty_store
      (omega arith)

abbrev dotted : ℕ → Key
dotted ip = b'.' ∷ (ip + 48) ∷ []

result_new-dump_example :
    let hs = hosts blank digit_addr alloc key_cmp lines 1 [] in
    (s : Build (List (Key × ℕ))) × (result_new list_table blank digit_addr alloc true true
        (map buffer lines)
        empty_store
      ≡ some (pos 0, some s))
    × ((used : List ℕ) × Same s.table hs used)
    × (result_dump dotted (some (filled s.store hs)) ≡ dumped digit_addr dotted hs)
result_new-dump_example =
    result_new-dump digit_addr dotted list_table blank alloc key_cmp Same list_table-IsTable
      alloc-IsPool lines empty_store (omega arith)
