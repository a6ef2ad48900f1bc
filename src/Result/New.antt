-- ===== src/Result/New.antt =====
-- `result_new` of result.c, over the contract of the table. `isspace`, `inet_addr` and the pool are
-- parameters: `alloc n` is the address that the pool gives at the request number `n`, 0 for NULL.
pub mod Dump
pub mod Hosts
use fping.Base.{
  ℕ, ◌+◌, ◌^◌, ◌-◌, ◌≡◌, Bool, ◌||◌, not, true, false, ◌==◌, if◌then◌else◌, Option, none, some,
  List, [], ◌∷◌, drop, ◌>>=◌, ℤ, pos, negsuc,
}
use fping.Utils.Strip.{string, strip}
use fping.Result.{Key, PingResults, zeroed}
use fping.Recv.{Store}
use fping.Table.{TableOps}

abbrev pub inaddr_none : ℕ
inaddr_none = 2 ^ 32 - 1

-- the table, the objects, and the number of requests to the pool so far
pub record Build (T : Type 0) : Type 0 where
  pub table : T
  pub store : Store
  pub requests : ℕ

abbrev pub is_blank : Key → Bool
is_blank [] = true
is_blank (c ∷ line) = false

-- `pr->addr.sin_addr.s_addr = ip` behind the `bzero` of `*pr`
unfoldable pub put : Store → ℕ → ℕ → Store
put st pr ip q = if q == pr then record zeroed { addr = ip } else st q

module _ {T : Type 0} (ops : TableOps T) (isspace : ℕ → Bool) (inet_addr : Key → ℕ)
    (alloc : ℕ → ℕ) where
  -- the part of the loop's body behind the two tests. A NULL `pr` or `te` is written through, and a
  -- NULL key is read by the next comparison or by the report: all three are `none`.
  unfoldable pub add_host : Key → ℕ → Build T → Option (Build T)
  add_host line ip s =
      let pr = alloc s.requests in
      let te = alloc (s.requests + 1) in
      let k = alloc (s.requests + 2) in
      if (pr == 0) || (te == 0) || (k == 0) then none else (do
        (table, added) ← ops.add s.table te line pr
        some (record { table = table; store = put s.store pr ip; requests = s.requests + 3 }))

  -- the body of the loop, for what `fgets` has left in the buffer
  unfoldable pub add_line : List ℕ → Build T → Option (Build T)
  unfolding add_host
  add_line buf s = do
    (at, buf) ← strip isspace buf
    let line = string (drop at buf)
    if is_blank line
        then some s
        else if inet_addr line == inaddr_none
        then some s
        else add_host line (inet_addr line) s

  unfoldable pub add_lines : List (List ℕ) → Build T → Option (Build T)
  add_lines [] s = some s
  add_lines (buf ∷ rest) s = do s ← add_line buf s; add_lines rest s

  -- `result_new` with its early returns: `given` says that neither argument is NULL, `pool` that
  -- `result_init` has made a pool. Request 0 to the pool is for the table itself.
  unfoldable pub result_new : Bool → Bool → List (List ℕ) → Store → Option (ℤ × Option (Build T))
  result_new given pool bufs st =
      let start : Build T = record { table = ops.init; store = st; requests = 1 } in
      if not given
      then some (negsuc 0, none)
      else if not pool
      then some (negsuc 1, none)
      else if alloc 0 == 0
      then some (negsuc 2, none)
      else (do s ← add_lines bufs start; some (pos 0, some s))
