-- ===== src/Result/New/Hosts.antt =====
-- The table that `result_new` builds from its lines.
use fping.Base.{
  ℕ, ◌+◌, ◌<◌, ◌≡◌, ◌≢◌, ◌%◌, refl, Bool, true, false, ◌||◌, ◌==◌, if◌then◌else◌, is_some, some,
  List, [], ◌∷◌, ◌++◌, map, All, All-imp, arith, ℤ, pos, ltb_ℤ, Bool-cases, Option-cases, inl, inr,
  sym, ◌∙◌,
}
use mathlib.Core.List.{Mem, mem-cons, not-mem-nil}
use mathlib.Core.Logic.Or
use mathlib.Core.HLevel.{⊥_prop}
use fping.Utils.Strip.Word.{word, strip-word}
use fping.Result.{Key, zeroed}
use fping.Recv.{Store}
use fping.Table.{TableOps, IsTable, lookup, insert}
use fping.Result.New.{inaddr_none, Build, is_blank, put, add_host, add_line, add_lines, result_new}

-- a buffer as `fgets` leaves it: a C string and whatever lies behind its NUL
abbrev pub buffer : List ℕ × List ℕ → List ℕ
buffer l = l.0 ++ 0 ∷ l.1

abbrev pub IsText : List ℕ × List ℕ → Type 0
IsText l = All (λ c. c ≢ 0) l.0

-- What malloc promises, and that memory has not run out.
pub record IsPool (alloc : ℕ → ℕ) : Type 0 where
  pub nonnull : (n : ℕ) → alloc n ≢ 0
  pub aligned : (n : ℕ) → alloc n % 4 ≡ 0
  pub distinct : (m n : ℕ) → alloc m ≡ alloc n → m ≡ n

module _ (isspace : ℕ → Bool) (inet_addr : Key → ℕ) (alloc : ℕ → ℕ) (strcmp : Key → Key → ℤ) where
  -- the lines that `result_new` ignores
  abbrev pub is_ignored : Key → Bool
  is_ignored w = is_blank w || (inet_addr w == inaddr_none)

  -- The hosts of a list of lines: of each line the first word, if it is an address, in the order of
  -- the table, and a repeated one once, with the object that was made for its first line.
  unfoldable pub hosts : List (List ℕ × List ℕ) → ℕ → List (Key × ℕ) → List (Key × ℕ)
  hosts [] n l = l
  hosts (t ∷ rest) n l =
      let w = word isspace t.0 in
      hosts rest (if is_ignored w then n else n + 3)
        (if is_ignored w || is_some (lookup strcmp w l) then l else insert strcmp w (alloc n) l)

-- an address that the pool has given before its request `n`
abbrev IsOld : (ℕ → ℕ) → ℕ → ℕ → Type 0
IsOld alloc n a = (m : ℕ) × (m < n) × (alloc m ≡ a)

-- An entry of the table: its key is a valid address, and its object holds that address and no stamp.
pub record IsEntry (inet_addr : Key → ℕ) (st : Store) (host : Key × ℕ) : Type 0 where
  pub valid : inet_addr host.0 ≢ inaddr_none
  pub filled : st host.1 ≡ record zeroed { addr = inet_addr host.0 }

abbrev Kept : (Key → ℕ) → (ℕ → ℕ) → Store → ℕ → Key × ℕ → Type 0
Kept inet_addr alloc st n host = IsEntry inet_addr st host × IsOld alloc n host.1

ne_of_lt : (m n : ℕ) → m < n → m ≢ n
ne_of_lt m n h = omega arith

put_self : (st : Store) (p ip : ℕ) → put st p ip p ≡ record zeroed { addr = ip }
unfolding put
put_self st p ip = ground arith

IsOld-mono : (alloc : ℕ → ℕ) (n k a : ℕ) → IsOld alloc n a → IsOld alloc (n + k) a
IsOld-mono alloc n k a (m, lt, e) = (m, omega arith, e)

Kept-put :
    (inet_addr : Key → ℕ) (alloc : ℕ → ℕ) (st : Store) (n ip : ℕ) (host : Key × ℕ)
    → IsPool alloc
    → Kept inet_addr alloc st n host
    → Kept inet_addr alloc (put st (alloc n) ip) (n + 3) host
unfolding put
Kept-put inet_addr alloc st n ip host pool (entry, (m, lt, e)) =
    let other : host.1 ≢ alloc n =
      λ same. absurd (ne_of_lt m n lt (pool.distinct m n (e ∙ same))) in
    (record { valid = entry.valid; filled = ground (arith, entry.filled) }, (m, omega arith, e))

All-insert {μ} :
    (strcmp : Key → Key → ℤ) (P : Key × ℕ → Type μ) (k : Key) (v : ℕ) (l : List (Key × ℕ))
    → P (k, v)
    → All P l
    → All P (insert strcmp k v l)
unfolding insert
All-insert strcmp P k v [] p h = (p, tt)
All-insert strcmp P k v ((j, w) ∷ l) p h = elim (Bool-cases (ltb_ℤ (pos 0) (strcmp k j))) [
  | inl above ↦ rw above (p, h)
  | inr below ↦ rw below (h.0, All-insert strcmp P k v l p h.1)
]

not-mem_of_All : (a : ℕ) (l : List ℕ) → All (λ b. b ≢ a) l → ¬ Mem a l
not-mem_of_All a [] h m = not-mem-nil m
not-mem_of_All a (b ∷ l) h m =
    Or.elim ⊥_prop (mem-cons.0 m) (λ e. h.0 (sym e)) (not-mem_of_All a l h.1)

module _ {T : Type 0} (ops : TableOps T) (isspace : ℕ → Bool) (inet_addr : Key → ℕ) (alloc : ℕ → ℕ)
    (strcmp : Key → Key → ℤ) (Represents : T → List (Key × ℕ) → List ℕ → Type 0)
    (table : IsTable ops strcmp Represents) (pool : IsPool alloc) where
  -- the state of the loop: the table holds `l`, whose objects are filled in
  record Holds (s : Build T) (l : List (Key × ℕ)) : Type 0 where
    used : List ℕ
    represents : Represents s.table l used
    entries : All (Kept inet_addr alloc s.store s.requests) l
    old : All (IsOld alloc s.requests) used

  abbrev after_host : Key → ℕ → List (Key × ℕ) → List (Key × ℕ)
  after_host w n l = if is_some (lookup strcmp w l) then l else insert strcmp w (alloc n) l

  add_host-Holds :
      (w : Key) (s : Build T) (l : List (Key × ℕ))
      → inet_addr w ≢ inaddr_none
      → Holds s l
      → (s' : Build T) × (add_host ops isspace inet_addr alloc w (inet_addr w) s ≡ some s')
        × Holds s' (after_host w s.requests l)
        × (s'.requests ≡ s.requests + 3)
  unfolding add_host
  add_host-Holds w s l valid h =
      let n = s.requests in
      let granted : ((alloc n == 0) || (alloc (n + 1) == 0) || (alloc (n + 2) == 0)) ≡ false =
        ground (arith, pool.nonnull n, pool.nonnull (n + 1), pool.nonnull (n + 2)) in
      let st = put s.store (alloc n) (inet_addr w) in
      let kept =
        All-imp (λ host. Kept-put inet_addr alloc s.store n (inet_addr w) host pool) l h.entries in
      let older = All-imp (IsOld-mono alloc n 3) h.used h.old in
      let unused = not-mem_of_All (alloc (n + 1)) h.used (All-imp (λ a. old_ne n a) h.used h.old) in
      elim (Option-cases (lookup strcmp w l)) [
        | inl new ↦
            let (t, run, rep) =
              table.add_new s.table l h.used (alloc (n + 1)) w (alloc n) h.represents
                (pool.nonnull (n + 1)) (pool.aligned (n + 1)) unused new in
            (
              record { table = t; store = st; requests = n + 3 },
              rw (granted, run),
              rw new (record {
                used = alloc (n + 1) ∷ h.used;
                represents = rep;
                entries =
                    All-insert strcmp (Kept inet_addr alloc st (n + 3)) w (alloc n) l
                      (
                        record { valid = valid; filled = put_self s.store (alloc n) (inet_addr w) },
                        (n, omega arith, refl),
                      )
                      kept;
                old = ((n + 1, omega arith, refl), older);
              }),
              refl,
            )
        | inr (v, known) ↦
            let (t, run, rep) =
              table.add_known s.table l h.used (alloc (n + 1)) w (alloc n) v h.represents unused
                known in
            (
              record { table = t; store = st; requests = n + 3 },
              rw (granted, run),
              rw known (record { used = h.used; represents = rep; entries = kept; old = older }),
              refl,
            )
      ]
    where
      old_ne : (n a : ℕ) → IsOld alloc n a → a ≢ alloc (n + 1)
      old_ne n a (m, lt, e) same =
          ne_of_lt m (n + 1) (omega arith) (pool.distinct m (n + 1) (e ∙ same))

  abbrev next_request : Key → ℕ → ℕ
  next_request w n = if is_ignored isspace inet_addr alloc strcmp w then n else n + 3

  add_line-Holds :
      (t : List ℕ × List ℕ) (s : Build T) (l : List (Key × ℕ))
      → IsText t
      → Holds s l
      → let w = word isspace t.0 in
        let skip = is_ignored isspace inet_addr alloc strcmp w in
        (s' : Build T) × (add_line ops isspace inet_addr alloc (buffer t) s ≡ some s')
        × Holds s' (
            if skip || is_some (lookup strcmp w l) then l else insert strcmp w (alloc s.requests) l)
        × (s'.requests ≡ next_request w s.requests)
  unfolding add_line
  add_line-Holds t s l text h =
      let (at, buf, run, same, size) = strip-word isspace t.0 t.1 text in
      let w = word isspace t.0 in
      elim (Bool-cases (is_blank w)) [
        | inl blank ↦ (s, rw (run, same, blank), rw blank h, rw blank)
        | inr some_word ↦ elim (Bool-cases (inet_addr w == inaddr_none)) [
          | inl invalid ↦ (
            s,
            rw (run, same, some_word, invalid),
            rw (some_word, invalid) h,
            rw (some_word, invalid),
          )
          | inr valid ↦
              let (s', run', h', n) = add_host-Holds w s l (ground arith) h in
              (
                s',
                rw (run, same, some_word, valid) run',
                rw (some_word, valid) h',
                rw (some_word, valid) n,
              )
        ]
      ]

  add_lines-Holds :
      (lines : List (List ℕ × List ℕ)) (s : Build T) (l : List (Key × ℕ))
      → All IsText lines
      → Holds s l
      → (s' : Build T) × (add_lines ops isspace inet_addr alloc (map buffer lines) s ≡ some s')
        × Holds s' (hosts isspace inet_addr alloc strcmp lines s.requests l)
  unfolding add_lines hosts
  add_lines-Holds [] s l texts h = (s, refl, h)
  add_lines-Holds (t ∷ lines) s l texts h =
      let (s', run, h', n) = add_line-Holds t s l texts.0 h in
      let (s'', run', h'') = add_lines-Holds lines s' _ texts.1 h' in
      (s'', rw run run', rw n at h'')

  -- For a table that meets its contract, and a pool that has memory: `result_new` returns 0 for every
  -- input of C strings. Its table holds the hosts of the lines: of each line the first word, if it is
  -- an address, in the table's order, a repeated word once; and every host's object is filled with
  -- the address that its key stands for and with probes that have no stamp.
  pub result_new-hosts :
      (lines : List (List ℕ × List ℕ)) (st : Store)
      → All IsText lines
      → let hs = hosts isspace inet_addr alloc strcmp lines 1 [] in
        (s : Build T) × (result_new ops isspace inet_addr alloc true true (map buffer lines) st
          ≡ some (pos 0, some s))
        × ((used : List ℕ) × Represents s.table hs used)
        × All (IsEntry inet_addr s.store) hs
  unfolding result_new
  result_new-hosts lines st texts =
      let start : Build T = record { table = ops.init; store = st; requests = 1 } in
      let (s, run, h) =
        add_lines-Holds lines start [] texts
          (record { used = []; represents = table.init_empty; entries = tt; old = tt }) in
      let granted : (alloc 0 == 0) ≡ false = ground (arith, pool.nonnull 0) in
      (s, rw (granted, run), (h.used, h.represents), All-imp (λ host k. k.0) _ h.entries)
