-- ===== src/Recv/Outcome.antt =====
-- What is known of a write, and of a reply, that has not faulted.
use fping.Base.{
  ℕ, ◌≡◌, ◌⊎◌, ◌<◌, Option, some, ltb, Bool-cases, Option-cases, inl, inr, arith, modify?-none, sym,
  subst,
}
use fping.Result.{Key, Timeval, PingResult, max_count}
use fping.Recv.{Store, write_result, set_recv, on_reply}
use fping.Recv.Bounds.{IsSized, Changed, write_result-Changed}

write_result-lt :
    (f : PingResult → PingResult) (p i : ℕ) (st st' : Store)
    → IsSized st
    → write_result f p i st ≡ some st'
    → i < max_count
unfolding write_result
write_result-lt f p i st st' sized e = elim (Bool-cases (ltb i max_count)) [
  | inl inside ↦ ground arith
  | inr outside ↦
      let miss = modify?-none f (st p).results i (ground (arith, sized p)) in absurd (ground arith)
]

-- A write that has not faulted is inside the array, and changes one probe.
pub Changed-write_result :
    (f : PingResult → PingResult) (p i : ℕ) (st st' : Store)
    → IsSized st
    → write_result f p i st ≡ some st'
    → (i < max_count) × Changed f p i st st'
Changed-write_result f p i st st' sized e =
    let inside = write_result-lt f p i st st' sized e in
    let (st'', e'', c) = write_result-Changed f p i st sized inside in
    let same : st'' ≡ st' = cc in (inside, subst (λ (x : Store). Changed f p i st x) same c)

module _ (table_get : Key → Option ℕ) (inet_ntoa : ℕ → Key) (count : ℕ) where
  -- A reply that has not faulted was ignored, or has changed one receive stamp of its host.
  pub on_reply-cases :
      (addr seq : ℕ) (tv : Timeval) (st st' : Store)
      → IsSized st
      → on_reply table_get inet_ntoa count addr seq tv st ≡ some st'
      → (st' ≡ st)
        ⊎ ((p : ℕ) × (table_get (inet_ntoa addr) ≡ some p)
            × (seq < max_count)
            × Changed (set_recv tv) p seq st st')
  unfolding on_reply
  on_reply-cases addr seq tv st st' sized e = elim (Bool-cases (ltb count seq)) [
    | inl past ↦ inl (let same : some st' ≡ some st = sym (rw past at e) in cc)
    | inr below ↦ elim (Option-cases (table_get (inet_ntoa addr))) [
      | inl unknown ↦ inl (let same : some st' ≡ some st = sym (rw (below, unknown) at e) in cc)
      | inr (p, found) ↦
          let (inside, c) =
            Changed-write_result (set_recv tv) p seq st st' sized (rw (below, found) at e) in
          inr (p, found, inside, c)
    ]
  ]
