-- ===== src/Ping/Inspect.antt =====
-- What the body of the waiting loop makes of a datagram in its buffer.
use fping.Base.{
  ℕ, ◌+◌, ◌*◌, ◌%◌, ◌^◌, ◌≡◌, refl, true, false, Bool-cases, inl, inr, ltb, ◌==◌, ◌⊎◌, some, List,
  [], ◌∷◌, length, get_elem?-some, arith, ℤ, pos, ◌+ℤ◌, ◌-ℤ◌, nonzero,
}
use fping.Host.{Host}
use fping.Icmp.{icmp_echoreply, icmp_dest_unreach}
use fping.Icmp.Receive.{load-some}
use fping.Ping.{
  Verdict, inspect, inspect_unreachable, inbuf_size, inner_offset, count, echo_reply, unreachable,
  ids_match,
}

-- A datagram counts only with the line for an echo reply, and then the inner loop is left.
abbrev pub IsVerdict : ℕ → Verdict → Type 0
IsVerdict i v =
    (v.counted ≡ false)
    ⊎ ((v.counted ≡ true) × (v.leaves ≡ ltb i count) × (v.lines ≡ echo_reply ∷ []))

module _ (m : Host) (pid : ℕ) where
  inspect_unreachable_safe :
      (inbuf : List ℕ) (bytes : ℤ) (hlen : ℕ)
      → length inbuf ≡ inbuf_size
      → (v : Verdict) × (inspect_unreachable m pid inbuf bytes hlen ≡ some v) × (v.counted ≡ false)
  unfolding inspect_unreachable
  inspect_unreachable_safe inbuf bytes hlen e =
      let (id, run) = load-some m inbuf (inner_offset + 4) (omega arith) in
      let silent : Verdict = record { lines = unreachable ∷ []; counted = false; leaves = false } in
      elim (Bool-cases (nonzero (bytes +ℤ pos hlen -ℤ pos inner_offset -ℤ pos 8))) [
        | inl other ↦ (silent, rw other refl, refl)
        | inr whole ↦ elim (Bool-cases (m.ntohs id == pid)) [
          | inl same ↦ (
            record { lines = unreachable ∷ ids_match ∷ []; counted = false; leaves = true },
            rw (whole, run, same) refl,
            refl,
          )
          | inr apart ↦ (silent, rw (whole, run, apart) refl, refl)
        ]
      ]

  pub inspect_safe :
      (i : ℕ) (inbuf : List ℕ) (bytes : ℕ)
      → length inbuf ≡ inbuf_size
      → (v : Verdict) × (inspect m pid i inbuf bytes ≡ some v) × IsVerdict i v
  unfolding inspect
  inspect_safe i inbuf bytes e =
      let (w, ew) = get_elem?-some inbuf 0 (omega arith) in
      let hlen : ℕ = w % 2 ^ 4 * 4 in
      let (id, eid) = load-some m inbuf (w % 2 ^ 4 * 4 + 4) (omega arith) in
      let (type, et) = get_elem?-some inbuf (w % 2 ^ 4 * 4) (omega arith) in
      elim (Bool-cases (type == icmp_echoreply)) [
        | inl reply ↦ elim (Bool-cases (m.ntohs id == pid)) [
          | inl same ↦ (
            record { lines = echo_reply ∷ []; counted = true; leaves = ltb i count },
            rw (ew, eid, et, reply, same) refl,
            inr (refl, refl, refl),
          )
          | inr apart ↦ (
            record { lines = echo_reply ∷ []; counted = false; leaves = false },
            rw (ew, eid, et, reply, apart) refl,
            inl refl,
          )
        ]
        | inr other ↦ elim (Bool-cases (type == icmp_dest_unreach)) [
          | inl lost ↦
              let (v, run, quiet) = inspect_unreachable_safe inbuf (pos bytes -ℤ pos hlen) hlen e in
              (v, rw (ew, eid, et, other, lost) run, inl quiet)
          | inr odd ↦ (
            record { lines = []; counted = false; leaves = false },
            rw (ew, eid, et, other, odd) refl,
            inl refl,
          )
        ]
      ]
