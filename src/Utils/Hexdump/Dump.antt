-- ===== src/Utils/Hexdump/Dump.antt =====
-- What `hexdump` prints, row by row.
use fping.Base.{
  ℕ, zero, suc, ◌+◌, ◌-◌, ◌*◌, ◌/◌, ◌<◌, ◌≤◌, ◌≡◌, refl, sym, ap, ◌∙◌, subst, true, leb, some, List,
  [], ◌∷◌, ◌++◌, take, drop, length, All, pos, arith, length-take_le, drop-take, drop_add,
  drop-length, length-drop, take-append-drop, All-take, All-drop,
}
use mathlib.Core.List.{append_assoc}
use fping.Host.{Byte}
use fping.Utils.Hexdump.{format_line, dump_loop, hexdump}
use fping.Utils.Hexdump.Rows.{IsRow, format_line-IsRow}

-- Rows from offset `i` on: sixteen bytes each, and a last one of fewer bytes, which may have none.
pub data IsDump : ℕ → List ℕ → List (ℕ × List ℕ) → Type 0 where
  last :
      (i : ℕ) (bytes row : List ℕ)
      → length bytes < 16
      → IsRow bytes row
      → IsDump i bytes ((i, row) ∷ [])
  next :
      (i : ℕ) (chunk rest row : List ℕ) (rows : List (ℕ × List ℕ))
      → length chunk ≡ 16
      → IsRow chunk row
      → IsDump (i + 16) rest rows
      → IsDump i (chunk ++ rest) ((i, row) ∷ rows)

dump_loop-IsDump :
    (k i : ℕ) (bytes back mem : List ℕ)
    → All Byte bytes
    → drop i mem ≡ bytes ++ back
    → 16 * k ≤ length bytes
    → length bytes < 16 * k + 16
    → (rows : List (ℕ × List ℕ)) × (dump_loop k i (i + length bytes) mem ≡ some rows)
      × IsDump i bytes rows
unfolding dump_loop
dump_loop-IsDump zero i bytes back mem hb e ge lt =
    let (row, run, shows) = format_line-IsRow bytes back (drop i mem) hb e (omega arith) in
    let inside : leb i (i + length bytes) ≡ true = ground arith in
    let left : i + length bytes - i ≡ length bytes = omega arith in
    ((i, row) ∷ [], rw (inside, left, run) refl, last i bytes row (omega arith) shows)
dump_loop-IsDump (suc k) i bytes back mem hb e ge lt =
    let chunk = take 16 bytes in
    let rest = drop 16 bytes in
    let size : length chunk ≡ 16 = length-take_le 16 bytes (omega arith) in
    let left : length rest ≡ length bytes - 16 = length-drop 16 bytes in
    let split : bytes ≡ chunk ++ rest = sym (take-append-drop 16 bytes) in
    let front : drop i mem ≡ chunk ++ (rest ++ back) =
      e ∙ ap (λ l. l ++ back) split ∙ append_assoc chunk rest back in
    let (row, run, shows) =
      format_line-IsRow chunk (rest ++ back) (drop i mem) (All-take Byte 16 bytes hb) front
        (omega arith) in
    let (rows, runs, dumped) =
      dump_loop-IsDump k (i + 16) rest back mem (All-drop Byte 16 bytes hb)
        (drop_add i 16 mem ∙ ap (drop 16) front ∙ drop-take 16 bytes (rest ++ back) (omega arith))
        (omega arith) (omega arith) in
    let total : i + 16 + length rest ≡ i + length bytes = omega arith in
    (
      (i, row) ∷ rows,
      rw
          (
            ap (λ n. format_line (drop i mem) n) (sym size) ∙ run,
            ap (λ n. dump_loop k (i + 16) n mem) (sym total) ∙ runs,
          )
          refl,
      subst (λ l. IsDump i l ((i, row) ∷ rows)) (sym split)
          (next i chunk rest row rows size shows dumped),
    )

-- Wherever the bytes, at least one, lie in memory: `hexdump` stays inside them and its buffer and prints
-- them all, sixteen to a row, with a last row of the bytes that are left, even where none is; each row
-- has its offset, for each byte two hexadecimal digits that have its value and a blank or a dash,
-- then blanks, and the printable characters among the bytes, with a dot for any other.
pub hexdump-IsDump :
    (front bytes back : List ℕ)
    → All Byte bytes
    → 0 < length bytes
    → (rows : List (ℕ × List ℕ)) × (hexdump true
          (front ++ (bytes ++ back))
          (pos (length front))
          (pos (length bytes))
        ≡ some rows)
      × IsDump 0 bytes rows
unfolding hexdump
hexdump-IsDump front [] back hb some_bytes = absurd (omega arith)
hexdump-IsDump front (b ∷ bytes) back hb some_bytes =
    let n = suc (length bytes) in
    let (rows, runs, dumped) =
      dump_loop-IsDump (n / 16) 0 (b ∷ bytes) back
        (drop (length front) (front ++ (b ∷ bytes ++ back))) hb
        (drop-length front (b ∷ bytes ++ back)) (omega arith) (omega arith) in
    (
      rows,
      ap (λ l. dump_loop (n / 16) 0 l (drop (length front) (front ++ (b ∷ bytes ++ back)))) {x = n}
            {y = 0 + n} (omega arith)
          ∙ runs,
      dumped,
    )
