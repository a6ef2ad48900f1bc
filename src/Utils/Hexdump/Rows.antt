-- ===== src/Utils/Hexdump/Rows.antt =====
-- The rows that `format_line` fills in.
use fping.Base.{
  ℕ, ◌+◌, ◌-◌, ◌*◌, ◌%◌, ◌^◌, ◌≤◌, ◌≡◌, refl, ◌∙◌, ◌==◌, if◌then◌else◌, some, List, [], ◌++◌, map,
  length, replicate, All, arith, lt→ltb, length-append, length-map, length-replicate, Bool-cases,
  inl, inr,
}
use fping.Host.{Byte}
use fping.Utils.Hexdump.{blank_last, shown, format_line}
use fping.Utils.Hexdump.Columns.{
  value, read_hex, HexColumns, columns-HexColumns, blank_last-HexColumns, columns, read_hex-columns,
  length-columns, hex_loop-columns, pad-replicate, text_loop-shown, read_hex-blank_last,
  length-blank_last,
}

-- A row of at most 16 bytes: a column of two hexadecimal digits for each byte, whose value they have,
-- blanks, and a character for each byte.
unfoldable pub IsRow : List ℕ → List ℕ → Type 0
unfolding read_hex value HexColumns
IsRow bytes row =
    (columns : List ℕ) × (length columns ≡ 3 * length bytes)
    × HexColumns (length bytes) columns
    × (read_hex (length bytes) columns ≡ bytes)
    × (row ≡ columns ++ replicate (3 * (17 - length bytes)) b' ' ++ map shown bytes)

wrapped : (n : ℕ) → n ≤ 16 → (2 ^ 64 - n % 2 ^ 64 + 17) % 2 ^ 64 ≡ 17 - n
wrapped n h = omega arith

-- the columns of a row, behind the test on `len`
columns-IsRead :
    (cs : List ℕ)
    → All Byte cs
    → let hex = if length cs == 8 then blank_last (columns 0 cs) else columns 0 cs in
      (length hex ≡ 3 * length cs) × HexColumns (length cs) hex × (read_hex (length cs) hex ≡ cs)
columns-IsRead cs bytes = elim (Bool-cases (length cs == 8)) [
  | inl e ↦ rw e (
    length-blank_last (columns 0 cs) ∙ length-columns 0 cs,
    blank_last-HexColumns (length cs) (columns 0 cs) (columns-HexColumns 0 cs bytes),
    read_hex-blank_last (length cs) (columns 0 cs) (length-columns 0 cs)
        ∙ read_hex-columns 0 cs bytes,
  )
  | inr e ↦ rw e (length-columns 0 cs, columns-HexColumns 0 cs bytes, read_hex-columns 0 cs bytes)
]

pub format_line-IsRow :
    (cs back mem : List ℕ)
    → All Byte cs
    → mem ≡ cs ++ back
    → length cs ≤ 16
    → (row : List ℕ) × (format_line mem (length cs) ≡ some row) × IsRow cs row
unfolding format_line IsRow
format_line-IsRow cs back mem bytes e le =
    let hex = if length cs == 8 then blank_last (columns 0 cs) else columns 0 cs in
    let (size, hexes, reads) = columns-IsRead cs bytes in
    let blanks : List ℕ = replicate (3 * (17 - length cs)) b' ' in
    let behind : length (hex ++ blanks) ≡ 51 =
      length-append hex blanks
      ∙ (rw (size, length-replicate {A = ℕ} (3 * (17 - length cs)) b' ') (omega arith)) in
    let whole : length (hex ++ blanks ++ map shown cs) ≡ 51 + length cs =
      length-append (hex ++ blanks) (map shown cs) ∙ (rw (behind, length-map shown cs) refl) in
    (
      hex ++ blanks ++ map shown cs,
      rw
          (
            hex_loop-columns cs back 0 mem [] bytes e (omega arith),
            wrapped (length cs) le,
            pad-replicate (17 - length cs) hex (omega arith),
            text_loop-shown cs back 0 mem (hex ++ blanks) e (omega arith),
            lt→ltb (length (hex ++ blanks ++ map shown cs)) 128 (omega arith),
          )
          refl,
      (hex, size, hexes, reads, refl),
    )
