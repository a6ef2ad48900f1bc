-- ===== src/Utils/Hexdump/Columns.antt =====
-- The loops of `format_line`: what each appends to the line.
use fping.Base.{
  ℕ, zero, suc, ◌+◌, ◌-◌, ◌*◌, ◌/◌, ◌%◌, ◌^◌, ◌<◌, ◌≤◌, ◌≡◌, refl, sym, ap, ◌∙◌, Bool, true, ◌&&◌,
  ◌||◌, leb, ltb, ◌==◌, if◌then◌else◌, some, List, [], ◌∷◌, ◌++◌, map, get_elem?, drop, length,
  replicate, All, arith, lt→ltb, get_elem?-drop, length-append,
}
use mathlib.Core.List.{append_assoc, append-nil}
use fping.Host.{Byte}
use fping.Utils.Hexdump.{hexbase, put_char, hex_loop, blank_last, pad, shown, text_loop}

-- the byte that a hexadecimal digit stands for
unfoldable pub value : ℕ → ℕ
value h = if ltb h b':' then h - b'0' else h - b'A' + 10

-- The bytes that a row shows in its first columns, three characters each.
unfoldable pub read_hex : ℕ → List ℕ → List ℕ
read_hex (suc n) (high ∷ low ∷ _ ∷ row) = (value high * 16 + value low) ∷ read_hex n row
read_hex _ row = []

-- one of '0' to '9' and 'A' to 'F'
abbrev pub is_hex : ℕ → Bool
is_hex c = (leb b'0' c && leb c b'9') || (leb b'A' c && leb c b'F')

abbrev pub is_gap : ℕ → Bool
is_gap c = (c == b' ') || (c == b'-')

-- So many columns of three characters, and nothing behind them: two hexadecimal digits, and a blank or
-- a dash.
unfoldable pub HexColumns : ℕ → List ℕ → Type 0
HexColumns zero row = row ≡ []
HexColumns (suc n) (high ∷ low ∷ gap ∷ row) =
    (is_hex high ≡ true) × (is_hex low ≡ true) × (is_gap gap ≡ true) × HexColumns n row
HexColumns (suc n) row = ⊥

digit : ℕ → ℕ
digit d = if ltb d 10 then b'0' + d else b'7' + d

pub columns : ℕ → List ℕ → List ℕ
columns j [] = []
columns j (c ∷ cs) =
    digit (c / 2 ^ 4) ∷ digit (c % 2 ^ 4) ∷ (if j == 7 then b'-' else b' ') ∷ columns (j + 1) cs

value-digit : (d : ℕ) → d < 16 → value (digit d) ≡ d
unfolding value digit
value-digit d h = ground arith

is_hex-digit : (d : ℕ) → d < 16 → is_hex (digit d) ≡ true
unfolding digit
is_hex-digit d h = ground arith

digits : ℕ → ℕ → List ℕ
digits zero d = []
digits (suc n) d = digit d ∷ digits n (suc d)

get_elem?-digits : (n d i : ℕ) → i < n → get_elem? (digits n d) i ≡ some (digit (d + i))
unfolding digits
get_elem?-digits zero d i h = absurd (omega arith)
get_elem?-digits (suc n) d zero h = ap (λ x. some (digit x)) (omega arith)
get_elem?-digits (suc n) d (suc i) h =
    get_elem?-digits n (suc d) i (omega arith) ∙ ap (λ x. some (digit x)) (omega arith)

hexbase-digits : hexbase ≡ digits 16 0
unfolding digits digit
hexbase-digits = refl

get_elem?-hexbase : (d : ℕ) → d < 16 → get_elem? hexbase d ≡ some (digit d)
get_elem?-hexbase d h =
    ap (λ l. get_elem? l d) hexbase-digits
    ∙ get_elem?-digits 16 0 d h
    ∙ ap (λ x. some (digit x)) (omega arith)

put_char-some :
    (c : ℕ) (line : List ℕ) → length line < 128 → put_char c line ≡ some (line ++ c ∷ [])
unfolding put_char
put_char-some c line h = rw (lt→ltb (length line) 128 h)

pub read_hex-columns :
    (j : ℕ) (cs : List ℕ) → All Byte cs → read_hex (length cs) (columns j cs) ≡ cs
unfolding read_hex columns
read_hex-columns j [] h = refl
read_hex-columns j (c ∷ cs) h =
    let hb : c < 256 = h.0 in
    rw
      (
        value-digit (c / 2 ^ 4) (omega arith),
        value-digit (c % 2 ^ 4) (omega arith),
        read_hex-columns (j + 1) cs h.1,
      )
      (ap (λ x. x ∷ cs) (omega arith))

pub columns-HexColumns : (j : ℕ) (cs : List ℕ) → All Byte cs → HexColumns (length cs) (columns j cs)
unfolding HexColumns columns
columns-HexColumns j [] h = refl
columns-HexColumns j (c ∷ cs) h =
    let hb : c < 256 = h.0 in
    (
      is_hex-digit (c / 2 ^ 4) (omega arith),
      is_hex-digit (c % 2 ^ 4) (omega arith),
      ground arith,
      columns-HexColumns (j + 1) cs h.1,
    )

pub length-columns : (j : ℕ) (cs : List ℕ) → length (columns j cs) ≡ 3 * length cs
unfolding columns
length-columns j [] = refl
length-columns j (c ∷ cs) = omega (arith, length-columns (j + 1) cs)

put_char-append :
    (front : List ℕ) (c : ℕ) (line : List ℕ)
    → length line + length front < 128
    → put_char c (line ++ front) ≡ some (line ++ (front ++ c ∷ []))
put_char-append front c line h =
    put_char-some c (line ++ front) (rw (length-append line front) h)
    ∙ ap some (append_assoc line front (c ∷ []))

pub hex_loop-columns :
    (cs back : List ℕ) (j : ℕ) (mem line : List ℕ)
    → All Byte cs
    → drop j mem ≡ cs ++ back
    → length line + 3 * length cs ≤ 128
    → hex_loop (length cs) j mem line ≡ some (line ++ columns j cs)
unfolding hex_loop columns
hex_loop-columns [] back j mem line bytes e room = ap some (sym (append-nil line))
hex_loop-columns (c ∷ cs) back j mem line bytes e room =
    let byte : c < 256 = bytes.0 in
    let (here, next) = get_elem?-drop mem j c (cs ++ back) e in
    let a = digit (c / 2 ^ 4) in
    let b = digit (c % 2 ^ 4) in
    let sep : ℕ = if j == 7 then b'-' else b' ' in
    rw
      (
        here,
        get_elem?-hexbase (c / 2 ^ 4) (omega arith),
        get_elem?-hexbase (c % 2 ^ 4) (omega arith),
        put_char-some a line (omega arith),
        put_char-append (a ∷ []) b line (omega arith),
        put_char-append (a ∷ b ∷ []) sep line (omega arith),
      )
      (hex_loop-columns cs back (j + 1) mem (line ++ a ∷ b ∷ sep ∷ []) bytes.1
          (ap (λ i. drop i mem) {y = suc j} (omega arith) ∙ next)
          (rw (length-append line (a ∷ b ∷ sep ∷ [])) (omega arith))
        ∙ ap some (append_assoc line (a ∷ b ∷ sep ∷ []) (columns (j + 1) cs)))

pub pad-replicate :
    (n : ℕ) (line : List ℕ)
    → length line + 3 * n ≤ 128
    → pad n line ≡ some (line ++ replicate (3 * n) b' ')
unfolding pad
pad-replicate zero line room = ap some (sym (append-nil line))
pad-replicate (suc n) line room =
    let blanks : List ℕ = b' ' ∷ b' ' ∷ b' ' ∷ [] in
    let three : 3 * suc n ≡ suc (suc (suc (3 * n))) = omega arith in
    rw
      (
        three,
        put_char-some b' ' line (omega arith),
        put_char-append (b' ' ∷ []) b' ' line (omega arith),
        put_char-append (b' ' ∷ b' ' ∷ []) b' ' line (omega arith),
      )
      (pad-replicate n (line ++ blanks) (rw (length-append line blanks) (omega arith))
        ∙ ap some (append_assoc line blanks (replicate (3 * n) b' ')))

pub text_loop-shown :
    (cs back : List ℕ) (j : ℕ) (mem line : List ℕ)
    → drop j mem ≡ cs ++ back
    → length line + length cs ≤ 128
    → text_loop (length cs) j mem line ≡ some (line ++ map shown cs)
unfolding text_loop
text_loop-shown [] back j mem line e room = ap some (sym (append-nil line))
text_loop-shown (c ∷ cs) back j mem line e room =
    let (here, next) = get_elem?-drop mem j c (cs ++ back) e in
    rw (here, put_char-some (shown c) line (omega arith))
      (text_loop-shown cs back (j + 1) mem (line ++ shown c ∷ [])
          (ap (λ i. drop i mem) {y = suc j} (omega arith) ∙ next)
          (rw (length-append line (shown c ∷ [])) (omega arith))
        ∙ ap some (append_assoc line (shown c ∷ []) (map shown cs)))

-- the last separator does not matter to the reader
pub read_hex-blank_last :
    (n : ℕ) (row : List ℕ) → length row ≡ 3 * n → read_hex n (blank_last row) ≡ read_hex n row
unfolding read_hex blank_last
read_hex-blank_last zero row e = refl
read_hex-blank_last (suc n) [] e = refl
read_hex-blank_last (suc n) (a ∷ []) e = absurd (omega arith)
read_hex-blank_last (suc n) (a ∷ b ∷ []) e = absurd (omega arith)
read_hex-blank_last (suc zero) (a ∷ b ∷ c ∷ []) e = refl
read_hex-blank_last (suc (suc n)) (a ∷ b ∷ c ∷ []) e = absurd (omega arith)
read_hex-blank_last (suc n) (a ∷ b ∷ c ∷ d ∷ row) e =
    ap (λ l. (value a * 16 + value b) ∷ l) (read_hex-blank_last n (d ∷ row) (omega arith))

pub blank_last-HexColumns :
    (n : ℕ) (row : List ℕ) → HexColumns n row → HexColumns n (blank_last row)
unfolding HexColumns blank_last
blank_last-HexColumns zero row h = rw h refl
blank_last-HexColumns (suc n) [] h = h
blank_last-HexColumns (suc n) (a ∷ []) h = absurd h
blank_last-HexColumns (suc n) (a ∷ b ∷ []) h = absurd h
blank_last-HexColumns (suc zero) (a ∷ b ∷ c ∷ []) h = (h.0, h.1, refl, refl)
blank_last-HexColumns (suc (suc n)) (a ∷ b ∷ c ∷ []) h = absurd h.3
blank_last-HexColumns (suc n) (a ∷ b ∷ c ∷ d ∷ row) h =
    (h.0, h.1, h.2, blank_last-HexColumns n (d ∷ row) h.3)

pub length-blank_last : (row : List ℕ) → length (blank_last row) ≡ length row
unfolding blank_last
length-blank_last [] = refl
length-blank_last (a ∷ []) = refl
length-blank_last (a ∷ b ∷ row) = omega (arith, length-blank_last (b ∷ row))
