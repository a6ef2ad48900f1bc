-- ===== src/Utils/Hexdump.antt =====
-- `format_line` and `hexdump` of utils.c over the bytes that `data` points to. A line is the bytes in
-- front of `p` in the static buffer; `none` is a read behind the data or a write behind the buffer.
pub mod Columns
pub mod Dump
pub mod Rows
use fping.Base.{
  ℕ, zero, suc, ◌+◌, ◌-◌, ◌*◌, ◌/◌, ◌%◌, ◌^◌, ◌≡◌, ◌&&◌, Bool, true, false, not, ◌||◌, ltb, leb,
  ◌==◌, if◌then◌else◌, Option, none, some, List, [], ◌∷◌, ◌++◌, get_elem?, drop, length, ◌>>=◌, ℤ,
  pos, negsuc, ltb_ℤ,
}

-- `sizeof(line)`
abbrev pub line_size : ℕ
line_size = 128

-- the characters of `hexbase`
abbrev pub hexbase : List ℕ
hexbase =
    b'0' ∷ b'1' ∷ b'2' ∷ b'3' ∷ b'4' ∷ b'5' ∷ b'6' ∷ b'7' ∷ b'8' ∷ b'9' ∷ b'A' ∷ b'B' ∷ b'C' ∷ b'D'
    ∷ b'E' ∷ b'F' ∷ []

-- `*p++ = c`
unfoldable pub put_char : ℕ → List ℕ → Option (List ℕ)
put_char c line = if ltb (length line) line_size then some (line ++ c ∷ []) else none

-- the first loop, from `j` on with the rounds that are left
unfoldable pub hex_loop : ℕ → ℕ → List ℕ → List ℕ → Option (List ℕ)
unfolding put_char
hex_loop zero j mem line = some line
hex_loop (suc n) j mem line = do
  c ← get_elem? mem j
  high ← get_elem? hexbase (c / 2 ^ 4)
  low ← get_elem? hexbase (c % 2 ^ 4)
  line ← put_char high line
  line ← put_char low line
  line ← put_char (if j == 7 then b'-' else b' ') line
  hex_loop n (j + 1) mem line

-- `*(p-1) = ' '`
unfoldable pub blank_last : List ℕ → List ℕ
blank_last [] = []
blank_last (c ∷ []) = b' ' ∷ []
blank_last (c ∷ d ∷ line) = c ∷ blank_last (d ∷ line)

-- the second loop
unfoldable pub pad : ℕ → List ℕ → Option (List ℕ)
unfolding put_char
pad zero line = some line
pad (suc j) line = do
  line ← put_char b' ' line
  line ← put_char b' ' line
  line ← put_char b' ' line
  pad j line

-- the character that stands for a byte at the end of a line
unfoldable pub shown : ℕ → ℕ
shown c = if leb 32 c && leb c 126 then c else b'.'

-- the third loop
unfoldable pub text_loop : ℕ → ℕ → List ℕ → List ℕ → Option (List ℕ)
unfolding put_char shown
text_loop zero j mem line = some line
text_loop (suc n) j mem line = do
  c ← get_elem? mem j
  line ← put_char (shown c) line
  text_loop n (j + 1) mem line

-- `j = 16 - len + 1` wraps around in a `size_t` of 64 bits. The NUL at the end is written too, and
-- ends the string that is returned.
unfoldable pub format_line : List ℕ → ℕ → Option (List ℕ)
unfolding hex_loop pad text_loop
format_line mem len = do
  line ← hex_loop len 0 mem []
  line ← pad ((2 ^ 64 - len % 2 ^ 64 + 17) % 2 ^ 64) (if len == 8 then blank_last line else line)
  line ← text_loop len 0 mem line
  if ltb (length line) line_size then some line else none

-- the loop of `hexdump` from `i` on, with the rounds that are left, and the line behind it; each line
-- with its offset
unfoldable pub dump_loop : ℕ → ℕ → ℕ → List ℕ → Option (List (ℕ × List ℕ))
unfolding format_line
dump_loop zero i datalen mem =
    if leb i datalen
    then (do line ← format_line (drop i mem) (datalen - i); some ((i, line) ∷ []))
    else some []
dump_loop (suc k) i datalen mem = do
  line ← format_line (drop i mem) 16
  rest ← dump_loop k (i + 16) datalen mem
  some ((i, line) ∷ rest)

-- `given` says that `data` is not NULL.
unfoldable pub hexdump : Bool → List ℕ → ℤ → ℤ → Option (List (ℕ × List ℕ))
unfolding dump_loop
hexdump true mem (pos index) (pos (suc len)) = dump_loop (suc len / 16) 0 (suc len) (drop index mem)
hexdump given mem index len = some []
