-- ===== src/Tests/Dump.antt =====
-- `hexdump` at concrete inputs.
use fping.Base.{ℕ, ◌≡◌, arith, true, some, List, [], ◌∷◌, pos}
use fping.Utils.Hexdump.{hexdump}
use fping.Utils.Hexdump.Dump.{IsDump, hexdump-IsDump}

abbrev memory : List ℕ
memory = 0 ∷ b'A' ∷ 10 ∷ 255 ∷ 7 ∷ []

hexdump-IsDump_example :
    (rows : List (ℕ × List ℕ)) × (hexdump true memory (pos 1) (pos 3) ≡ some rows)
    × IsDump 0 (b'A' ∷ 10 ∷ 255 ∷ []) rows
hexdump-IsDump_example =
    hexdump-IsDump (0 ∷ []) (b'A' ∷ 10 ∷ 255 ∷ []) (7 ∷ [])
      (omega arith, (omega arith, (omega arith, tt))) (omega arith)
