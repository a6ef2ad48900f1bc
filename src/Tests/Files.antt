-- ===== src/Tests/Files.antt =====
-- `map_file` and `read_file` at concrete inputs.
use fping.Base.{
  ℕ, suc, ◌≤◌, ◌≡◌, ◌⊎◌, subst, zero, true, some, List, [], ◌∷◌, take, length, pos, arith,
}
use fping.Utils.Files.{Calls, map_file, read_file}
use fping.Utils.Files.Held.{IsFailure, IsMapped, IsRead, map_file-Held, read_file-Held}

abbrev text : List ℕ
text = b'h' ∷ b'i' ∷ []

abbrev calls : Calls
calls = record {
  fd = pos 3;
  stat = true;
  size = 2;
  mmap = λ n. some (take n text);
  malloc = λ n. true;
  read = λ n. some (take n text);
}

take_le : (n : ℕ) (xs : List ℕ) → length (take n xs) ≤ n
take_le zero xs = omega arith
take_le (suc n) [] = omega arith
take_le (suc n) (x ∷ xs) = omega (arith, take_le n xs)

take-short : (n : ℕ) (xs bytes : List ℕ) → some (take n xs) ≡ some bytes → length bytes ≤ n
take-short n xs bytes e =
    let same : take n xs ≡ bytes = cc in subst (λ l. length l ≤ n) same (take_le n xs)

map_file-Held_example : IsFailure (map_file calls) ⊎ IsMapped calls (map_file calls)
map_file-Held_example = map_file-Held calls

read_file-Held_example : IsFailure (read_file calls) ⊎ IsRead calls (read_file calls)
read_file-Held_example = read_file-Held calls (λ n bytes e. take-short n text bytes e)
