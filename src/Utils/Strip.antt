-- ===== src/Utils/Strip.antt =====
-- `strip` of utils.c, on the bytes of the buffer that its argument points to. `none` is a read behind
-- the buffer. `isspace` is a parameter, as a function of the byte; the source passes it the `char`, which
-- is negative for a byte from 128 on where `char` is signed.
pub mod Word
use fping.Base.{
  ℕ, suc, ◌≡◌, Bool, true, false, ◌==◌, if◌then◌else◌, Option, none, some, List, [], ◌∷◌, ◌++◌,
  take, drop, ◌>>=◌,
}

-- the C string at the front of a piece of memory: the bytes before the first NUL
unfoldable pub string : List ℕ → List ℕ
string [] = []
string (c ∷ buf) = if c == 0 then [] else c ∷ string buf

module _ (isspace : ℕ → Bool) where
  -- the first loop: how far `p` runs over white space
  unfoldable pub skip : List ℕ → Option ℕ
  skip [] = none
  skip (c ∷ p) =
      let next = (do n ← skip p; some (suc n)) in
      if c == 0 then some 0 else if isspace c then next else some 0

  -- the second loop: a NUL over the first white space, if there is any
  unfoldable pub cut : List ℕ → Option (List ℕ)
  cut [] = none
  cut (c ∷ p) =
      let next = (do q ← cut p; some (c ∷ q)) in
      if c == 0 then some (c ∷ p) else if isspace c then some (0 ∷ p) else next

  -- the offset of the result in the buffer, and the buffer
  unfoldable pub strip : List ℕ → Option (ℕ × List ℕ)
  unfolding skip cut
  strip buf = do s ← skip buf; p ← cut (drop s buf); some (s, take s buf ++ p)
