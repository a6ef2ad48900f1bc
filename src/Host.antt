-- ===== src/Host.antt =====
-- The machine that the program runs on, a parameter of the development: how a 16-bit value lies in
-- memory, and `htons` and `ntohs` of arpa/inet.h.
use fping.Base.{ℕ, ◌+◌, ◌*◌, ◌/◌, ◌%◌, ◌^◌, ◌<◌, ◌≡◌, arith, sym, ◌∙◌}
use mathlib.Core.Path.{ap₂}

abbrev pub Byte : ℕ → Type 0
Byte b = b < 2 ^ 8

pub record Host : Type 0 where
  -- the value of a `uint16_t` that is loaded from two bytes of memory, in address order
  pub load16 : ℕ → ℕ → ℕ
  -- the two bytes that a store of a `uint16_t` leaves in memory
  pub first : ℕ → ℕ
  pub second : ℕ → ℕ
  pub htons : ℕ → ℕ
  pub ntohs : ℕ → ℕ

-- What the C standard and POSIX say of them: a store is read back, and network order is big endian.
pub record IsHost (m : Host) : Type 0 where
  pub load16-lt : (a b : ℕ) → Byte a → Byte b → m.load16 a b < 2 ^ 16
  pub load16-store : (v : ℕ) → v < 2 ^ 16 → m.load16 (m.first v) (m.second v) ≡ v
  pub first_zero : m.first 0 ≡ 0
  pub second_zero : m.second 0 ≡ 0
  pub first-lt : (v : ℕ) → v < 2 ^ 16 → Byte (m.first v)
  pub second-lt : (v : ℕ) → v < 2 ^ 16 → Byte (m.second v)
  pub htons-lt : (v : ℕ) → v < 2 ^ 16 → m.htons v < 2 ^ 16
  pub first-htons : (v : ℕ) → v < 2 ^ 16 → m.first (m.htons v) ≡ v / 2 ^ 8
  pub second-htons : (v : ℕ) → v < 2 ^ 16 → m.second (m.htons v) ≡ v % 2 ^ 8
  pub ntohs-load16 : (a b : ℕ) → Byte a → Byte b → m.ntohs (m.load16 a b) ≡ a * 2 ^ 8 + b

pub load16_zero : {m : Host} → IsHost m → m.load16 0 0 ≡ 0
load16_zero {m} is =
    ap₂ m.load16 (sym is.first_zero) (sym is.second_zero) ∙ is.load16-store 0 (omega arith)

-- The two byte orders, with which the witnesses run.
abbrev swap_bytes : ℕ → ℕ
swap_bytes v = v % 2 ^ 8 * 2 ^ 8 + v / 2 ^ 8

abbrev pub little : Host
little = record {
  load16 = λ a b. b * 2 ^ 8 + a;
  first = λ v. v % 2 ^ 8;
  second = λ v. v / 2 ^ 8;
  htons = swap_bytes;
  ntohs = swap_bytes;
}

abbrev pub big : Host
big = record {
  load16 = λ a b. a * 2 ^ 8 + b;
  first = λ v. v / 2 ^ 8;
  second = λ v. v % 2 ^ 8;
  htons = λ v. v;
  ntohs = λ v. v;
}

pub little-IsHost : IsHost little
little-IsHost = omega arith

pub big-IsHost : IsHost big
big-IsHost = omega arith
