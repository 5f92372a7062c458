-- ===== src/Base/Words.antt =====
-- Little-endian words of 16 and 32 bits: `to_le_bytes` and `from_le_bytes`. A signed word of the
-- program stands for its bit pattern.
use Prim.Native.Nat.{ℕ, ◌+◌, ◌*◌, ◌/◌, ◌%◌, ◌<◌}
use mathlib.Core.Path.{◌≡◌}
use mathlib.Core.List.{[], ◌∷◌, ◌++◌}
use native.Mathlib.Omega.{arith}
use btrm.Base.Logic.{Bytes}
use btrm.Base.Lists.{length, get_or}
use btrm.Base.Slices.{get_or-append_right}

abbrev pub IsByte : ℕ → Type 0
IsByte b = b < 256

abbrev pub IsU16 : ℕ → Type 0
IsU16 n = n < 65536

abbrev pub IsU32 : ℕ → Type 0
IsU32 n = n < 4294967296

abbrev pub u16_to_le : ℕ → Bytes
u16_to_le n = (n % 256) ∷ (n / 256 % 256) ∷ []

abbrev pub u32_to_le : ℕ → Bytes
u32_to_le n = (n % 256) ∷ (n / 256 % 256) ∷ (n / 65536 % 256) ∷ (n / 16777216 % 256) ∷ []

abbrev pub u16_from_le : ℕ → ℕ → ℕ
u16_from_le a b = a + 256 * b

abbrev pub u32_from_le : ℕ → ℕ → ℕ → ℕ → ℕ
u32_from_le a b c d = a + 256 * b + 65536 * c + 16777216 * d

-- `data[i]`
abbrev pub byte_at : Bytes → ℕ → ℕ
byte_at xs i = get_or xs i 0

-- `u16::from_le_bytes([data[off], data[off + 1]])`
unfoldable pub u16_at : Bytes → ℕ → ℕ
u16_at xs off = u16_from_le (byte_at xs off) (byte_at xs (off + 1))

-- `u32::from_le_bytes([data[off], .., data[off + 3]])`
unfoldable pub u32_at : Bytes → ℕ → ℕ
u32_at xs off =
    u32_from_le (byte_at xs off) (byte_at xs (off + 1)) (byte_at xs (off + 2))
      (byte_at xs (off + 3))

pub u16_from_le-u16_to_le : (n : ℕ) → IsU16 n → u16_from_le (n % 256) (n / 256 % 256) ≡ n
u16_from_le-u16_to_le n h = omega arith

pub u32_from_le-u32_to_le :
    (n : ℕ)
    → IsU32 n
    → u32_from_le (n % 256) (n / 256 % 256) (n / 65536 % 256) (n / 16777216 % 256) ≡ n
u32_from_le-u32_to_le n h = omega arith

-- A word written at the end of `front`, with anything behind it, is read back there.
pub u16_at-append :
    (front : Bytes) (n : ℕ) (rest : Bytes)
    → IsU16 n
    → u16_at (front ++ (u16_to_le n ++ rest)) (length front) ≡ n
unfolding u16_at
u16_at-append front n rest h = omega (
  arith,
  get_or-append_right front (u16_to_le n ++ rest) (length front) 0 0 (omega arith),
  get_or-append_right front (u16_to_le n ++ rest) (length front + 1) 1 0 (omega arith),
)

pub u32_at-append :
    (front : Bytes) (n : ℕ) (rest : Bytes)
    → IsU32 n
    → u32_at (front ++ (u32_to_le n ++ rest)) (length front) ≡ n
unfolding u32_at
u32_at-append front n rest h = omega (
  arith,
  get_or-append_right front (u32_to_le n ++ rest) (length front) 0 0 (omega arith),
  get_or-append_right front (u32_to_le n ++ rest) (length front + 1) 1 0 (omega arith),
  get_or-append_right front (u32_to_le n ++ rest) (length front + 2) 2 0 (omega arith),
  get_or-append_right front (u32_to_le n ++ rest) (length front + 3) 3 0 (omega arith),
)

-- Reads past `front` shift into what follows it.
pub u16_at-append_right :
    (front rest : Bytes) (k : ℕ) → u16_at (front ++ rest) (length front + k) ≡ u16_at rest k
unfolding u16_at
u16_at-append_right front rest k = omega (
  arith,
  get_or-append_right front rest (length front + k) k 0 (omega arith),
  get_or-append_right front rest (length front + k + 1) (k + 1) 0 (omega arith),
)

pub u32_at-append_right :
    (front rest : Bytes) (k : ℕ) → u32_at (front ++ rest) (length front + k) ≡ u32_at rest k
unfolding u32_at
u32_at-append_right front rest k = omega (
  arith,
  get_or-append_right front rest (length front + k) k 0 (omega arith),
  get_or-append_right front rest (length front + k + 1) (k + 1) 0 (omega arith),
  get_or-append_right front rest (length front + k + 2) (k + 2) 0 (omega arith),
  get_or-append_right front rest (length front + k + 3) (k + 3) 0 (omega arith),
)
