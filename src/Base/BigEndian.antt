-- ===== src/Base/BigEndian.antt =====
-- Big-endian words of 16 and 32 bits: `to_be_bytes` and `from_be_bytes`.
use Prim.Native.Nat.{ℕ, ◌+◌, ◌*◌, ◌/◌, ◌%◌}
use mathlib.Core.Path.{◌≡◌}
use mathlib.Core.List.{[], ◌∷◌}
use native.Mathlib.Omega.{arith}
use btrm.Base.Logic.{Bytes}
use btrm.Base.Words.{byte_at, IsU16, IsU32}
use btrm.Base.Holds.{Holds, Holds-tail, Holds-at, byte_at-Holds}

abbrev pub u16_to_be : ℕ → Bytes
u16_to_be n = (n / 256 % 256) ∷ (n % 256) ∷ []

abbrev pub u32_to_be : ℕ → Bytes
u32_to_be n = (n / 16777216 % 256) ∷ (n / 65536 % 256) ∷ (n / 256 % 256) ∷ (n % 256) ∷ []

-- `u16::from_be_bytes([data[off], data[off + 1]])`
unfoldable pub u16_be_at : Bytes → ℕ → ℕ
u16_be_at xs off = 256 * byte_at xs off + byte_at xs (off + 1)

-- `u32::from_be_bytes([data[off], .., data[off + 3]])`
unfoldable pub u32_be_at : Bytes → ℕ → ℕ
u32_be_at xs off =
    16777216 * byte_at xs off
    + 65536 * byte_at xs (off + 1)
    + 256 * byte_at xs (off + 2)
    + byte_at xs (off + 3)

module _ {msg : Bytes} {off : ℕ} where
  pub u16_be_at-Holds : (n : ℕ) → IsU16 n → Holds msg off (u16_to_be n) → u16_be_at msg off ≡ n
  unfolding u16_be_at
  u16_be_at-Holds n b h =
      let h1 = Holds-tail (n / 256 % 256) _ h in
      omega (arith, byte_at-Holds (n / 256 % 256) _ h, byte_at-Holds (n % 256) _ h1)

  pub u32_be_at-Holds : (n : ℕ) → IsU32 n → Holds msg off (u32_to_be n) → u32_be_at msg off ≡ n
  unfolding u32_be_at
  u32_be_at-Holds n b h =
      let h1 = Holds-tail (n / 16777216 % 256) _ h in
      let h2 = Holds-at (off + 2) (omega arith) (Holds-tail (n / 65536 % 256) _ h1) in
      let h3 = Holds-at (off + 3) (omega arith) (Holds-tail (n / 256 % 256) _ h2) in
      omega (
        arith,
        byte_at-Holds (n / 16777216 % 256) _ h,
        byte_at-Holds (n / 65536 % 256) _ h1,
        byte_at-Holds (n / 256 % 256) _ h2,
        byte_at-Holds (n % 256) _ h3,
      )
