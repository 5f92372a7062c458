-- ===== src/Base/Bits.antt =====
-- A set of bits packed into bytes: bit `i` is bit `i % 8` of byte `i / 8`.
use Prim.Native.Nat.{ℕ, zero, suc, ◌/◌, ◌%◌, ◌^◌, ◌<◌, bit_and, bit_or}
use mathlib.Core.Path.{◌≡◌, refl}
use mathlib.Core.Bool.{Bool, true, false, not, ◌&&◌}
use native.Mathlib.Omega.{arith}
use btrm.Base.Logic.{ltb, ltb→lt, ◌==◌, if◌then◌else◌, Bytes}
use btrm.Base.Lists.{length, get_or, set, length-set, replicate}
use btrm.Base.Slices.{get_or-set}
use btrm.Base.Words.{IsByte}

-- `1 << k`
abbrev pub shl1 : ℕ → ℕ
shl1 k = 2 ^ k

-- `b & (1 << k) != 0`
unfoldable pub bit_on : ℕ → ℕ → Bool
bit_on b k = not (bit_and b (shl1 k) == 0)

-- `mask[i / 8] & (1 << (i % 8)) != 0`
unfoldable pub test_bit : Bytes → ℕ → Bool
test_bit mask i = bit_on (get_or mask (i / 8) 0) (i % 8)

-- `mask[i / 8] |= 1 << (i % 8)`
unfoldable pub set_bit : Bytes → ℕ → Bytes
set_bit mask i = set mask (i / 8) (bit_or (get_or mask (i / 8) 0) (shl1 (i % 8)))

-- A test that evaluation finds to pass at each number below `k`.
unfoldable pub every_below : ℕ → (ℕ → Bool) → Bool
every_below (suc k) test = every_below k test && test k
every_below zero test = true

pub every_below_at :
    (k : ℕ) (test : ℕ → Bool) (i : ℕ) → every_below k test ≡ true → i < k → test i ≡ true
unfolding every_below
every_below_at (suc k) test i passed below = ground (arith, every_below_at k test i)
every_below_at zero test i passed below = absurd (omega arith)

-- Equality of truth values, as a test.
unfoldable pub same : Bool → Bool → Bool
same true b = b
same false b = not b

pub same-eq : (a b : Bool) → same a b ≡ true → a ≡ b
unfolding same
same-eq a b h = ground arith

abbrev bit_or_test : ℕ → ℕ → ℕ → Bool
bit_or_test b k j = same (bit_on (bit_or b (shl1 k)) j) (if k == j then true else bit_on b j)

bit_or_table :
    every_below 256 (λ b. every_below 8 (λ k. every_below 8 (λ j. bit_or_test b k j))) ≡ true
unfolding every_below same bit_on
bit_or_table = refl

bit_on-bit_or :
    (b k j : ℕ)
    → b < 256
    → k < 8
    → j < 8
    → bit_on (bit_or b (shl1 k)) j ≡ (if k == j then true else bit_on b j)
bit_on-bit_or b k j hb hk hj =
    let t1 =
      every_below_at 256 (λ b. every_below 8 (λ k. every_below 8 (λ j. bit_or_test b k j))) b
        bit_or_table hb in
    let t2 = every_below_at 8 (λ k. every_below 8 (λ j. bit_or_test b k j)) k t1 hk in
    same-eq _ _ (every_below_at 8 (λ j. bit_or_test b k j) j t2 hj)

bit_or_byte_table : every_below 256 (λ b. every_below 8 (λ k. ltb (bit_or b (shl1 k)) 256)) ≡ true
unfolding every_below
bit_or_byte_table = refl

bit_or-IsByte : (b k : ℕ) → b < 256 → k < 8 → IsByte (bit_or b (shl1 k))
bit_or-IsByte b k hb hk =
    let t =
      every_below_at 256 (λ b. every_below 8 (λ k. ltb (bit_or b (shl1 k)) 256)) b bit_or_byte_table
        hb in
    ltb→lt _ _ (every_below_at 8 (λ k. ltb (bit_or b (shl1 k)) 256) k t hk)

-- Every item is a byte.
abbrev pub AreBytes : Bytes → Type 0
AreBytes mask = (i : ℕ) → get_or mask i 0 < 256

pub length-set_bit : (mask : Bytes) (i : ℕ) → length (set_bit mask i) ≡ length mask
unfolding set_bit
length-set_bit mask i = length-set mask (i / 8) _

pub set_bit-AreBytes :
    (mask : Bytes) (i : ℕ) → i / 8 < length mask → AreBytes mask → AreBytes (set_bit mask i)
unfolding set_bit
set_bit-AreBytes mask i h bytes j =
    let byte = bit_or-IsByte (get_or mask (i / 8) 0) (i % 8) (bytes (i / 8)) (omega arith) in
    rw (get_or-set mask (i / 8) j _ 0 h) (ground (arith, byte, bytes j))

-- Setting bit `i` sets that bit and no other.
pub test_bit-set_bit :
    (mask : Bytes) (i j : ℕ)
    → i / 8 < length mask
    → AreBytes mask
    → test_bit (set_bit mask i) j ≡ (if i == j then true else test_bit mask j)
unfolding test_bit set_bit
test_bit-set_bit mask i j h bytes =
    rw (get_or-set mask (i / 8) (j / 8) (bit_or (get_or mask (i / 8) 0) (shl1 (i % 8))) 0 h) (
      ground (
        arith,
        bit_on-bit_or (get_or mask (i / 8) 0) (i % 8) (j % 8) (bytes (i / 8)) (omega arith)
            (omega arith),
      ))

get_or-replicate : (n i d : ℕ) → get_or (replicate n d) i d ≡ d
get_or-replicate zero i d = refl
get_or-replicate (suc n) zero d = refl
get_or-replicate (suc n) (suc i) d = get_or-replicate n i d

zero_table : every_below 8 (λ k. not (bit_on 0 k)) ≡ true
unfolding every_below bit_on
zero_table = refl

pub test_bit-replicate : (n i : ℕ) → test_bit (replicate n 0) i ≡ false
unfolding test_bit
test_bit-replicate n i =
    rw get_or-replicate
      (not-eq (every_below_at 8 (λ k. not (bit_on 0 k)) (i % 8) zero_table (omega arith)))
  where
    not-eq : {b : Bool} → not b ≡ true → b ≡ false
    not-eq {b} e = ground arith

pub replicate-AreBytes : (n : ℕ) → AreBytes (replicate n 0)
replicate-AreBytes n i = rw get_or-replicate (omega arith)
