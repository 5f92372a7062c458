-- ===== src/Terminal/Ops/Count.antt =====
-- What `count_bits` counts.
use btrm.Base.{
  ℕ, zero, suc, ◌+◌, ◌-◌, ◌≤◌, ◌<◌, ◌≡◌, refl, ap, Bool, true, Bytes, if◌then◌else◌, arith,
}
use btrm.Base.Bits.{test_bit}
use btrm.Terminal.Ops.{count_bits}
use native.Mathlib.Nat.{zero-add, add-zero, suc-add}

-- How many of the `k` indices from `i` on pass a test.
unfoldable pub count_true : ℕ → ℕ → (ℕ → Bool) → ℕ
count_true zero i p = 0
count_true (suc k) i p = (if p i then 1 else 0) + count_true k (i + 1) p

pub count_bits-count_true :
    (k i : ℕ) (mask : Bytes) → count_bits k i mask ≡ count_true k i (test_bit mask)
unfolding count_bits count_true
count_bits-count_true zero i mask = refl
count_bits-count_true (suc k) i mask = rw (count_bits-count_true k (i + 1) mask)

pub count_true_ext :
    (k i : ℕ) (p q : ℕ → Bool)
    → ((j : ℕ) → i ≤ j → j < i + k → p j ≡ q j)
    → count_true k i p ≡ count_true k i q
unfolding count_true
count_true_ext zero i p q h = refl
count_true_ext (suc k) i p q h = rw (
  h i (omega arith) (omega arith),
  count_true_ext k (i + 1) p q (λ j a b. h j (omega arith) (omega arith)),
)

pub count_bits-add :
    (a b i : ℕ) (mask : Bytes)
    → count_bits (a + b) i mask ≡ count_bits a i mask + count_bits b (i + a) mask
unfolding count_bits
count_bits-add zero b i mask = simp (zero-add, add-zero)
count_bits-add (suc a) b i mask = rw (suc-add a b) (
    omega
      (arith, count_bits-add a b (i + 1) mask, ap (λ (n : ℕ). count_bits b n mask) (shifted i a)))
  where
    shifted : (i a : ℕ) → i + 1 + a ≡ i + suc a
    shifted i a = omega arith

-- The count before the next bit.
pub count_bits_next :
    (i : ℕ) (mask : Bytes)
    → count_bits (i + 1) 0 mask ≡ count_bits i 0 mask + (if test_bit mask i then 1 else 0)
count_bits_next i mask =
    omega (
      arith,
      count_bits-add i 1 0 mask,
      one i mask,
      ap (λ (n : ℕ). count_bits 1 n mask) (zero-add i),
    )
  where
    one : (i : ℕ) (mask : Bytes) → count_bits 1 i mask ≡ (if test_bit mask i then 1 else 0)
    one i mask = unfold count_bits in omega arith

-- A bit that is set is one of those counted.
pub count_bits-lt :
    (i n : ℕ) (mask : Bytes)
    → i < n
    → test_bit mask i ≡ true
    → count_bits i 0 mask < count_bits n 0 mask
count_bits-lt i n mask h t =
    let next = rw t at (count_bits_next i mask) in
    omega (
      arith,
      next,
      count_bits-add (i + 1) (n - (i + 1)) 0 mask,
      ap (λ (m : ℕ). count_bits m 0 mask) (whole i n h),
    )
  where
    whole : (i n : ℕ) → i < n → i + 1 + (n - (i + 1)) ≡ n
    whole i n h = omega arith

pub count_bits_nil : (i : ℕ) (mask : Bytes) → count_bits 0 i mask ≡ 0
unfolding count_bits
count_bits_nil i mask = refl

pub count_bits_cons :
    (k i : ℕ) (mask : Bytes)
    → count_bits (suc k) i mask ≡ (if test_bit mask i then 1 else 0) + count_bits k (i + 1) mask
unfolding count_bits
count_bits_cons k i mask = refl
