-- ===== src/Base/Xor.antt =====
-- `a ^ b` on unsigned words: undone by itself, and no wider than its operands.
use Prim.Native.Nat.{
  ℕ, zero, suc, ◌+◌, ◌*◌, ◌/◌, ◌%◌, ◌≤◌, ◌<◌, bit_xor, bit_xor-bitwise, digits, differ,
}
use mathlib.Core.Path.{◌≡◌, refl, ap, ◌∙◌}
use native.Mathlib.Omega.{arith}

abbrev xor_digits : ℕ → ℕ → ℕ → ℕ
xor_digits fuel a b = digits (λ rest. rest) differ fuel a b

-- More fuel than the first number has digits changes nothing.
xor_digits_enough : (k l a b : ℕ) → a ≤ k → a ≤ l → xor_digits k a b ≡ xor_digits l a b
xor_digits_enough zero zero a b p q = refl
xor_digits_enough zero (suc l) zero b p q = refl
xor_digits_enough zero (suc l) (suc a) b p q = absurd (omega arith)
xor_digits_enough (suc k) zero zero b p q = refl
xor_digits_enough (suc k) zero (suc a) b p q = absurd (omega arith)
xor_digits_enough (suc k) (suc l) zero b p q = refl
xor_digits_enough (suc k) (suc l) (suc a) b p q =
    omega (arith, xor_digits_enough k l (suc a / 2) (b / 2) (omega arith) (omega arith))

zero-bit_xor : (b : ℕ) → bit_xor 0 b ≡ b
zero-bit_xor b = bit_xor-bitwise 0 b

differ_zero : (d : ℕ) → differ d 0 ≡ d
differ_zero zero = refl
differ_zero (suc d) = refl

bit_xor-split : (a b : ℕ) → bit_xor a b ≡ bit_xor (a / 2) (b / 2) * 2 + differ (a % 2) (b % 2)
bit_xor-split zero b = omega (arith, zero-bit_xor b, zero-bit_xor (b / 2))
bit_xor-split (suc a) b = omega (
  arith,
  bit_xor-bitwise (suc a) b,
  bit_xor-bitwise (suc a / 2) (b / 2),
  xor_digits_enough a (suc a / 2) (suc a / 2) (b / 2) (omega arith) (omega arith),
)

-- Two digits.
differ_bit : (d e : ℕ) → d < 2 → e < 2 → differ d e < 2
differ_bit zero e p q = q
differ_bit (suc d) zero p q = p
differ_bit (suc d) (suc e) p q = differ_bit d e (omega arith) (omega arith)

differ_undone : (d e : ℕ) → d < 2 → e < 2 → differ (differ d e) e ≡ d
differ_undone zero zero p q = refl
differ_undone zero (suc zero) p q = refl
differ_undone zero (suc (suc e)) p q = absurd (omega arith)
differ_undone (suc zero) zero p q = refl
differ_undone (suc zero) (suc zero) p q = refl
differ_undone (suc zero) (suc (suc e)) p q = absurd (omega arith)
differ_undone (suc (suc d)) e p q = absurd (omega arith)

differ_self : (d : ℕ) → differ d d ≡ 0
differ_self zero = refl
differ_self (suc d) = differ_self d

-- The half and the lowest digit of a result.
bit_xor_half : (a b : ℕ) → bit_xor a b / 2 ≡ bit_xor (a / 2) (b / 2)
bit_xor_half a b =
    omega (arith, bit_xor-split a b, differ_bit (a % 2) (b % 2) (omega arith) (omega arith))

bit_xor_digit : (a b : ℕ) → bit_xor a b % 2 ≡ differ (a % 2) (b % 2)
bit_xor_digit a b =
    omega (arith, bit_xor-split a b, differ_bit (a % 2) (b % 2) (omega arith) (omega arith))

bit_xor_self_below : (n b : ℕ) → b ≤ n → bit_xor b b ≡ 0
bit_xor_self_below n zero h = zero-bit_xor 0
bit_xor_self_below zero (suc b) h = absurd (omega arith)
bit_xor_self_below (suc n) (suc b) h = omega (
  arith,
  bit_xor-split (suc b) (suc b),
  bit_xor_self_below n (suc b / 2) (omega arith),
  differ_self (suc b % 2),
)

bit_xor_undone_below : (n a b : ℕ) → a ≤ n → bit_xor (bit_xor a b) b ≡ a
bit_xor_undone_below n zero b h =
    ap (λ (c : ℕ). bit_xor c b) (zero-bit_xor b) ∙ bit_xor_self_below b b (omega arith)
bit_xor_undone_below zero (suc a) b h = absurd (omega arith)
bit_xor_undone_below (suc n) (suc a) b h =
    let split =
      rw (bit_xor_half (suc a) b, bit_xor_digit (suc a) b) at
        (bit_xor-split (bit_xor (suc a) b) b) in
    omega (
      arith,
      split,
      bit_xor_undone_below n (suc a / 2) (b / 2) (omega arith),
      differ_undone (suc a % 2) (b % 2) (omega arith) (omega arith),
    )

pub bit_xor_undone : (a b : ℕ) → bit_xor (bit_xor a b) b ≡ a
bit_xor_undone a b = bit_xor_undone_below a a b (omega arith)

-- `2 ^ k`, by its digits.
abbrev pub width : ℕ → ℕ
width zero = 1
width (suc k) = width k * 2

pub bit_xor-lt : (k a b : ℕ) → a < width k → b < width k → bit_xor a b < width k
bit_xor-lt zero zero zero p q = omega (arith, zero-bit_xor 0)
bit_xor-lt zero zero (suc b) p q = absurd (omega arith)
bit_xor-lt zero (suc a) b p q = absurd (omega arith)
bit_xor-lt (suc k) a b p q = omega (
  arith,
  bit_xor-split a b,
  bit_xor-lt k (a / 2) (b / 2) (omega arith) (omega arith),
  differ_bit (a % 2) (b % 2) (omega arith) (omega arith),
)
