-- ===== src/Prelude/Xor.antt =====
-- When `or` and `xor` of two numbers are 0.
use Prim.Native.Nat.{ℕ, zero, suc, ◌+◌, ◌*◌, ◌/◌, ◌%◌, ◌≤◌, bit_or, bit_xor, digits, differ}
use Prim.Native.Nat.{bit_xor-bitwise}
use rusnmp.Prelude.Bits.{bit_or_digit, zero-bit_or}
use mathlib.Core.Path.{◌≡◌, refl}
use native.Mathlib.Omega.{arith}

abbrev xor_digits : ℕ → ℕ → ℕ → ℕ
xor_digits n a b = digits (λ y. y) differ n a b

xor_digits_enough : (n m a b : ℕ) → a ≤ n → a ≤ m → xor_digits n a b ≡ xor_digits m a b
xor_digits_enough zero zero zero b p q = refl
xor_digits_enough zero (suc m) zero b p q = refl
xor_digits_enough (suc n) zero zero b p q = refl
xor_digits_enough (suc n) (suc m) zero b p q = refl
xor_digits_enough zero _ (suc a) b p q = absurd (omega arith)
xor_digits_enough (suc n) zero (suc a) b p q = absurd (omega arith)
xor_digits_enough (suc n) (suc m) (suc a) b p q =
    omega (arith, xor_digits_enough n m (suc a / 2) (b / 2) (omega arith) (omega arith))

zero-bit_xor : (b : ℕ) → bit_xor 0 b ≡ b
zero-bit_xor b = bit_xor-bitwise 0 b

bit_xor_digit : (a b : ℕ) → bit_xor a b ≡ bit_xor (a / 2) (b / 2) * 2 + differ (a % 2) (b % 2)
bit_xor_digit zero b = omega (arith, zero-bit_xor b, zero-bit_xor (b / 2))
bit_xor_digit (suc a) b = omega (
  arith,
  bit_xor-bitwise (suc a) b,
  bit_xor-bitwise (suc a / 2) (b / 2),
  xor_digits_enough a (suc a / 2) (suc a / 2) (b / 2) (omega arith) (omega arith),
)

differ-zero : (x y : ℕ) → differ x y ≡ 0 → x ≡ y
differ-zero zero y h = omega arith
differ-zero (suc x) zero h = omega arith
differ-zero (suc x) (suc y) h = omega (arith, differ-zero x y h)

differ-same : (x : ℕ) → differ x x ≡ 0
differ-same zero = refl
differ-same (suc x) = differ-same x

bit_xor-zero_below : (n a b : ℕ) → a ≤ n → bit_xor a b ≡ 0 → a ≡ b
bit_xor-zero_below n zero b h e = omega (arith, zero-bit_xor b)
bit_xor-zero_below zero (suc a) b h e = absurd (omega arith)
bit_xor-zero_below (suc n) (suc a) b h e = ground (
  arith,
  bit_xor_digit (suc a) b,
  bit_xor-zero_below n (suc a / 2) (b / 2) (omega arith),
  differ-zero (suc a % 2) (b % 2),
)

pub bit_xor-zero : (a b : ℕ) → bit_xor a b ≡ 0 → a ≡ b
bit_xor-zero a b e = bit_xor-zero_below a a b (omega arith) e

bit_xor-same_below : (n a : ℕ) → a ≤ n → bit_xor a a ≡ 0
bit_xor-same_below n zero h = zero-bit_xor 0
bit_xor-same_below zero (suc a) h = absurd (omega arith)
bit_xor-same_below (suc n) (suc a) h = omega (
  arith,
  bit_xor_digit (suc a) (suc a),
  bit_xor-same_below n (suc a / 2) (omega arith),
  differ-same (suc a % 2),
)

pub bit_xor-same : (a : ℕ) → bit_xor a a ≡ 0
bit_xor-same a = bit_xor-same_below a a (omega arith)

bit_or-zero_both_below : (n a b : ℕ) → a ≤ n → bit_or a b ≡ 0 → (a ≡ 0) × (b ≡ 0)
bit_or-zero_both_below n zero b h e = (refl, omega (arith, zero-bit_or b))
bit_or-zero_both_below zero (suc a) b h e = absurd (omega arith)
bit_or-zero_both_below (suc n) (suc a) b h e =
    ground
      (arith, bit_or_digit (suc a) b, bit_or-zero_both_below n (suc a / 2) (b / 2) (omega arith))

pub bit_or-zero_both : (a b : ℕ) → bit_or a b ≡ 0 → (a ≡ 0) × (b ≡ 0)
bit_or-zero_both a b e = bit_or-zero_both_below a a b (omega arith) e
