-- ===== src/Prelude/Bits.antt =====
-- Masks and shifts of bytes as arithmetic. A mask on one byte is a table of 256 entries.
use Prim.Native.Nat.{ℕ, zero, suc, ◌+◌, ◌*◌, ◌/◌, ◌%◌, ◌^◌, ◌≤◌, ◌<◌, bit_and, bit_or, max}
use Prim.Native.Nat.{digits, min, bit_or-bitwise, bit_and-bitwise}
use mathlib.Core.Path.{◌≡◌, refl}
use mathlib.Core.Bool.{Bool, true, false}
use mathlib.Core.Logic.{ite}
use native.Mathlib.Decide.{ℕ_discrete}
use native.Mathlib.Omega.{arith}

module _ (f g : ℕ → ℕ) where
  agree_below : ℕ → Bool
  unfolding ℕ_discrete
  agree_below zero = true
  agree_below (suc n) = ite (ℕ_discrete (f n) (g n)) (agree_below n) false

  agree_below→eq : (n : ℕ) → agree_below n ≡ true → (i : ℕ) → i < n → f i ≡ g i
  unfolding agree_below
  agree_below→eq zero e i h = absurd (omega arith)
  agree_below→eq (suc n) e i h = ground (arith, agree_below→eq n (ground arith) i)

pub low_bits : (b : ℕ) → b < 256 → bit_and b 0x7f ≡ b % 128
unfolding agree_below
low_bits = agree_below→eq _ _ 256 refl

pub top_bit : (b : ℕ) → b < 256 → bit_and b 0x80 ≡ b / 128 * 128
unfolding agree_below
top_bit = agree_below→eq _ _ 256 refl

pub set_top_bit : (b : ℕ) → b < 128 → bit_or b 0x80 ≡ b + 128
unfolding agree_below
set_top_bit = agree_below→eq _ _ 128 refl

-- `or` digit by digit: the number of digits looked at does not matter once it covers `a`.
abbrev or_digits : ℕ → ℕ → ℕ → ℕ
or_digits n a b = digits (λ y. y) max n a b

or_digits_enough : (n m a b : ℕ) → a ≤ n → a ≤ m → or_digits n a b ≡ or_digits m a b
or_digits_enough zero zero zero b p q = refl
or_digits_enough zero (suc m) zero b p q = refl
or_digits_enough (suc n) zero zero b p q = refl
or_digits_enough (suc n) (suc m) zero b p q = refl
or_digits_enough zero _ (suc a) b p q = absurd (omega arith)
or_digits_enough (suc n) zero (suc a) b p q = absurd (omega arith)
or_digits_enough (suc n) (suc m) (suc a) b p q =
    omega (arith, or_digits_enough n m (suc a / 2) (b / 2) (omega arith) (omega arith))

pub zero-bit_or : (b : ℕ) → bit_or 0 b ≡ b
zero-bit_or b = bit_or-bitwise 0 b

-- The lowest digit of an `or`.
pub bit_or_digit : (a b : ℕ) → bit_or a b ≡ bit_or (a / 2) (b / 2) * 2 + max (a % 2) (b % 2)
bit_or_digit zero b = omega (arith, zero-bit_or b, zero-bit_or (b / 2))
bit_or_digit (suc a) b = omega (
  arith,
  bit_or-bitwise (suc a) b,
  bit_or-bitwise (suc a / 2) (b / 2),
  or_digits_enough a (suc a / 2) (suc a / 2) (b / 2) (omega arith) (omega arith),
)

bit_or-zero_below : (n a : ℕ) → a ≤ n → bit_or a 0 ≡ a
bit_or-zero_below n zero h = refl
bit_or-zero_below zero (suc a) h = absurd (omega arith)
bit_or-zero_below (suc n) (suc a) h =
    omega (arith, bit_or_digit (suc a) 0, bit_or-zero_below n (suc a / 2) (omega arith))

bit_or-zero : (a : ℕ) → bit_or a 0 ≡ a
bit_or-zero a = bit_or-zero_below a a (omega arith)

-- Seven and eight low zeros take a low part of as many bits by addition.
or_low_1 : (q r : ℕ) → r < 2 → bit_or (q * 2) r ≡ q * 2 + r
or_low_1 q r h = ground (arith, bit_or_digit (q * 2) r, bit_or-zero q)

or_low_2 : (q r : ℕ) → r < 4 → bit_or (q * 4) r ≡ q * 4 + r
or_low_2 q r h = ground (arith, bit_or_digit (q * 4) r, or_low_1 q (r / 2))

or_low_4 : (q r : ℕ) → r < 16 → bit_or (q * 16) r ≡ q * 16 + r
or_low_4 q r h =
    ground (arith, bit_or_digit (q * 16) r, bit_or_digit (q * 8) (r / 2), or_low_2 q (r / 4))

or_low_6 : (q r : ℕ) → r < 64 → bit_or (q * 64) r ≡ q * 64 + r
or_low_6 q r h =
    ground (arith, bit_or_digit (q * 64) r, bit_or_digit (q * 32) (r / 2), or_low_4 q (r / 4))

pub or_low_7 : (q r : ℕ) → r < 128 → bit_or (q * 128) r ≡ q * 128 + r
or_low_7 q r h = ground (arith, bit_or_digit (q * 128) r, or_low_6 q (r / 2))

pub or_low_8 : (q r : ℕ) → r < 256 → bit_or (q * 256) r ≡ q * 256 + r
or_low_8 q r h = ground (arith, bit_or_digit (q * 256) r, or_low_7 q (r / 2))

-- The same digit by digit for `and`, up to a mask of seven ones.
abbrev and_digits : ℕ → ℕ → ℕ → ℕ
and_digits n a b = digits (λ _. 0) min n a b

and_digits_enough : (n m a b : ℕ) → a ≤ n → a ≤ m → and_digits n a b ≡ and_digits m a b
and_digits_enough zero zero zero b p q = refl
and_digits_enough zero (suc m) zero b p q = refl
and_digits_enough (suc n) zero zero b p q = refl
and_digits_enough (suc n) (suc m) zero b p q = refl
and_digits_enough zero _ (suc a) b p q = absurd (omega arith)
and_digits_enough (suc n) zero (suc a) b p q = absurd (omega arith)
and_digits_enough (suc n) (suc m) (suc a) b p q =
    omega (arith, and_digits_enough n m (suc a / 2) (b / 2) (omega arith) (omega arith))

bit_and_digit : (a b : ℕ) → bit_and a b ≡ bit_and (a / 2) (b / 2) * 2 + min (a % 2) (b % 2)
bit_and_digit zero b = omega (arith, bit_and-bitwise 0 b, bit_and-bitwise 0 (b / 2))
bit_and_digit (suc a) b = omega (
  arith,
  bit_and-bitwise (suc a) b,
  bit_and-bitwise (suc a / 2) (b / 2),
  and_digits_enough a (suc a / 2) (suc a / 2) (b / 2) (omega arith) (omega arith),
)

bit_and-zero_below : (n a : ℕ) → a ≤ n → bit_and a 0 ≡ 0
bit_and-zero_below n zero h = refl
bit_and-zero_below zero (suc a) h = absurd (omega arith)
bit_and-zero_below (suc n) (suc a) h =
    omega (arith, bit_and_digit (suc a) 0, bit_and-zero_below n (suc a / 2) (omega arith))

and_mask_1 : (a : ℕ) → bit_and a 1 ≡ a % 2
and_mask_1 a = omega (arith, bit_and_digit a 1, bit_and-zero_below (a / 2) (a / 2) (omega arith))

and_mask_3 : (a : ℕ) → bit_and a 7 ≡ a % 8
and_mask_3 a = ground (arith, bit_and_digit a 7, bit_and_digit (a / 2) 3, and_mask_1 (a / 4))

and_mask_5 : (a : ℕ) → bit_and a 31 ≡ a % 32
and_mask_5 a = ground (arith, bit_and_digit a 31, bit_and_digit (a / 2) 15, and_mask_3 (a / 4))

pub and_mask_7 : (a : ℕ) → bit_and a 0x7f ≡ a % 128
and_mask_7 a = ground (arith, bit_and_digit a 127, bit_and_digit (a / 2) 63, and_mask_5 (a / 4))

-- `x << k | b` on an unsigned integer of `w` bits.
abbrev pub shl_or : ℕ → ℕ → ℕ → ℕ → ℕ
shl_or w k x b = bit_or (x * 2 ^ k % 2 ^ w) b

pub shl_or_byte64 : (x b : ℕ) → b < 256 → shl_or 64 8 x b ≡ x * 256 % 2 ^ 64 + b
shl_or_byte64 x b h = rw (← split) at (or_low_8 (x % 2 ^ 56) b h)
  where
    split : x * 256 % 2 ^ 64 ≡ x % 2 ^ 56 * 256
    split = omega arith

pub shl_or_byte32 : (x b : ℕ) → b < 256 → shl_or 32 8 x b ≡ x * 256 % 2 ^ 32 + b
shl_or_byte32 x b h = rw (← split) at (or_low_8 (x % 2 ^ 24) b h)
  where
    split : x * 256 % 2 ^ 32 ≡ x % 2 ^ 24 * 256
    split = omega arith

pub shl_or_septet : (x b : ℕ) → b < 128 → shl_or 32 7 x b ≡ x * 128 % 2 ^ 32 + b
shl_or_septet x b h = rw (← split) at (or_low_7 (x % 2 ^ 25) b h)
  where
    split : x * 128 % 2 ^ 32 ≡ x % 2 ^ 25 * 128
    split = omega arith
