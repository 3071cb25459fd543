-- ===== src/Types/Text/Decimal.antt =====
-- src/types.rs: the decimal texts of the components of an identifier.
use rusnmp.Prelude.{
  ℕ, zero, suc, ◌+◌, ◌-◌, ◌*◌, ◌/◌, ◌%◌, ◌≤◌, ◌<◌, ◌≡◌, ◌∙◌, refl, sym, ap, arith, List, [], ◌∷◌,
  ◌++◌, All, some, Bool-cases, inl, inr, ltb,
}
use rusnmp.Prelude.Int.{IsU32}
use rusnmp.Types.Text.{parse_digits, parse_u32, decimal_loop, decimal}

abbrev pub IsDigit : ℕ → Type 0
IsDigit b = (48 ≤ b) × (b ≤ 57)

-- The last digit of a number after the digits before it.
parse_digits-last :
    (n : ℕ) (out : List ℕ)
    → IsU32 n
    → parse_digits (n / 10) ((48 + n % 10) ∷ out) ≡ parse_digits n out
unfolding parse_digits
parse_digits-last n out h = ground arith

parse_digits-first :
    (n : ℕ) (out : List ℕ) → n < 10 → parse_digits 0 ((48 + n) ∷ out) ≡ parse_digits n out
unfolding parse_digits
parse_digits-first n out h = ground arith

-- A number below `10 ^ fuel`.
abbrev pub Below : ℕ → ℕ → Type 0
Below zero n = n ≡ 0
Below (suc fuel) n = Below fuel (n / 10)

parse_digits-decimal_loop :
    (fuel n : ℕ) (out : List ℕ)
    → Below fuel n
    → IsU32 n
    → parse_digits 0 (decimal_loop fuel n out) ≡ parse_digits n out
unfolding decimal_loop
parse_digits-decimal_loop zero n out b h = rw b refl
parse_digits-decimal_loop (suc fuel) n out b h = elim (Bool-cases (ltb n 10)) [
  | inl e ↦ rw e (parse_digits-first n out (ground arith))
  | inr e ↦ rw e (
      parse_digits-decimal_loop fuel (n / 10) ((48 + n % 10) ∷ out) b (omega arith)
      ∙ parse_digits-last n out h)
]

Below-IsU32 : (n : ℕ) → IsU32 n → Below 10 n
Below-IsU32 n h = omega arith

-- A decimal text begins with a digit and has nothing but digits before what follows it.
pub record Digits (out text : List ℕ) : Type 0 where
  pub first : ℕ
  pub rest : List ℕ
  pub whole : text ≡ first ∷ rest ++ out
  pub head : IsDigit first
  pub tail : All IsDigit rest

decimal_loop-Digits :
    (fuel n : ℕ) (out ds : List ℕ)
    → All IsDigit ds
    → Digits out (decimal_loop (suc fuel) n (ds ++ out))
unfolding decimal_loop
decimal_loop-Digits zero n out ds h = elim (Bool-cases (ltb n 10)) [
  | inl e ↦ rw e (one n (ground arith))
  | inr e ↦ rw e (one (n % 10) (omega arith))
]
  where
    one : (d : ℕ) → d < 10 → Digits out ((48 + d) ∷ ds ++ out)
    one d lt = record { first = 48 + d; rest = ds; whole = refl; head = omega arith; tail = h }
decimal_loop-Digits (suc fuel) n out ds h = elim (Bool-cases (ltb n 10)) [
  | inl e ↦ rw e (record { first = 48 + n; rest = ds; whole = refl; head = ground arith; tail = h })
  | inr e ↦ rw e (decimal_loop-Digits fuel (n / 10) out ((48 + n % 10) ∷ ds) (omega arith, h))
]

pub decimal-Digits : (n : ℕ) → Digits [] (decimal n)
unfolding decimal
decimal-Digits n = decimal_loop-Digits 9 n [] [] tt

parse_u32-digit :
    (b : ℕ) (bytes : List ℕ) → IsDigit b → parse_u32 (b ∷ bytes) ≡ parse_digits 0 (b ∷ bytes)
unfolding parse_u32
parse_u32-digit b [] h = refl
parse_u32-digit b (c ∷ bytes) h = ground arith

pub parse_u32-decimal : (n : ℕ) → IsU32 n → parse_u32 (decimal n) ≡ some n
parse_u32-decimal n h =
    let d = decimal-Digits n in
    let whole : parse_digits 0 (decimal n) ≡ some n =
      unfold decimal in
      parse_digits-decimal_loop 10 n [] (Below-IsU32 n h) h ∙ (unfold parse_digits in refl) in
    ap parse_u32 d.whole
    ∙ parse_u32-digit d.first (d.rest ++ []) d.head
    ∙ ap (parse_digits 0) (sym d.whole)
    ∙ whole

-- What is read is a u32.
parse_digits-IsU32 :
    (v : ℕ) (bytes : List ℕ) (n : ℕ) → IsU32 v → parse_digits v bytes ≡ some n → IsU32 n
unfolding parse_digits
parse_digits-IsU32 v [] n h e = ground arith
parse_digits-IsU32 v (b ∷ bytes) n h e =
    ground (arith, parse_digits-IsU32 (v * 10 + (b - 48)) bytes n)

pub parse_u32-IsU32 : (bytes : List ℕ) (n : ℕ) → parse_u32 bytes ≡ some n → IsU32 n
unfolding parse_u32
parse_u32-IsU32 [] n e = cc
parse_u32-IsU32 (b ∷ []) n e = parse_digits-IsU32 0 (b ∷ []) n (omega arith) e
parse_u32-IsU32 (b ∷ c ∷ bytes) n e =
    ground (arith, parse_digits-IsU32 0 (c ∷ bytes) n, parse_digits-IsU32 0 (b ∷ c ∷ bytes) n)
