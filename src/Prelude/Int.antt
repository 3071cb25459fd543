-- ===== src/Prelude/Int.antt =====
-- Signed integers over the native numbers, under the library's names, and Rust's casts on them.
use rusnmp.Prelude.Tests.{ltb, if◌then◌else◌}
use mathlib.Core.Bool.{Bool, true, false}
use Prim.Native.Nat.{ℕ, ◌+◌, ◌-◌, ◌%◌, ◌^◌, ◌<◌}
use mathlib.Core.Path.{◌≡◌}
use native.Mathlib.Omega.{arith}

-- `negsuc n` is -(n + 1).
pub data ℤ : Type 0 where
  pos : ℕ → ℤ
  negsuc : ℕ → ℤ

-- The range of a signed integer of `w + 1` bits.
abbrev pub Fits : ℕ → ℤ → Type 0
Fits w (pos n) = n < 2 ^ w
Fits w (negsuc n) = n < 2 ^ w

abbrev pub IsI32 : ℤ → Type 0
IsI32 = Fits 31

abbrev pub IsI64 : ℤ → Type 0
IsI64 = Fits 63

abbrev pub IsU32 : ℕ → Type 0
IsU32 n = n < 2 ^ 32

abbrev pub IsU64 : ℕ → Type 0
IsU64 n = n < 2 ^ 64

abbrev pub IsByte : ℕ → Type 0
IsByte n = n < 256

-- The two's complement pattern of an i64.
abbrev pub bits64 : ℤ → ℕ
bits64 (pos n) = n % 2 ^ 64
bits64 (negsuc n) = 2 ^ 64 - 1 - n % 2 ^ 64

-- The integer that a pattern stands for, and the same for 32 bits.
abbrev pub signed64 : ℕ → ℤ
signed64 w = if ltb w (2 ^ 63) then pos w else negsuc (2 ^ 64 - 1 - w)

abbrev pub signed32 : ℕ → ℤ
signed32 w = if ltb w (2 ^ 31) then pos w else negsuc (2 ^ 32 - 1 - w)

-- `v as u32` and `v as i32` for an i64.
abbrev pub as_u32 : ℤ → ℕ
as_u32 v = bits64 v % 2 ^ 32

abbrev pub as_i32 : ℤ → ℤ
as_i32 v = signed32 (as_u32 v)

pub signed64-bits64 : (v : ℤ) → IsI64 v → signed64 (bits64 v) ≡ v
signed64-bits64 v h = ground arith

pub as_i32-IsI32 : (v : ℤ) → IsI32 v → as_i32 v ≡ v
as_i32-IsI32 v h = ground arith

pub as_u32-pos : (n : ℕ) → IsU32 n → as_u32 (pos n) ≡ n
as_u32-pos n h = ground arith

pub IsI64-IsI32 : (v : ℤ) → IsI32 v → IsI64 v
IsI64-IsI32 v h = ground arith

-- `v.wrapping_add(1)` on i32, and the test `v < 0`.
abbrev pub wrapping_suc32 : ℤ → ℤ
wrapping_suc32 v = signed32 ((as_u32 v + 1) % 2 ^ 32)

abbrev pub is_negative : ℤ → Bool
is_negative (pos n) = false
is_negative (negsuc n) = true
