-- ===== src/Error.antt =====
-- src/error.rs: the errors, and the outcome of a fallible call.
use Prim.Native.String.{String}
use rusnmp.Prelude.{ℕ, ◌≡◌, refl}
use rusnmp.Prelude.Int.{ℤ}

-- The texts of `SnmpError::Decode`, with what `format!` puts into them.
pub data DecodeText : Type 0 where
  unexpected_end length_overflow data_too_short truncated_sub_id empty_response : DecodeText
  expected_sequence expected_integer expected_octet_string expected_oid : ℕ → DecodeText
  expected_response expected_trap_v1 expected_trap_v2 : ℕ → DecodeText
  unknown_version expected_v3 : ℤ → DecodeText

-- `io` stands for every `std::io::Error`.
pub data SnmpError : Type 0 where
  io timeout auth_failed decrypt_failed discovery_failed : SnmpError
  encode : String → SnmpError
  decode : DecodeText → SnmpError
  snmp : ℕ → ℕ → SnmpError

-- What a call does: `Ok`, `Err`, or a panic. `out_of_fuel` has no counterpart in the program: it
-- marks a loop that the model cut off.
pub data Outcome {ℓ} (A : Type ℓ) : Type ℓ where
  ok : A → Outcome A
  err : SnmpError → Outcome A
  panicked : Outcome A
  out_of_fuel : Outcome A

-- `?` on a value that is at hand.
abbrev pub and_then {ℓ κ} : {A : Type ℓ} {B : Type κ} → Outcome A → (A → Outcome B) → Outcome B
and_then (ok a) f = f a
and_then (err e) f = err e
and_then panicked f = panicked
and_then out_of_fuel f = out_of_fuel

-- A chain that succeeds has a first step that succeeds.
pub and_then-ok :
    {A B : Type 0} (o : Outcome A) (f : A → Outcome B) (b : B)
    → and_then o f ≡ ok b
    → (a : A) × (o ≡ ok a) × (f a ≡ ok b)
and_then-ok (ok a) f b e = (a, refl, e)
and_then-ok (err x) f b e = cc
and_then-ok panicked f b e = cc
and_then-ok out_of_fuel f b e = cc
