-- ===== src/Types.antt =====
-- src/types.rs: object identifiers, values, variable bindings, versions.
pub mod Text
use rusnmp.Prelude.{ℕ, List, Option, none, some}
use rusnmp.Prelude.Int.{ℤ, pos, signed64}

pub record Oid : Type 0 where
  pub components : List ℕ

pub data Value : Type 0 where
  integer : ℤ → Value
  octet_string : List ℕ → Value
  null : Value
  object_identifier : Oid → Value
  ip_address : ℕ → ℕ → ℕ → ℕ → Value
  counter32 gauge32 time_ticks : ℕ → Value
  opaque : List ℕ → Value
  counter64 : ℕ → Value
  no_such_object no_such_instance end_of_mib_view : Value

pub record VarBind : Type 0 where
  pub oid : Oid
  pub value : Value

pub data Version : Type 0 where
  v1 v2c v3 : Version

unfoldable pub to_i64 : Version → ℤ
to_i64 v1 = pos 0
to_i64 v2c = pos 1
to_i64 v3 = pos 3

-- `v as i64` on a u64 keeps the pattern.
unfoldable pub as_i64 : Value → Option ℤ
as_i64 (integer v) = some v
as_i64 (counter32 v) = some (pos v)
as_i64 (gauge32 v) = some (pos v)
as_i64 (time_ticks v) = some (pos v)
as_i64 (counter64 v) = some (signed64 v)
as_i64 _ = none

unfoldable pub as_bytes : Value → Option (List ℕ)
as_bytes (octet_string b) = some b
as_bytes (opaque b) = some b
as_bytes _ = none
