-- ===== src/Codec/Values.antt =====
-- src/codec.rs: `encode_value` against `read_value`.
use rusnmp.Prelude.{ℕ, ◌^◌, ◌<◌, ◌≡◌, refl, arith, List, [], ◌∷◌, ◌++◌, length, All}
use rusnmp.Prelude.Int.{IsI64, IsU32, IsU64, pos}
use rusnmp.Error.{ok}
use rusnmp.Types.{
  Oid, Value, integer, octet_string, null, object_identifier, ip_address, counter32, gauge32,
  time_ticks, opaque, counter64, no_such_object, no_such_instance, end_of_mib_view,
}
use rusnmp.Codec.Tags.{
  tag_integer, tag_octet_string, tag_null, tag_oid, tag_ipaddress, tag_counter32, tag_gauge32,
  tag_timeticks, tag_opaque, tag_counter64,
}
use rusnmp.Codec.Encoder.{
  BerEncoder, encode_integer_bytes, encode_unsigned32, encode_unsigned64, encode_oid,
}
use rusnmp.Codec.Encoder.Appends.{tlv, appends}
use rusnmp.Codec.Decoder.{new, decode_oid, value_of, read_value, read_oid}
use rusnmp.Codec.Decoder.Reads.{Reads, Reads-bind_last, Reads-lift, Reads-run}
use rusnmp.Codec.Decoder.Primitives.{Reads-read_tlv}
use rusnmp.Codec.Integers.{
  decode_integer-encode_integer_bytes, decode_unsigned32-encode_unsigned32,
  decode_unsigned64-encode_unsigned64, length-encode_integer_bytes, length-encode_unsigned64,
}
use rusnmp.Codec.Oids.{IsPacked, decode_oid-encode_oid_iff}
use rusnmp.Codec.Pdu.{encode_value}

-- The tag and the contents of a value.
abbrev pub tag_of : Value → ℕ
tag_of (integer v) = tag_integer
tag_of (octet_string b) = tag_octet_string
tag_of (object_identifier oid) = tag_oid
tag_of (ip_address a b c d) = tag_ipaddress
tag_of (counter32 v) = tag_counter32
tag_of (gauge32 v) = tag_gauge32
tag_of (time_ticks v) = tag_timeticks
tag_of (opaque b) = tag_opaque
tag_of (counter64 v) = tag_counter64
tag_of _ = tag_null

abbrev pub content_of : Value → List ℕ
content_of (integer v) = encode_integer_bytes v
content_of (octet_string b) = b
content_of (object_identifier oid) = encode_oid oid
content_of (ip_address a b c d) = a ∷ b ∷ c ∷ d ∷ []
content_of (counter32 v) = encode_unsigned32 v
content_of (gauge32 v) = encode_unsigned32 v
content_of (time_ticks v) = encode_unsigned32 v
content_of (opaque b) = b
content_of (counter64 v) = encode_unsigned64 v
content_of _ = []

abbrev pub value_tlv : Value → List ℕ
value_tlv v = tlv (tag_of v) (content_of v)

pub buf-encode_value : (v : Value) (e : BerEncoder) → (encode_value v e).buf ≡ e.buf ++ value_tlv v
unfolding encode_value
buf-encode_value (integer v) e = simp appends
buf-encode_value _ e = simp appends

-- An object identifier that its encoding determines.
abbrev WireComponents : List ℕ → Type 0
WireComponents [] = Unit {0}
WireComponents (a ∷ []) = ⊥
WireComponents (a ∷ b ∷ subs) = IsPacked a b × All IsU32 subs

abbrev pub IsWireOid : Oid → Type 0
IsWireOid oid = WireComponents oid.components × (length (encode_oid oid) < 2 ^ 24)

-- The ranges of Rust's types, and contents that three length octets can measure.
abbrev pub IsWireValue : Value → Type 0
IsWireValue (integer v) = IsI64 v
IsWireValue (octet_string b) = length b < 2 ^ 24
IsWireValue (object_identifier oid) = IsWireOid oid
IsWireValue (counter32 v) = IsU32 v
IsWireValue (gauge32 v) = IsU32 v
IsWireValue (time_ticks v) = IsU32 v
IsWireValue (opaque b) = length b < 2 ^ 24
IsWireValue (counter64 v) = IsU64 v
IsWireValue _ = Unit {0}

-- The exception values are sent as null.
abbrev pub as_sent : Value → Value
as_sent no_such_object = null
as_sent no_such_instance = null
as_sent end_of_mib_view = null
as_sent v = v

pub decode_oid-encode_oid : (oid : Oid) → IsWireOid oid → decode_oid (encode_oid oid) ≡ ok oid
decode_oid-encode_oid oid h = go oid.components h.0
  where
    go :
        (cs : List ℕ)
        → WireComponents cs
        → decode_oid (encode_oid (record { components = cs })) ≡ ok (record { components = cs })
    go [] w = unfold encode_oid decode_oid in refl
    go (a ∷ []) w = absurd w
    go (a ∷ b ∷ subs) w = (decode_oid-encode_oid_iff a b subs w.1).1 w.0

value_of-content_of :
    (v : Value) → IsWireValue v → value_of (tag_of v) (content_of v) ≡ ok (as_sent v)
unfolding value_of
value_of-content_of (integer v) h = rw (decode_integer-encode_integer_bytes v h)
value_of-content_of (object_identifier oid) h = rw (decode_oid-encode_oid oid h)
value_of-content_of (counter32 v) h = rw (decode_unsigned32-encode_unsigned32 v h)
value_of-content_of (gauge32 v) h = rw (decode_unsigned32-encode_unsigned32 v h)
value_of-content_of (time_ticks v) h = rw (decode_unsigned32-encode_unsigned32 v h)
value_of-content_of (counter64 v) h = rw (decode_unsigned64-encode_unsigned64 v h)
value_of-content_of _ h = refl

length-content_of : (v : Value) → IsWireValue v → length (content_of v) < 2 ^ 24
unfolding encode_unsigned32
length-content_of (integer v) h = omega (arith, length-encode_integer_bytes v)
length-content_of (counter32 v) h = omega (arith, length-encode_integer_bytes (pos v))
length-content_of (gauge32 v) h = omega (arith, length-encode_integer_bytes (pos v))
length-content_of (time_ticks v) h = omega (arith, length-encode_integer_bytes (pos v))
length-content_of (counter64 v) h = omega (arith, length-encode_unsigned64 v)
length-content_of (object_identifier oid) h = h.1
length-content_of _ h = omega arith

-- `read_value` reads every value back, the exception values as null.
pub Reads-read_value : (v : Value) → IsWireValue v → Reads read_value (as_sent v) (value_tlv v)
unfolding read_value
Reads-read_value v h =
    Reads-bind_last _ (value_tlv v)
      (Reads-read_tlv (tag_of v) (content_of v) (length-content_of v h))
      (Reads-lift (value_of-content_of v h))

pub Reads-read_oid : (oid : Oid) → IsWireOid oid → Reads read_oid oid (tlv tag_oid (encode_oid oid))
unfolding read_oid
Reads-read_oid oid h =
    Reads-bind_last _ (tlv tag_oid (encode_oid oid)) (Reads-read_tlv tag_oid (encode_oid oid) h.1)
      (Reads-lift (decode_oid-encode_oid oid h))

-- `read_value` on what `encode_value` wrote, with any bytes behind it, returns the value, with null
-- for each of the three exception values, and stops right behind it. The value is in the ranges of
-- its Rust types, below 2 ^ 24 bytes, and an object identifier in it has a first byte that holds its
-- first two components.
pub read_value-encode_value :
    (v : Value) (rest : List ℕ)
    → IsWireValue v
    → let sent = (encode_value v (record { buf = [] })).buf in
      length (sent ++ rest) < 2 ^ 63
      → read_value (new (sent ++ rest))
        ≡ (ok (as_sent v), record { bytes = sent ++ rest; pos = length sent })
read_value-encode_value v rest w small =
    rw buf-encode_value
      (Reads-run (value_tlv v) rest (Reads-read_value v w) (rw buf-encode_value at small))
