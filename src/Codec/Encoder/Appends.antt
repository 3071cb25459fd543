-- ===== src/Codec/Encoder/Appends.antt =====
-- What each method of `BerEncoder` appends to the buffer, as a list.
use rusnmp.Prelude.{
  ℕ, ◌/◌, ◌%◌, ◌^◌, ◌≡◌, arith, List, [], ◌∷◌, ◌++◌, length, append_assoc, length-append,
  length-le-append_right, ◌≤◌, ◌+◌,
}
use rusnmp.Prelude.{ltb, leb, if◌then◌else◌}
use rusnmp.Prelude.Int.{ℤ}
use rusnmp.Types.{Oid}
use rusnmp.Codec.Tags.{tag_integer, tag_octet_string, tag_null, tag_oid, tag_sequence}
use rusnmp.Codec.Encoder.{
  BerEncoder, write_length, write_tagged, write_sequence, write_integer, write_octet_string,
  write_null, write_oid, encode_integer_bytes, encode_oid,
}

-- The length octets.
unfoldable pub length_octets : ℕ → List ℕ
length_octets n =
    if ltb n 0x80
    then (n % 256) ∷ []
    else if leb n 0xFF
    then 0x81 ∷ (n % 256) ∷ []
    else if leb n 0xFFFF
    then 0x82 ∷ (n / 2 ^ 8 % 256) ∷ (n % 256) ∷ []
    else 0x83 ∷ (n / 2 ^ 16 % 256) ∷ (n / 2 ^ 8 % 256) ∷ (n % 256) ∷ []

-- Tag, length, contents.
abbrev pub tlv : ℕ → List ℕ → List ℕ
tlv tag content = tag ∷ (length_octets (length content) ++ content)

pub length-le-tlv : (tag : ℕ) (content : List ℕ) → length content ≤ length (tlv tag content)
length-le-tlv tag content =
    omega (arith, length-le-append_right (length_octets (length content)) content)

length-length_octets : (n : ℕ) → length (length_octets n) ≤ 4
unfolding length_octets
length-length_octets n = ground arith

pub length-tlv-le : (tag : ℕ) (content : List ℕ) → length (tlv tag content) ≤ length content + 5
length-tlv-le tag content = omega (
  arith,
  length-append (length_octets (length content)) content,
  length-length_octets (length content),
)

pub buf-write_length : (n : ℕ) (e : BerEncoder) → (write_length n e).buf ≡ e.buf ++ length_octets n
unfolding write_length length_octets
buf-write_length n e = simp append_assoc (ground arith)

pub buf-write_tagged :
    (tag : ℕ) (content : List ℕ) (e : BerEncoder)
    → (write_tagged tag content e).buf ≡ e.buf ++ tlv tag content
unfolding write_tagged
buf-write_tagged tag content e = simp (buf-write_length, append_assoc)

pub buf-write_sequence :
    (content : List ℕ) (e : BerEncoder)
    → (write_sequence content e).buf ≡ e.buf ++ tlv tag_sequence content
unfolding write_sequence
buf-write_sequence content e = simp (buf-write_length, append_assoc)

pub buf-write_integer :
    (v : ℤ) (e : BerEncoder)
    → (write_integer v e).buf ≡ e.buf ++ tlv tag_integer (encode_integer_bytes v)
unfolding write_integer
buf-write_integer v e = simp (buf-write_length, append_assoc)

pub buf-write_octet_string :
    (content : List ℕ) (e : BerEncoder)
    → (write_octet_string content e).buf ≡ e.buf ++ tlv tag_octet_string content
unfolding write_octet_string
buf-write_octet_string content e = simp (buf-write_length, append_assoc)

pub buf-write_null : (e : BerEncoder) → (write_null e).buf ≡ e.buf ++ tlv tag_null []
unfolding write_null length_octets
buf-write_null e = simp append_assoc

pub buf-write_oid :
    (oid : Oid) (e : BerEncoder) → (write_oid oid e).buf ≡ e.buf ++ tlv tag_oid (encode_oid oid)
unfolding write_oid
buf-write_oid oid e = simp (buf-write_length, append_assoc)

pub ruleset appends = (
  buf-write_tagged, buf-write_sequence, buf-write_integer, buf-write_octet_string, buf-write_null,
  buf-write_oid,
)
