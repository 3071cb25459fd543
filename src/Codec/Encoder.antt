-- ===== src/Codec/Encoder.antt =====
-- src/codec.rs, lines 33 to 162 and 479 to 497: `BerEncoder`, integers and object identifiers.
pub mod Appends
use rusnmp.Prelude.{ℕ, zero, suc, ◌+◌, ◌-◌, ◌*◌, ◌/◌, ◌%◌, ◌^◌, bit_and, bit_or}
use rusnmp.Prelude.{List, [], ◌∷◌, ◌++◌, foldl, reverse, length, ◌&&◌, not}
use rusnmp.Prelude.{ltb, leb, ◌==◌, if◌then◌else◌, ◌▸◌}
use rusnmp.Prelude.Int.{ℤ, pos, negsuc, bits64}
use rusnmp.Types.{Oid}
use rusnmp.Codec.Tags.{tag_integer, tag_octet_string, tag_null, tag_oid, tag_sequence}

pub record BerEncoder : Type 0 where
  pub buf : List ℕ

abbrev pub new : BerEncoder
new = record { buf = [] }

abbrev pub into_bytes : BerEncoder → List ℕ
into_bytes e = e.buf

-- `Vec::push`.
abbrev pub push : ℕ → BerEncoder → BerEncoder
push b e = record e { buf = e.buf ++ b ∷ [] }

abbrev pub buf_extend : List ℕ → BerEncoder → BerEncoder
buf_extend bytes e = record e { buf = e.buf ++ bytes }

-- `len as u8` keeps the low byte.
unfoldable pub write_length : ℕ → BerEncoder → BerEncoder
write_length len e =
    if ltb len 0x80
    then push (len % 256) e
    else if leb len 0xFF
    then e ▸ push 0x81 ▸ push (len % 256)
    else if leb len 0xFFFF
    then e ▸ push 0x82 ▸ push (len / 2 ^ 8 % 256) ▸ push (len % 256)
    else e ▸ push 0x83 ▸ push (len / 2 ^ 16 % 256) ▸ push (len / 2 ^ 8 % 256) ▸ push (len % 256)

unfoldable pub write_tagged : ℕ → List ℕ → BerEncoder → BerEncoder
write_tagged tag content e = e ▸ push tag ▸ write_length (length content) ▸ buf_extend content

unfoldable pub write_sequence : List ℕ → BerEncoder → BerEncoder
write_sequence content e =
    e ▸ push tag_sequence ▸ write_length (length content) ▸ buf_extend content

-- `to_be_bytes` of the standard library, for a pattern of `k` bytes.
unfoldable pub to_be_bytes : ℕ → ℕ → List ℕ
to_be_bytes zero u = []
to_be_bytes (suc k) u = to_be_bytes k (u / 256) ++ (u % 256) ∷ []

-- `while bytes.len() > 1 && bytes[0] == lead && test(bytes[1]) { bytes.remove(0); }` with the two
-- tests of the code.
unfoldable pub strip_zeros : List ℕ → List ℕ
strip_zeros (a ∷ b ∷ rest) =
    if a == 0x00 && bit_and b 0x80 == 0 then strip_zeros (b ∷ rest) else a ∷ b ∷ rest
strip_zeros bytes = bytes

unfoldable pub strip_ones : List ℕ → List ℕ
strip_ones (a ∷ b ∷ rest) =
    if a == 0xFF && not (bit_and b 0x80 == 0) then strip_ones (b ∷ rest) else a ∷ b ∷ rest
strip_ones bytes = bytes

unfoldable pub encode_integer_bytes : ℤ → List ℕ
encode_integer_bytes (pos zero) = 0x00 ∷ []
encode_integer_bytes (pos (suc n)) = strip_zeros (to_be_bytes 8 (bits64 (pos (suc n))))
encode_integer_bytes (negsuc n) = strip_ones (to_be_bytes 8 (bits64 (negsuc n)))

unfoldable pub write_integer : ℤ → BerEncoder → BerEncoder
write_integer val e =
    let bytes = encode_integer_bytes val in
    e ▸ push tag_integer ▸ write_length (length bytes) ▸ buf_extend bytes

unfoldable pub write_octet_string : List ℕ → BerEncoder → BerEncoder
write_octet_string bytes e =
    e ▸ push tag_octet_string ▸ write_length (length bytes) ▸ buf_extend bytes

unfoldable pub write_null : BerEncoder → BerEncoder
write_null e = e ▸ push tag_null ▸ push 0x00

unfoldable pub encode_unsigned32 : ℕ → List ℕ
encode_unsigned32 val = encode_integer_bytes (pos val)

-- `bytes[start..]` for the first index of a byte that is not 0, or 7 if there is none.
unfoldable pub from_first_nonzero : List ℕ → List ℕ
from_first_nonzero [] = []
from_first_nonzero (b ∷ []) = b ∷ []
from_first_nonzero (a ∷ b ∷ rest) = if a == 0 then from_first_nonzero (b ∷ rest) else a ∷ b ∷ rest

-- A leading zero keeps the number positive.
unfoldable pub with_sign_byte : List ℕ → List ℕ
with_sign_byte [] = []
with_sign_byte (b ∷ rest) = if bit_and b 0x80 == 0 then b ∷ rest else 0x00 ∷ b ∷ rest

unfoldable pub encode_unsigned64 : ℕ → List ℕ
unfolding from_first_nonzero with_sign_byte
encode_unsigned64 zero = 0x00 ∷ []
encode_unsigned64 (suc n) = with_sign_byte (from_first_nonzero (to_be_bytes 8 (suc n)))

-- `while val > 0 { tmp.push(val & 0x7F); val >>= 7; }`, at most `val` rounds.
unfoldable pub septets : ℕ → ℕ → List ℕ
septets zero val = []
septets (suc fuel) val =
    let rest = septets fuel (val / 2 ^ 7) in
    if val == 0 then [] else (bit_and val 0x7F % 256) ∷ rest

-- `for (i, b) in tmp.iter().enumerate()`, from index `i` on, with `total` for `tmp.len()`.
unfoldable pub mark_septets : ℕ → ℕ → List ℕ → List ℕ
mark_septets i total [] = []
mark_septets i total (b ∷ rest) =
    (if ltb i (total - 1) then bit_or b 0x80 else b) ∷ mark_septets (i + 1) total rest

unfoldable pub encode_sub_id : List ℕ → ℕ → List ℕ
unfolding septets mark_septets
encode_sub_id out val =
    let tmp = reverse (septets val val) in
    if val == 0 then out ++ 0 ∷ [] else out ++ mark_septets 0 (length tmp) tmp

-- `c[0] * 40 + c[1]` on u32, then `as u8`; fewer than two components give no bytes.
unfoldable pub components_bytes : List ℕ → List ℕ
components_bytes (a ∷ b ∷ subs) = foldl encode_sub_id (((a * 40 + b) % 2 ^ 32 % 256) ∷ []) subs
components_bytes _ = []

unfoldable pub encode_oid : Oid → List ℕ
unfolding components_bytes
encode_oid oid = components_bytes oid.components

unfoldable pub write_oid : Oid → BerEncoder → BerEncoder
write_oid oid e =
    let encoded = encode_oid oid in
    e ▸ push tag_oid ▸ write_length (length encoded) ▸ buf_extend encoded
