-- ===== src/Codec/Decoder.antt =====
-- src/codec.rs, lines 164 to 353: `BerDecoder` and the decoders of its contents.
pub mod Reads
pub mod Gives
pub mod Primitives
pub mod Guarded
pub mod Bounds
use rusnmp.Prelude.{ℕ, zero, suc, ◌+◌, ◌-◌, ◌/◌, ◌%◌, ◌^◌, bit_and, shl_or}
use rusnmp.Prelude.{List, [], ◌∷◌, ◌++◌, foldl, length, get_elem?, take, drop, none, some, ◌||◌}
use rusnmp.Prelude.{ltb, leb, ◌==◌, if◌then◌else◌}
use rusnmp.Prelude.Int.{ℤ, signed64}
use rusnmp.Error.{
  Outcome, ok, err, panicked, out_of_fuel, decode, and_then, unexpected_end, length_overflow,
  data_too_short, truncated_sub_id, expected_sequence, expected_integer, expected_octet_string,
  expected_oid,
}
use rusnmp.Run.{Run, pure, fail, lift, gets, modify, ◌>>=◌, ◌>>◌}
use rusnmp.Types.{
  Oid, Value, integer, octet_string, null, object_identifier, ip_address, counter32, gauge32,
  time_ticks, opaque, counter64, no_such_object, no_such_instance, end_of_mib_view,
}
use rusnmp.Codec.Tags.{
  tag_integer, tag_octet_string, tag_null, tag_oid, tag_sequence, tag_ipaddress, tag_counter32,
  tag_gauge32, tag_timeticks, tag_opaque, tag_counter64, tag_no_such_object, tag_no_such_instance,
  tag_end_of_mib_view,
}

-- The slice is called `bytes` here.
pub record BerDecoder : Type 0 where
  pub bytes : List ℕ
  pub pos : ℕ

abbrev pub Reader : Type 0 → Type 0
Reader A = Run BerDecoder A

abbrev pub new : List ℕ → BerDecoder
new bytes = record { bytes = bytes; pos = 0 }

-- `self.data.len() - self.pos` on usize.
unfoldable pub remaining : BerDecoder → ℕ
remaining d = (length d.bytes + 2 ^ 64 - d.pos) % 2 ^ 64

-- `self.data[i]`, which panics out of bounds.
abbrev pub index : ℕ → Reader ℕ
index i d = (elim (get_elem? d.bytes i) [ some b ↦ ok b | none ↦ panicked ], d)

-- `&self.data[from..to]`, which panics unless from ≤ to ≤ len.
abbrev pub slice : ℕ → ℕ → Reader (List ℕ)
slice from to d =
    if ltb to from || ltb (length d.bytes) to
    then (panicked, d)
    else (ok (take (to - from) (drop from d.bytes)), d)

-- `self.pos += n` on usize.
abbrev pub skip : ℕ → Reader (Unit {0})
skip n = modify (λ d. record d { pos = (d.pos + n) % 2 ^ 64 })

unfoldable pub peek_tag : Reader ℕ
peek_tag d = if leb (length d.bytes) d.pos then fail (decode unexpected_end) d else index d.pos d

unfoldable pub read_tag : Reader ℕ
unfolding peek_tag
read_tag = do tag ← peek_tag; skip 1; pure tag

-- `for i in 0..num_bytes { len = (len << 8) | self.data[self.pos + i] }`, from `i` on.
unfoldable pub length_loop : ℕ → ℕ → ℕ → Reader ℕ
length_loop zero i len = pure len
length_loop (suc left) i len = do
  at ← gets (λ d. (d.pos + i) % 2 ^ 64)
  b ← index at
  length_loop left (i + 1) (shl_or 64 8 len b)

unfoldable pub read_long_length : ℕ → Reader ℕ
unfolding length_loop
read_long_length num_bytes = do
  short ← gets (λ d. ltb (length d.bytes) ((d.pos + num_bytes) % 2 ^ 64))
  if short
      then fail (decode length_overflow)
      else do len ← length_loop num_bytes 0 0; skip num_bytes; pure len

unfoldable pub read_length : Reader ℕ
unfolding read_long_length
read_length = do
  at_end ← gets (λ d. leb (length d.bytes) d.pos)
  if at_end then fail (decode unexpected_end) else do
    at ← gets (λ d. d.pos)
    first ← index at
    skip 1
    if ltb first 0x80 then pure first else read_long_length (bit_and first 0x7F)

unfoldable pub read_raw : ℕ → Reader (List ℕ)
read_raw len = do
  short ← gets (λ d. ltb (length d.bytes) ((d.pos + len) % 2 ^ 64))
  if short
      then fail (decode data_too_short)
      else do at ← gets (λ d. d.pos); part ← slice at ((at + len) % 2 ^ 64); skip len; pure part

unfoldable pub read_tlv : Reader (ℕ × List ℕ)
read_tlv = do tag ← read_tag; len ← read_length; content ← read_raw len; pure (tag, content)

unfoldable pub read_tlv_with_header : Reader (ℕ × List ℕ)
read_tlv_with_header = do
  start ← gets (λ d. d.pos)
  tag ← read_tag
  len ← read_length
  read_raw len
  end ← gets (λ d. d.pos)
  full ← slice start end
  pure (tag, full)

unfoldable pub read_sequence : Reader BerDecoder
read_sequence = do
  tag ← read_tag
  if tag == tag_sequence
      then (do len ← read_length; content ← read_raw len; pure (new content))
      else fail (decode (expected_sequence tag))

-- `(val << 8) | b` on i64 and u64 patterns, and on u32.
abbrev pub fold64 : ℕ → List ℕ → ℕ
fold64 = foldl (shl_or 64 8)

abbrev pub fold32 : ℕ → List ℕ → ℕ
fold32 = foldl (shl_or 32 8)

-- The pattern of -1 or 0, by the first byte.
abbrev pub sign_start : ℕ → ℕ
sign_start first = if bit_and first 0x80 == 0 then 0 else 2 ^ 64 - 1

unfoldable pub decode_integer : List ℕ → ℤ
decode_integer [] = signed64 0
decode_integer (first ∷ rest) = signed64 (fold64 (sign_start first) (first ∷ rest))

unfoldable pub decode_unsigned32 : List ℕ → ℕ
decode_unsigned32 content = fold32 0 content

unfoldable pub decode_unsigned64 : List ℕ → ℕ
decode_unsigned64 content = fold64 0 content

-- The inner loop of `decode_oid`: the list is what the index has not reached.
unfoldable pub read_sub_id : ℕ → List ℕ → Outcome (ℕ × List ℕ)
read_sub_id sub [] = err (decode truncated_sub_id)
read_sub_id sub (b ∷ rest) =
    let sub' = shl_or 32 7 sub (bit_and b 0x7F) in
    let more = read_sub_id sub' rest in if bit_and b 0x80 == 0 then ok (sub', rest) else more

-- The outer loop. A round takes a byte at least.
unfoldable pub read_sub_ids : ℕ → List ℕ → List ℕ → Outcome Oid
read_sub_ids fuel components [] = ok (record { components = components })
read_sub_ids zero components (b ∷ rest) = out_of_fuel
read_sub_ids (suc fuel) components (b ∷ rest) =
    and_then (read_sub_id 0 (b ∷ rest))
      λ (sub, rest'). read_sub_ids fuel (components ++ sub ∷ []) rest'

unfoldable pub decode_oid : List ℕ → Outcome Oid
decode_oid [] = ok (record { components = [] })
decode_oid (first ∷ rest) = read_sub_ids (length rest) ((first / 40) ∷ (first % 40) ∷ []) rest

unfoldable pub read_integer : Reader ℤ
read_integer = do
  (tag, content) ← read_tlv
  if tag == tag_integer then pure (decode_integer content) else fail (decode (expected_integer tag))

unfoldable pub read_octet_string : Reader (List ℕ)
read_octet_string = do
  (tag, content) ← read_tlv
  if tag == tag_octet_string then pure content else fail (decode (expected_octet_string tag))

unfoldable pub read_oid : Reader Oid
read_oid = do
  (tag, content) ← read_tlv
  if tag == tag_oid then lift (decode_oid content) else fail (decode (expected_oid tag))

unfoldable pub ip_or_octets : List ℕ → Value
ip_or_octets (a ∷ b ∷ c ∷ d ∷ []) = ip_address a b c d
ip_or_octets content = octet_string content

-- The `match` of `read_value`.
unfoldable pub value_of : ℕ → List ℕ → Outcome Value
unfolding ip_or_octets
value_of tag content =
    if tag == tag_integer
    then ok (integer (decode_integer content))
    else if tag == tag_octet_string
    then ok (octet_string content)
    else if tag == tag_null
    then ok null
    else if tag == tag_oid
    then and_then (decode_oid content) (λ oid. ok (object_identifier oid))
    else if tag == tag_ipaddress
    then ok (ip_or_octets content)
    else if tag == tag_counter32
    then ok (counter32 (decode_unsigned32 content))
    else if tag == tag_gauge32
    then ok (gauge32 (decode_unsigned32 content))
    else if tag == tag_timeticks
    then ok (time_ticks (decode_unsigned32 content))
    else if tag == tag_opaque
    then ok (opaque content)
    else if tag == tag_counter64
    then ok (counter64 (decode_unsigned64 content))
    else if tag == tag_no_such_object
    then ok no_such_object
    else if tag == tag_no_such_instance
    then ok no_such_instance
    else if tag == tag_end_of_mib_view
    then ok end_of_mib_view
    else ok (octet_string content)

unfoldable pub read_value : Reader Value
unfolding value_of
read_value = do (tag, content) ← read_tlv; lift (value_of tag content)
