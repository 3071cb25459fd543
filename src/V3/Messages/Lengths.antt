-- ===== src/V3/Messages/Lengths.antt =====
-- src/v3.rs: bounds on the length of a message.
use rusnmp.Prelude.{
  ℕ, ◌+◌, ◌≤◌, arith, ap, List, [], ◌∷◌, ◌++◌, length, length-append, Bool, true, false,
}
use rusnmp.Prelude.Int.{ℤ, pos}
use rusnmp.Codec.Encoder.{encode_integer_bytes}
use rusnmp.Codec.Encoder.Appends.{tlv, length-tlv-le}
use rusnmp.Codec.Integers.{length-encode_integer_bytes}
use rusnmp.Codec.Tags.{tag_sequence, tag_integer, tag_octet_string}
use rusnmp.Codec.RoundTrip.{integer_tlv}
use rusnmp.V3.Messages.{encode_v3_message}
use rusnmp.V3.Messages.Message.{scoped_bytes, header_content}
use rusnmp.V3.Messages.RoundTrip.{message_content, encode_v3_message-content}

length-integer_tlv : (v : ℤ) → length (integer_tlv v) ≤ 13
length-integer_tlv v =
    omega (arith, length-tlv-le tag_integer (encode_integer_bytes v), length-encode_integer_bytes v)

length-scoped_bytes :
    (encrypted : Bool) (raw : List ℕ) → length (scoped_bytes encrypted raw) ≤ length raw + 5
length-scoped_bytes true raw = length-tlv-le tag_octet_string raw
length-scoped_bytes false raw = omega arith

module _ (msg_id max_size : ℤ) (flags : ℕ) (security_model : ℤ) (params raw : List ℕ)
    (encrypted : Bool) where
  -- The contents take at most 80 bytes more than the security parameters and the scoped PDU.
  pub length-message_content :
      length (message_content msg_id max_size flags security_model params raw encrypted)
      ≤ length params + length raw + 80
  length-message_content =
      let model = integer_tlv security_model in
      let flag = tlv tag_octet_string (flags ∷ []) in
      let size = integer_tlv max_size in
      let header = header_content msg_id max_size flags security_model in
      let security = tlv tag_octet_string params in
      let tail = scoped_bytes encrypted raw in
      omega (
        arith,
        length-append (integer_tlv (pos 3)) (tlv tag_sequence header ++ (security ++ tail)),
        length-append (tlv tag_sequence header) (security ++ tail),
        length-append security tail,
        length-append (integer_tlv msg_id) (size ++ (flag ++ model)),
        length-append size (flag ++ model),
        length-append flag model,
        length-integer_tlv msg_id,
        length-integer_tlv max_size,
        length-integer_tlv security_model,
        length-integer_tlv (pos 3),
        length-tlv-le tag_sequence header,
        length-tlv-le tag_octet_string (flags ∷ []),
        length-tlv-le tag_octet_string params,
        length-scoped_bytes encrypted raw,
      )

  pub length-encode_v3_message :
      length (encode_v3_message msg_id max_size flags security_model params raw encrypted)
      ≤ length params + length raw + 85
  length-encode_v3_message =
      let content = message_content msg_id max_size flags security_model params raw encrypted in
      omega (
        arith,
        ap (λ t. length t)
            (encode_v3_message-content msg_id max_size flags security_model params raw encrypted),
        length-tlv-le tag_sequence content,
        length-message_content,
      )
