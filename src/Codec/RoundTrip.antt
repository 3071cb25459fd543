-- ===== src/Codec/RoundTrip.antt =====
-- src/codec.rs: whole messages, the encoder of requests under the tag of a response and
-- `decode_response`.
use rusnmp.Prelude.{ℕ, ◌^◌, ◌<◌, ◌≡◌, refl, arith}
use rusnmp.Prelude.{
  List, [], ◌∷◌, ◌++◌, map, length, append_assoc, All, length-le-append_left,
  length-le-append_right,
}
use rusnmp.Prelude.Int.{ℤ, IsI32, IsI64, as_u32, as_i32-IsI32, IsI64-IsI32}
use rusnmp.Error.{ok}
use rusnmp.Types.{VarBind, Version, to_i64, v1}
use rusnmp.Codec.Tags.{tag_integer, tag_octet_string, tag_sequence, pdu_response}
use rusnmp.Codec.Encoder.{encode_integer_bytes}
use rusnmp.Codec.Encoder.Appends.{tlv, length_octets, length-le-tlv, length-tlv-le, appends}
use rusnmp.Codec.Decoder.{read_integer, read_octet_string}
use rusnmp.Codec.Decoder.Reads.{
  Reads, Reads-pure, Reads-lift, Reads-bind, Reads-bind_last, Reads-eval,
}
use rusnmp.Codec.Decoder.Primitives.{
  Reads-read_tag, Reads-read_length, Reads-read_raw, Reads-read_tlv, Reads-read_sequence,
}
use rusnmp.Codec.Integers.{decode_integer-encode_integer_bytes, length-encode_integer_bytes}
use rusnmp.Codec.Pdu.{encode_pdu_bytes, encode_message, encode_varbind_list}
use rusnmp.Codec.Response.{
  SnmpResponse, version_of, read_response_pdu, read_response, decode_response,
}
use rusnmp.Codec.Varbinds.{
  IsWireVarBind, sent_varbind, varbinds_bytes, encode_varbind_list-bytes, read_varbinds-bytes,
}

abbrev pub integer_tlv : ℤ → List ℕ
integer_tlv v = tlv tag_integer (encode_integer_bytes v)

pub Reads-read_integer : (v : ℤ) → IsI64 v → Reads read_integer v (integer_tlv v)
unfolding read_integer
Reads-read_integer v h =
    Reads-bind_last _ (integer_tlv v)
      (Reads-read_tlv tag_integer (encode_integer_bytes v)
        (omega (arith, length-encode_integer_bytes v)))
      (rw (decode_integer-encode_integer_bytes v h) (Reads-pure v))

pub Reads-read_octet_string :
    (c : List ℕ) → length c < 2 ^ 24 → Reads read_octet_string c (tlv tag_octet_string c)
unfolding read_octet_string
Reads-read_octet_string c h =
    Reads-bind_last _ (tlv tag_octet_string c) (Reads-read_tlv tag_octet_string c h) (Reads-pure c)

-- The contents of a PDU, and of a message.
abbrev pub pdu_content : ℤ → ℤ → ℤ → List VarBind → List ℕ
pdu_content first second third vbs =
    integer_tlv first
    ++ (integer_tlv second ++ (integer_tlv third ++ tlv tag_sequence (varbinds_bytes vbs)))

abbrev pub message_content : Version → List ℕ → ℕ → List ℕ → List ℕ
message_content version community pdu_type content =
    integer_tlv (to_i64 version) ++ (tlv tag_octet_string community ++ tlv pdu_type content)

pub encode_pdu_bytes-content :
    (first second third : ℤ) (vbs : List VarBind)
    → encode_pdu_bytes first second third (encode_varbind_list vbs)
      ≡ pdu_content first second third vbs
unfolding encode_pdu_bytes
encode_pdu_bytes-content first second third vbs =
    simp (appends, append_assoc, encode_varbind_list-bytes)

pub encode_message-content :
    (version : Version) (community : List ℕ) (pdu_type : ℕ) (content : List ℕ)
    → encode_message version community pdu_type content
      ≡ tlv tag_sequence (message_content version community pdu_type content)
unfolding encode_message
encode_message-content version community pdu_type content = simp (appends, append_assoc)

pub version_of-to_i64 : (version : Version) → version_of (to_i64 version) ≡ ok version
unfolding version_of to_i64
version_of-to_i64 v1 = refl
version_of-to_i64 _ = refl

pub to_i64-IsI64 : (version : Version) → IsI64 (to_i64 version)
unfolding to_i64
to_i64-IsI64 v1 = omega arith
to_i64-IsI64 _ = omega arith

abbrev pub response_of : Version → List ℕ → ℤ → ℤ → ℤ → List VarBind → SnmpResponse
response_of version community request_id error_status error_index vbs = record {
  version = version;
  community = community;
  request_id = request_id;
  error_status = as_u32 error_status;
  error_index = as_u32 error_index;
  varbinds = map sent_varbind vbs;
}

-- What fits in a message fits in its parts.
module _ (version : Version) (community : List ℕ) (pdu_type : ℕ) (content : List ℕ) where
  pub community_small :
      length (message_content version community pdu_type content) < 2 ^ 24
      → length community < 2 ^ 24
  community_small fits = omega (
    arith,
    length-le-append_right (integer_tlv (to_i64 version))
        (tlv tag_octet_string community ++ tlv pdu_type content),
    length-le-append_left (tlv tag_octet_string community) (tlv pdu_type content),
    length-le-tlv tag_octet_string community,
  )

  pub content_small :
      length (message_content version community pdu_type content) < 2 ^ 24 → length content < 2 ^ 24
  content_small fits = omega (
    arith,
    length-le-append_right (integer_tlv (to_i64 version))
        (tlv tag_octet_string community ++ tlv pdu_type content),
    length-le-append_right (tlv tag_octet_string community) (tlv pdu_type content),
    length-le-tlv pdu_type content,
  )

pub varbinds_small :
    (first second third : ℤ) (vbs : List VarBind)
    → length (pdu_content first second third vbs) < 2 ^ 24
    → length (varbinds_bytes vbs) < 2 ^ 24
varbinds_small first second third vbs fits = omega (
  arith,
  length-le-append_right (integer_tlv first)
      (integer_tlv second ++ (integer_tlv third ++ tlv tag_sequence (varbinds_bytes vbs))),
  length-le-append_right (integer_tlv second)
      (integer_tlv third ++ tlv tag_sequence (varbinds_bytes vbs)),
  length-le-append_right (integer_tlv third) (tlv tag_sequence (varbinds_bytes vbs)),
  length-le-tlv tag_sequence (varbinds_bytes vbs),
)

module _ (version : Version) (community : List ℕ) (rid es ei : ℤ) (vbs : List VarBind) where
  Reads-read_response_pdu :
      IsI32 rid
      → IsI32 es
      → IsI32 ei
      → All IsWireVarBind vbs
      → length (varbinds_bytes vbs) < 2 ^ 24
      → Reads
          (read_response_pdu version community)
          (response_of version community rid es ei vbs)
          (pdu_content rid es ei vbs)
  unfolding read_response_pdu
  Reads-read_response_pdu hr hs hi w fits =
      Reads-bind _ (integer_tlv rid) _ (Reads-read_integer rid (IsI64-IsI32 rid hr)) (
        Reads-bind _ (integer_tlv es) _ (Reads-read_integer es (IsI64-IsI32 es hs)) (
          Reads-bind _ (integer_tlv ei) _ (Reads-read_integer ei (IsI64-IsI32 ei hi)) (
            Reads-bind_last _ (tlv tag_sequence (varbinds_bytes vbs))
              (Reads-read_sequence (varbinds_bytes vbs) fits)
              (Reads-bind_last _ [] (Reads-lift (read_varbinds-bytes vbs w (omega arith)))
                (rw (as_i32-IsI32 rid hr) (Reads-pure _))))))

  abbrev content : List ℕ
  content = pdu_content rid es ei vbs

  abbrev message : List ℕ
  message = message_content version community pdu_response content

  Reads-read_response :
      IsI32 rid
      → IsI32 es
      → IsI32 ei
      → All IsWireVarBind vbs
      → length message < 2 ^ 24
      → Reads read_response (response_of version community rid es ei vbs) message
  unfolding read_response
  Reads-read_response hr hs hi w fits =
      let small = content_small version community pdu_response content fits in
      let pdu = Reads-read_response_pdu hr hs hi w (varbinds_small rid es ei vbs small) in
      Reads-bind _ (integer_tlv (to_i64 version)) _
        (Reads-read_integer (to_i64 version) (to_i64-IsI64 version))
        (Reads-bind _ [] _ (Reads-lift (version_of-to_i64 version)) (
          Reads-bind _ (tlv tag_octet_string community) _
            (Reads-read_octet_string community
              (community_small version community pdu_response content fits))
            (Reads-bind _ (pdu_response ∷ []) _ (Reads-read_tag pdu_response) (
              Reads-bind _ (length_octets (length content)) _
                (Reads-read_length (length content) small)
                (Reads-bind_last _ content (Reads-read_raw content)
                  (Reads-lift (Reads-eval content (omega arith) pdu)))))))

  -- `decode_response` recovers the version, the community, the request identifier, the error
  -- status and index as u32 and the bindings in their order from a response that the encoder
  -- wrote, for i32 integers, bindings in range whose object identifiers their encoding
  -- determines, and contents below 2 ^ 24 bytes. Exception values come back as null.
  pub decode_response-encode_message :
      IsI32 rid
      → IsI32 es
      → IsI32 ei
      → All IsWireVarBind vbs
      → length message < 2 ^ 24
      → decode_response (
          encode_message version community pdu_response
            (encode_pdu_bytes rid es ei (encode_varbind_list vbs)))
        ≡ ok (response_of version community rid es ei vbs)
  unfolding decode_response
  decode_response-encode_message hr hs hi w fits =
      rw (encode_pdu_bytes-content, encode_message-content)
        (Reads-eval (tlv tag_sequence message) (omega (arith, length-tlv-le tag_sequence message)) (
          Reads-bind_last _ (tlv tag_sequence message) (Reads-read_sequence message fits)
            (Reads-lift (Reads-eval message (omega arith) (Reads-read_response hr hs hi w fits)))))
