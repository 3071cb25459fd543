-- ===== src/V3/Messages/ScopedPdu.antt =====
-- src/v3.rs: `encode_scoped_pdu` and `decode_scoped_pdu`.
use rusnmp.Prelude.{
  ℕ, ◌^◌, ◌<◌, ◌≡◌, arith, List, [], ◌∷◌, ◌++◌, map, length, append_assoc, All,
  length-le-append_left, length-le-append_right,
}
use rusnmp.Prelude.Int.{ℤ, IsI32, as_u32, as_i32-IsI32, IsI64-IsI32}
use rusnmp.Error.{ok}
use rusnmp.Types.{VarBind}
use rusnmp.Codec.Tags.{tag_octet_string, tag_sequence}
use rusnmp.Codec.Encoder.Appends.{tlv, length_octets, length-le-tlv, length-tlv-le, appends}
use rusnmp.Codec.Decoder.Reads.{
  Reads, Reads-pure, Reads-lift, Reads-bind, Reads-bind_last, Reads-eval,
}
use rusnmp.Codec.Decoder.Primitives.{
  Reads-read_tag, Reads-read_length, Reads-read_raw, Reads-read_sequence,
}
use rusnmp.Codec.Pdu.{encode_varbind_list}
use rusnmp.Codec.Varbinds.{
  IsWireVarBind, sent_varbind, varbinds_bytes, encode_varbind_list-bytes, read_varbinds-bytes,
}
use rusnmp.Codec.RoundTrip.{
  integer_tlv, Reads-read_integer, Reads-read_octet_string, pdu_content, varbinds_small,
}
use rusnmp.V3.Messages.{
  ScopedPduData, encode_scoped_pdu, read_scoped_fields, read_scoped_pdu, decode_scoped_pdu,
}

abbrev pub scoped_content : List ℕ → List ℕ → ℕ → List ℕ → List ℕ
scoped_content engine_id context_name pdu_type content =
    tlv tag_octet_string engine_id ++ (tlv tag_octet_string context_name ++ tlv pdu_type content)

pub encode_scoped_pdu-content :
    (engine_id context_name : List ℕ) (pdu_type : ℕ) (rid es ei : ℤ) (vbs : List VarBind)
    → encode_scoped_pdu engine_id context_name pdu_type rid es ei (encode_varbind_list vbs)
      ≡ tlv tag_sequence
          (scoped_content engine_id context_name pdu_type (pdu_content rid es ei vbs))
unfolding encode_scoped_pdu
encode_scoped_pdu-content engine_id context_name pdu_type rid es ei vbs =
    simp (appends, append_assoc, encode_varbind_list-bytes)

abbrev pub scoped_of : List ℕ → List ℕ → ℕ → ℤ → ℤ → ℤ → List VarBind → ScopedPduData
scoped_of engine_id context_name pdu_type rid es ei vbs = record {
  context_engine_id = engine_id;
  context_name = context_name;
  pdu_type = pdu_type;
  request_id = rid;
  error_status = as_u32 es;
  error_index = as_u32 ei;
  varbinds = map sent_varbind vbs;
}

module _ (engine_id context_name : List ℕ) (pdu_type : ℕ) (rid es ei : ℤ) (vbs : List VarBind) where
  abbrev content : List ℕ
  content = pdu_content rid es ei vbs

  abbrev whole : List ℕ
  whole = scoped_content engine_id context_name pdu_type content

  pub parts_small :
      length whole < 2 ^ 24
      → (length engine_id < 2 ^ 24) × (length context_name < 2 ^ 24) × (length content < 2 ^ 24)
  parts_small fits =
      let tail = tlv tag_octet_string context_name ++ tlv pdu_type content in
      let right = length-le-append_right (tlv tag_octet_string engine_id) tail in
      (
        omega (
          arith,
          length-le-append_left (tlv tag_octet_string engine_id) tail,
          length-le-tlv tag_octet_string engine_id,
        ),
        omega (
          arith,
          right,
          length-le-append_left (tlv tag_octet_string context_name) (tlv pdu_type content),
          length-le-tlv tag_octet_string context_name,
        ),
        omega (
          arith,
          right,
          length-le-append_right (tlv tag_octet_string context_name) (tlv pdu_type content),
          length-le-tlv pdu_type content,
        ),
      )

  Reads-read_scoped_fields :
      IsI32 rid
      → IsI32 es
      → IsI32 ei
      → All IsWireVarBind vbs
      → length content < 2 ^ 24
      → Reads
          (read_scoped_fields engine_id context_name pdu_type)
          (scoped_of engine_id context_name pdu_type rid es ei vbs)
          content
  unfolding read_scoped_fields
  Reads-read_scoped_fields hr hs hi w fits =
      let small = varbinds_small rid es ei vbs fits in
      Reads-bind _ (integer_tlv rid) _ (Reads-read_integer rid (IsI64-IsI32 rid hr)) (
        Reads-bind _ (integer_tlv es) _ (Reads-read_integer es (IsI64-IsI32 es hs)) (
          Reads-bind _ (integer_tlv ei) _ (Reads-read_integer ei (IsI64-IsI32 ei hi)) (
            Reads-bind_last _ (tlv tag_sequence (varbinds_bytes vbs))
              (Reads-read_sequence (varbinds_bytes vbs) small)
              (Reads-bind_last _ [] (Reads-lift (read_varbinds-bytes vbs w (omega arith)))
                (rw (as_i32-IsI32 rid hr) (Reads-pure _))))))

  pub Reads-read_scoped_pdu :
      IsI32 rid
      → IsI32 es
      → IsI32 ei
      → All IsWireVarBind vbs
      → length whole < 2 ^ 24
      → Reads read_scoped_pdu (scoped_of engine_id context_name pdu_type rid es ei vbs) whole
  unfolding read_scoped_pdu
  Reads-read_scoped_pdu hr hs hi w fits =
      let (engine, name, small) = parts_small fits in
      let pdu = Reads-read_scoped_fields hr hs hi w small in
      Reads-bind _ (tlv tag_octet_string engine_id) _ (Reads-read_octet_string engine_id engine) (
        Reads-bind _ (tlv tag_octet_string context_name) _
          (Reads-read_octet_string context_name name)
          (Reads-bind _ (pdu_type ∷ []) _ (Reads-read_tag pdu_type) (
            Reads-bind _ (length_octets (length content)) _
              (Reads-read_length (length content) small)
              (Reads-bind_last _ content (Reads-read_raw content)
                (Reads-lift (Reads-eval content (omega arith) pdu))))))

  -- `decode_scoped_pdu` recovers every field that `encode_scoped_pdu` wrote, whatever the type
  -- of the PDU, for i32 integers, bindings in range that their encoding determines and contents
  -- below 2 ^ 24 bytes. Exception values come back as null.
  pub decode_scoped_pdu-encode_scoped_pdu :
      IsI32 rid
      → IsI32 es
      → IsI32 ei
      → All IsWireVarBind vbs
      → length whole < 2 ^ 24
      → decode_scoped_pdu
          (encode_scoped_pdu engine_id context_name pdu_type rid es ei (encode_varbind_list vbs))
        ≡ ok (scoped_of engine_id context_name pdu_type rid es ei vbs)
  unfolding decode_scoped_pdu
  decode_scoped_pdu-encode_scoped_pdu hr hs hi w fits = rw encode_scoped_pdu-content (
      Reads-eval (tlv tag_sequence whole) (omega (arith, length-tlv-le tag_sequence whole)) (
        Reads-bind_last _ (tlv tag_sequence whole) (Reads-read_sequence whole fits)
          (Reads-lift (Reads-eval whole (omega arith) (Reads-read_scoped_pdu hr hs hi w fits)))))
