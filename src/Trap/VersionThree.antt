-- ===== src/Trap/VersionThree.antt =====
-- src/trap.rs: `decode_trap` on a v3 message that src/v3.rs writes.
use rusnmp.Prelude.{
  ℕ, ◌^◌, ◌+◌, ◌≤◌, ◌<◌, ◌≡◌, refl, arith, List, [], ◌∷◌, ◌++◌, map, length, length-append, All,
  false,
}
use rusnmp.Prelude.Int.{ℤ, pos, IsI64}
use rusnmp.Error.{ok}
use rusnmp.Types.{VarBind, v3}
use rusnmp.Codec.Tags.{tag_octet_string, tag_sequence}
use rusnmp.Codec.Encoder.Appends.{tlv, length_octets, length-tlv-le, length-le-tlv}
use rusnmp.Codec.Decoder.Reads.{
  Reads, Reads-pure, Reads-lift, Reads-bind, Reads-bind_last, Reads-eval,
}
use rusnmp.Codec.Decoder.Primitives.{
  Reads-read_tag, Reads-read_length, Reads-read_raw, Reads-read_sequence,
}
use rusnmp.Codec.Pdu.{encode_varbind_list}
use rusnmp.Codec.Response.{version_of}
use rusnmp.Codec.Varbinds.{IsWireVarBind, sent_varbind}
use rusnmp.Codec.RoundTrip.{integer_tlv, Reads-read_integer, Reads-read_octet_string, pdu_content}
use rusnmp.V3.Messages.{encode_scoped_pdu, encode_v3_message}
use rusnmp.V3.Messages.Message.{header_content}
use rusnmp.V3.Messages.ScopedPdu.{scoped_content, encode_scoped_pdu-content, parts_small}
use rusnmp.V3.Messages.RoundTrip.{message_content, encode_v3_message-content}
use rusnmp.Trap.{
  notification, read_v3_header, read_v3_scoped, decode_v3_trap, decode_by_version, read_trap,
  decode_trap,
}
use rusnmp.Trap.Notify.{Reads-read_notification_pdu}

Reads-read_v3_header :
    (msg_id max_size : ℤ) (flags : ℕ) (security_model : ℤ)
    → IsI64 msg_id
    → IsI64 max_size
    → IsI64 security_model
    → Reads read_v3_header tt (header_content msg_id max_size flags security_model)
unfolding read_v3_header
Reads-read_v3_header msg_id max_size flags security_model hi hs hm =
    Reads-bind _ (integer_tlv msg_id) _ (Reads-read_integer msg_id hi) (
      Reads-bind _ (integer_tlv max_size) _ (Reads-read_integer max_size hs) (
        Reads-bind _ (tlv tag_octet_string (flags ∷ [])) _
          (Reads-read_octet_string (flags ∷ []) (omega arith))
          (Reads-bind_last _ (integer_tlv security_model) (Reads-read_integer security_model hm)
            (Reads-pure _))))

module _ (engine_id context_name : List ℕ) (pdu_type : ℕ) (rid es ei : ℤ) (vbs : List VarBind) where
  abbrev content : List ℕ
  content = pdu_content rid es ei vbs

  abbrev scoped : List ℕ
  scoped = scoped_content engine_id context_name pdu_type content

  Reads-read_v3_scoped :
      IsI64 rid
      → IsI64 es
      → IsI64 ei
      → All IsWireVarBind vbs
      → length scoped < 2 ^ 24
      → Reads read_v3_scoped (map sent_varbind vbs) scoped
  unfolding read_v3_scoped
  Reads-read_v3_scoped hr hs hi w fits =
      let (engine, name, small) = parts_small engine_id context_name pdu_type rid es ei vbs fits in
      let pdu = Reads-read_notification_pdu rid es ei vbs hr hs hi w small in
      Reads-bind _ (tlv tag_octet_string engine_id) _ (Reads-read_octet_string engine_id engine) (
        Reads-bind _ (tlv tag_octet_string context_name) _
          (Reads-read_octet_string context_name name)
          (Reads-bind _ (pdu_type ∷ []) _ (Reads-read_tag pdu_type) (
            Reads-bind _ (length_octets (length content)) _
              (Reads-read_length (length content) small)
              (Reads-bind_last _ content (Reads-read_raw content)
                (Reads-lift (Reads-eval content (omega arith) pdu))))))

v3_version : version_of (pos 3) ≡ ok v3
unfolding version_of
v3_version = refl

module _ {Addr : Type 0} (source : Addr) (msg_id max_size : ℤ) (flags : ℕ) (security_model : ℤ)
    (params engine_id context_name : List ℕ) (pdu_type : ℕ) (rid es ei : ℤ)
    (vbs : List VarBind) where
  abbrev header : List ℕ
  header = header_content msg_id max_size flags security_model

  abbrev inner : List ℕ
  inner = scoped engine_id context_name pdu_type rid es ei vbs

  abbrev pub v3_message : List ℕ
  v3_message =
      message_content msg_id max_size flags security_model params (tlv tag_sequence inner) false

  v3_parts :
      length v3_message < 2 ^ 24
      → (length header < 2 ^ 24) × (length params < 2 ^ 24) × (length inner < 2 ^ 24)
  v3_parts fits =
      let head = tlv tag_sequence header in
      let security = tlv tag_octet_string params in
      let last = tlv tag_sequence inner in
      let total : length head + length security + length last ≤ length v3_message = omega (
        arith,
        length-append (integer_tlv (pos 3)) (head ++ (security ++ last)),
        length-append head (security ++ last),
        length-append security last,
      ) in
      (
        omega (arith, fits, total, length-le-tlv tag_sequence header),
        omega (arith, fits, total, length-le-tlv tag_octet_string params),
        omega (arith, fits, total, length-le-tlv tag_sequence inner),
      )

  abbrev after_version : List ℕ
  after_version = tlv tag_sequence header ++ (tlv tag_octet_string params ++ tlv tag_sequence inner)

  Reads-decode_v3_trap :
      IsI64 msg_id
      → IsI64 max_size
      → IsI64 security_model
      → IsI64 rid
      → IsI64 es
      → IsI64 ei
      → All IsWireVarBind vbs
      → length v3_message < 2 ^ 24
      → Reads
          (decode_v3_trap source)
          (notification source v3 [] (map sent_varbind vbs))
          after_version
  unfolding decode_v3_trap
  Reads-decode_v3_trap hm hx hy hr hs hi w fits =
      let parts = v3_parts fits in
      let head = Reads-read_v3_header msg_id max_size flags security_model hm hx hy in
      let pdu =
        Reads-read_v3_scoped engine_id context_name pdu_type rid es ei vbs hr hs hi w parts.2 in
      Reads-bind _ (tlv tag_sequence header) _ (Reads-read_sequence header parts.0) (
        Reads-bind _ [] _ (Reads-lift (Reads-eval header (omega (arith, parts.0)) head)) (
          Reads-bind _ (tlv tag_octet_string params) _ (Reads-read_octet_string params parts.1) (
            Reads-bind_last _ (tlv tag_sequence inner) (Reads-read_sequence inner parts.2) (
              Reads-bind_last _ [] (Reads-lift (Reads-eval inner (omega (arith, parts.2)) pdu))
                (Reads-pure _)))))

  Reads-read_v3_trap :
      Reads (decode_v3_trap source) (notification source v3 [] (map sent_varbind vbs)) after_version
      → Reads (read_trap source) (notification source v3 [] (map sent_varbind vbs)) v3_message
  unfolding read_trap decode_by_version
  Reads-read_v3_trap r =
      Reads-bind _ (integer_tlv (pos 3)) _ (Reads-read_integer (pos 3) (omega arith))
        (Reads-bind (λ version. decode_by_version version source) [] _ (Reads-lift v3_version) r)

  -- `decode_trap` takes the bindings, in their order, out of a plain v3 message that
  -- `encode_v3_message` wrote around a PDU of `encode_scoped_pdu`. It needs nothing of the security
  -- parameters, which may be any bytes, nor of the flags, and takes a PDU of any type for a trap. The
  -- community stays empty and the fields of a v1 trap unset. The integers are i64, the bindings in
  -- range that their encoding determines, all contents below 2 ^ 24 bytes. Exception values come back
  -- as null.
  pub decode_trap-encode_v3_message :
      IsI64 msg_id
      → IsI64 max_size
      → IsI64 security_model
      → IsI64 rid
      → IsI64 es
      → IsI64 ei
      → All IsWireVarBind vbs
      → length v3_message < 2 ^ 24
      → decode_trap
          (encode_v3_message msg_id max_size flags security_model params
            (encode_scoped_pdu engine_id context_name pdu_type rid es ei (encode_varbind_list vbs))
            false)
          source
        ≡ ok (notification source v3 [] (map sent_varbind vbs))
  unfolding decode_trap
  decode_trap-encode_v3_message hm hx hy hr hs hi w fits =
      rw (encode_scoped_pdu-content, encode_v3_message-content)
        (Reads-eval (tlv tag_sequence v3_message)
          (omega (arith, fits, length-tlv-le tag_sequence v3_message))
          (Reads-bind_last _ (tlv tag_sequence v3_message) (Reads-read_sequence v3_message fits) (
            Reads-lift (
              Reads-eval v3_message (omega (arith, fits))
                (Reads-read_v3_trap (Reads-decode_v3_trap hm hx hy hr hs hi w fits))))))
