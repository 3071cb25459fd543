-- ===== src/Trap/Notify.antt =====
-- src/trap.rs: `decode_trap` on a v2c notification that the encoder of requests writes under the
-- tag of a trap.
use rusnmp.Prelude.{ℕ, ◌^◌, ◌<◌, ◌≡◌, arith, List, [], ◌∷◌, map, length, All}
use rusnmp.Prelude.Int.{ℤ, IsI64}
use rusnmp.Error.{ok}
use rusnmp.Types.{VarBind, v2c, to_i64}
use rusnmp.Codec.Tags.{tag_octet_string, tag_sequence}
use rusnmp.Codec.Encoder.Appends.{tlv, length_octets, length-tlv-le}
use rusnmp.Codec.Decoder.Reads.{
  Reads, Reads-pure, Reads-lift, Reads-bind, Reads-bind_last, Reads-eval,
}
use rusnmp.Codec.Decoder.Primitives.{
  Reads-read_tag, Reads-read_length, Reads-read_raw, Reads-read_sequence,
}
use rusnmp.Codec.Pdu.{encode_pdu_bytes, encode_message, encode_varbind_list}
use rusnmp.Codec.Varbinds.{IsWireVarBind, sent_varbind, varbinds_bytes, read_varbinds-bytes}
use rusnmp.Codec.RoundTrip.{
  integer_tlv, Reads-read_integer, Reads-read_octet_string, pdu_content, message_content,
  encode_pdu_bytes-content, encode_message-content, community_small, content_small, varbinds_small,
  to_i64-IsI64, version_of-to_i64,
}
use rusnmp.Trap.{
  pdu_trap_v2, read_notification_pdu, notification, decode_v2c_trap, decode_by_version, read_trap,
  decode_trap,
}

module _ (rid es ei : ℤ) (vbs : List VarBind) where
  pub Reads-read_notification_pdu :
      IsI64 rid
      → IsI64 es
      → IsI64 ei
      → All IsWireVarBind vbs
      → length (pdu_content rid es ei vbs) < 2 ^ 24
      → Reads read_notification_pdu (map sent_varbind vbs) (pdu_content rid es ei vbs)
  unfolding read_notification_pdu
  Reads-read_notification_pdu hr hs hi w fits =
      let small = varbinds_small rid es ei vbs fits in
      Reads-bind _ (integer_tlv rid) _ (Reads-read_integer rid hr) (
        Reads-bind _ (integer_tlv es) _ (Reads-read_integer es hs) (
          Reads-bind _ (integer_tlv ei) _ (Reads-read_integer ei hi) (
            Reads-bind_last _ (tlv tag_sequence (varbinds_bytes vbs))
              (Reads-read_sequence (varbinds_bytes vbs) small)
              (Reads-lift (read_varbinds-bytes vbs w (omega arith))))))

module _ {Addr : Type 0} (source : Addr) (community : List ℕ) (rid es ei : ℤ)
    (vbs : List VarBind) where
  abbrev content : List ℕ
  content = pdu_content rid es ei vbs

  abbrev message : List ℕ
  message = message_content v2c community pdu_trap_v2 content

  Reads-read_trap :
      IsI64 rid
      → IsI64 es
      → IsI64 ei
      → All IsWireVarBind vbs
      → length message < 2 ^ 24
      → Reads (read_trap source) (notification source v2c community (map sent_varbind vbs)) message
  unfolding read_trap decode_by_version decode_v2c_trap
  Reads-read_trap hr hs hi w fits =
      let small = content_small v2c community pdu_trap_v2 content fits in
      let pdu = Reads-read_notification_pdu rid es ei vbs hr hs hi w small in
      Reads-bind _ (integer_tlv (to_i64 v2c)) _ (Reads-read_integer (to_i64 v2c) (to_i64-IsI64 v2c))
        (Reads-bind _ [] _ (Reads-lift (version_of-to_i64 v2c)) (
          Reads-bind _ (tlv tag_octet_string community) _
            (Reads-read_octet_string community
              (community_small v2c community pdu_trap_v2 content fits))
            (Reads-bind _ (pdu_trap_v2 ∷ []) _ (Reads-read_tag pdu_trap_v2) (
              Reads-bind _ (length_octets (length content)) _
                (Reads-read_length (length content) small)
                (Reads-bind_last _ content (Reads-read_raw content) (
                  Reads-bind_last _ [] (Reads-lift (Reads-eval content (omega arith) pdu))
                    (Reads-pure _)))))))

  -- `decode_trap` recovers the community and the bindings, in their order, of a v2c
  -- notification that the encoder wrote, and sets none of the fields of a v1 trap, for i64
  -- integers, bindings in range that their encoding determines and contents below 2 ^ 24 bytes.
  -- Exception values come back as null.
  pub decode_trap-encode_message :
      IsI64 rid
      → IsI64 es
      → IsI64 ei
      → All IsWireVarBind vbs
      → length message < 2 ^ 24
      → decode_trap
          (encode_message v2c community pdu_trap_v2
            (encode_pdu_bytes rid es ei (encode_varbind_list vbs)))
          source
        ≡ ok (notification source v2c community (map sent_varbind vbs))
  unfolding decode_trap
  decode_trap-encode_message hr hs hi w fits =
      rw (encode_pdu_bytes-content, encode_message-content)
        (Reads-eval (tlv tag_sequence message) (omega (arith, length-tlv-le tag_sequence message)) (
          Reads-bind_last _ (tlv tag_sequence message) (Reads-read_sequence message fits)
            (Reads-lift (Reads-eval message (omega arith) (Reads-read_trap hr hs hi w fits)))))
