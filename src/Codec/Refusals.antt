-- ===== src/Codec/Refusals.antt =====
-- src/codec.rs: `decode_response` on messages with the tag of another PDU.
use rusnmp.Prelude.{ℕ, ◌^◌, ◌<◌, ◌≡◌, ◌≢◌, arith, List, [], ◌∷◌, length, ◌==◌}
use rusnmp.Error.{err, decode, expected_response}
use rusnmp.Types.{Version, to_i64}
use rusnmp.Codec.Tags.{tag_octet_string, tag_sequence, pdu_response}
use rusnmp.Codec.Encoder.Appends.{tlv, length-tlv-le}
use rusnmp.Codec.Decoder.Reads.{Reads-lift}
use rusnmp.Codec.Decoder.Gives.{
  Gives, Gives-bind, Gives-bind_last, Gives-else, Gives-fail, Gives-lift, Gives-eval,
}
use rusnmp.Codec.Decoder.Primitives.{Reads-read_tag, Reads-read_sequence}
use rusnmp.Codec.Pdu.{encode_message}
use rusnmp.Codec.Response.{read_response, decode_response}
use rusnmp.Codec.RoundTrip.{
  integer_tlv, Reads-read_integer, Reads-read_octet_string, message_content, encode_message-content,
  community_small, to_i64-IsI64, version_of-to_i64,
}

module _ (version : Version) (community : List ℕ) (pdu_type : ℕ) (content : List ℕ) where
  abbrev message : List ℕ
  message = message_content version community pdu_type content

  Gives-read_response :
      pdu_type ≢ pdu_response
      → length message < 2 ^ 24
      → Gives read_response (err (decode (expected_response pdu_type))) message
  unfolding read_response
  Gives-read_response other fits =
      Gives-bind _ (integer_tlv (to_i64 version)) _
        (Reads-read_integer (to_i64 version) (to_i64-IsI64 version))
        (Gives-bind _ [] _ (Reads-lift (version_of-to_i64 version)) (
          Gives-bind _ (tlv tag_octet_string community) _
            (Reads-read_octet_string community
              (community_small version community pdu_type content fits))
            (Gives-bind _ (pdu_type ∷ []) _ (Reads-read_tag pdu_type)
              (Gives-else _ (pdu_type == pdu_response) (ground (arith, other)) (Gives-fail _ _)))))

  -- A message with the tag of another PDU, such as a request of this library, is refused with that
  -- tag, whatever it holds, for a message below 2 ^ 24 bytes.
  pub decode_response-refuses :
      pdu_type ≢ pdu_response
      → length message < 2 ^ 24
      → decode_response (encode_message version community pdu_type content)
        ≡ err (decode (expected_response pdu_type))
  unfolding decode_response
  decode_response-refuses other fits = rw encode_message-content (
      Gives-eval (tlv tag_sequence message) (omega (arith, length-tlv-le tag_sequence message)) (
        Gives-bind_last _ (tlv tag_sequence message) (Reads-read_sequence message fits)
          (Gives-lift [] (Gives-eval message (omega arith) (Gives-read_response other fits)))))
