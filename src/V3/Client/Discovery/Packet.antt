-- ===== src/V3/Client/Discovery/Packet.antt =====
-- src/v3_client.rs: the packet of `discover_engine`, as an agent reads it.
use rusnmp.Prelude.{ℕ, ◌^◌, ◌<◌, ◌≡◌, ap, arith, List, [], length, false}
use rusnmp.Prelude.Int.{ℤ, pos, IsI32}
use rusnmp.Error.{ok}
use rusnmp.Codec.Encoder.{
  encode_integer_bytes, strip_zeros, to_be_bytes, write_sequence, write_length, write_octet_string,
  write_integer,
}
use rusnmp.Codec.Encoder.Appends.{tlv, length_octets, length-tlv-le}
use rusnmp.V3.Messages.{
  UsmParams, encode_scoped_pdu, encode_usm_params, decode_v3_message, decode_scoped_pdu,
}
use rusnmp.Codec.Tags.{tag_sequence}
use rusnmp.Codec.RoundTrip.{pdu_content}
use rusnmp.Codec.Pdu.{encode_varbind_list}
use rusnmp.V3.Messages.Message.{IsScoped}
use rusnmp.V3.Messages.ScopedPdu.{
  scoped_of, scoped_content, encode_scoped_pdu-content, decode_scoped_pdu-encode_scoped_pdu,
}
use rusnmp.V3.Messages.Usm.{IsWireUsm}
use rusnmp.V3.Messages.RoundTrip.{
  message_content, message_of, params_of, decode_v3_message-encode_v3_message,
}
use rusnmp.V3.Messages.Lengths.{length-message_content}
use rusnmp.V3.Client.State.{v3_pdu_get, discovery_packet}

abbrev pub no_params : UsmParams
no_params = record {
  engine_id = [];
  engine_boots = 0;
  engine_time = 0;
  username = [];
  auth_params = [];
  priv_params = [];
}

abbrev pub blank : List ℕ
blank = encode_scoped_pdu [] [] v3_pdu_get (pos 0) (pos 0) (pos 0) []

no_params-IsWireUsm : IsWireUsm no_params
unfolding encode_integer_bytes strip_zeros to_be_bytes length_octets
no_params-IsWireUsm = record {
  boots = omega arith;
  time = omega arith;
  engine_small = omega arith;
  username_small = omega arith;
  auth_small = omega arith;
  priv_small = omega arith;
  fits = omega arith;
}

blank_content : List ℕ
blank_content = scoped_content [] [] v3_pdu_get (pdu_content (pos 0) (pos 0) (pos 0) [])

blank_content-small : length blank_content < 100
unfolding blank_content encode_integer_bytes strip_zeros to_be_bytes length_octets
blank_content-small = omega arith

blank_lem : blank ≡ tlv tag_sequence blank_content
unfolding blank_content encode_varbind_list
blank_lem = encode_scoped_pdu-content [] [] v3_pdu_get (pos 0) (pos 0) (pos 0) []

blank-IsScoped : IsScoped false blank
blank-IsScoped = (tag_sequence, blank_content, blank_lem, omega (arith, blank_content-small))

params_small : length (params_of no_params) < 100
unfolding encode_usm_params encode_integer_bytes strip_zeros to_be_bytes length_octets
    write_sequence write_length write_octet_string write_integer
params_small = omega arith

message_small :
    (msg_id : ℤ)
    → length (message_content msg_id (pos 65507) 0x04 (pos 3) (params_of no_params) blank false)
      < 2 ^ 24
message_small msg_id = omega (
  arith,
  length-message_content msg_id (pos 65507) 0x04 (pos 3) (params_of no_params) blank false,
  params_small,
  ap (λ t. length t) blank_lem,
  length-tlv-le tag_sequence blank_content,
  blank_content-small,
)

-- An agent that decodes the packet of a discovery reads the identifier of the message, the size
-- 65507, the flags of a reportable message without authentication and privacy, the security model 3,
-- no engine, no user and no code, and in the scoped PDU a GET without bindings. The identifier is an
-- i32.
pub decode_v3_message-discovery_packet :
    (msg_id : ℤ)
    → IsI32 msg_id
    → (decode_v3_message (discovery_packet msg_id)
        ≡ ok (message_of msg_id (pos 65507) 0x04 (pos 3) (params_of no_params) no_params blank))
      × (decode_scoped_pdu blank ≡ ok (scoped_of [] [] v3_pdu_get (pos 0) (pos 0) (pos 0) []))
unfolding discovery_packet
decode_v3_message-discovery_packet msg_id h = (
  decode_v3_message-encode_v3_message msg_id (pos 65507) 0x04 (pos 3) no_params blank h
      (omega arith) (omega arith) no_params-IsWireUsm blank-IsScoped (message_small msg_id),
  unfold encode_varbind_list in
      decode_scoped_pdu-encode_scoped_pdu [] [] v3_pdu_get (pos 0) (pos 0) (pos 0) [] (omega arith)
        (omega arith) (omega arith) tt (unfold blank_content in omega (arith, blank_content-small)),
)
