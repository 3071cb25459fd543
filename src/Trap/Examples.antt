-- ===== src/Trap/Examples.antt =====
-- src/trap.rs: concrete runs of the receiver.
use rusnmp.Prelude.{ℕ, ◌≡◌, ◌≢◌, refl, arith, List, [], ◌∷◌, take, All, false}
use rusnmp.Prelude.Int.{pos}
use rusnmp.Error.{ok, err, decode, expected_integer, out_of_fuel}
use rusnmp.Types.{Oid, VarBind, integer, v1, v2c, v3, to_i64}
use rusnmp.Codec.Tags.{tag_timeticks}
use rusnmp.Codec.Encoder.{encode_oid, encode_sub_id, encode_integer_bytes, strip_zeros, to_be_bytes}
use rusnmp.Codec.Encoder.Appends.{length_octets}
use rusnmp.Codec.Decoder.{
  remaining, read_tag, read_length, read_raw, read_tlv, read_sequence, decode_integer, read_integer,
  read_octet_string,
}
use rusnmp.Codec.Pdu.{encode_message, encode_pdu_bytes, encode_varbind_list}
use rusnmp.Codec.Response.{read_varbinds}
use rusnmp.Codec.Varbinds.{IsWireVarBind}
use rusnmp.Trap.{datagram, notification, returned, pdu_trap_v1, pdu_trap_v2, decode_trap, recv}
use rusnmp.Trap.VersionOne.{v1_content, decode_trap-v1_content}
use rusnmp.Trap.VersionThree.{decode_trap-encode_v3_message}
use rusnmp.V3.Messages.{encode_scoped_pdu, encode_v3_message}
use rusnmp.Trap.Ends.{decode_trap-ends}
use rusnmp.Trap.Notify.{decode_trap-encode_message}
use rusnmp.Trap.Receive.{IsRefused, recv-first}

abbrev community : List ℕ
community = 0x70 ∷ 0x75 ∷ 0x62 ∷ []

abbrev bindings : List VarBind
bindings = record { oid = record { components = 1 ∷ 3 ∷ 6 ∷ [] }; value = integer (pos 5) } ∷ []

bindings-IsWireVarBind : All IsWireVarBind bindings
unfolding encode_oid encode_sub_id encode_integer_bytes strip_zeros to_be_bytes length_octets
bindings-IsWireVarBind = ground arith

-- Addresses are numbers here.
abbrev agent : ℕ
agent = 10

abbrev stranger : ℕ
stranger = 9

decode_trap-encode_message_example :
    decode_trap
      (encode_message v2c community pdu_trap_v2
        (encode_pdu_bytes (pos 7) (pos 0) (pos 0) (encode_varbind_list bindings)))
      agent
    ≡ ok (notification agent v2c community bindings)
unfolding encode_oid encode_sub_id encode_integer_bytes to_i64 strip_zeros to_be_bytes length_octets
decode_trap-encode_message_example =
    decode_trap-encode_message agent community (pos 7) (pos 0) (pos 0) bindings (omega arith)
      (omega arith) (omega arith) bindings-IsWireVarBind (omega arith)

-- A notification with no bindings.
abbrev trap_bytes : List ℕ
trap_bytes =
    0x30 ∷ 0x15 ∷ 0x02 ∷ 0x01 ∷ 0x01 ∷ 0x04 ∷ 0x03 ∷ 0x70 ∷ 0x75 ∷ 0x62 ∷ 0xA7 ∷ 0x0B ∷ 0x02 ∷ 0x01
    ∷ 0x07 ∷ 0x02 ∷ 0x01 ∷ 0x00 ∷ 0x02 ∷ 0x01 ∷ 0x00 ∷ 0x30 ∷ 0x00 ∷ []

trap_bytes-decoded :
    decode_trap (take 65535 trap_bytes) agent ≡ ok (notification agent v2c community [])
unfolding decode_trap read_sequence read_tag read_length read_raw read_integer read_tlv
    decode_integer read_octet_string read_varbinds remaining
trap_bytes-decoded = refl

empty-IsRefused : IsRefused (datagram [] stranger)
unfolding decode_trap read_sequence read_tag
empty-IsRefused = (_, refl)

recv-first_example :
    recv (datagram [] stranger ∷ datagram trap_bytes agent ∷ datagram [] stranger ∷ [])
    ≡ returned (ok (notification agent v2c community [])) (datagram [] stranger ∷ [])
recv-first_example =
    recv-first (datagram [] stranger ∷ []) trap_bytes agent (datagram [] stranger ∷ [])
      (notification agent v2c community []) (empty-IsRefused, tt) trap_bytes-decoded

decode_trap-ends_example : decode_trap (0x30 ∷ 0x84 ∷ []) stranger ≢ out_of_fuel
decode_trap-ends_example = decode_trap-ends (0x30 ∷ 0x84 ∷ []) stranger (omega arith)

abbrev enterprise : Oid
enterprise = record { components = 1 ∷ 3 ∷ 6 ∷ [] }

-- A cold start, with the ticks in an element of the given tag.
abbrev cold_start : ℕ → List ℕ
cold_start ticks_tag =
    encode_message v1 community pdu_trap_v1 (
      v1_content enterprise 0x40 (10 ∷ 0 ∷ 0 ∷ 1 ∷ []) (pos 0) (pos 0) ticks_tag (pos 500) bindings)

-- As agents send it, with the tag of TimeTicks: refused.
decode_trap-v1_content_example :
    decode_trap (cold_start tag_timeticks) agent ≡ err (decode (expected_integer 0x43))
unfolding encode_oid encode_sub_id encode_integer_bytes to_i64 strip_zeros to_be_bytes length_octets
decode_trap-v1_content_example =
    decode_trap-v1_content agent community enterprise 0x40 (10 ∷ 0 ∷ 0 ∷ 1 ∷ []) (pos 0) (pos 0)
      tag_timeticks (pos 500) bindings
      (record {
        has_enterprise = ground arith;
        has_address = omega arith;
        has_generic = omega arith;
        has_specific = omega arith;
        has_ticks = omega arith;
        has_varbinds = bindings-IsWireVarBind;
        list = omega arith;
        fits = omega arith;
      })

decode_trap-encode_v3_message_example :
    decode_trap
      (encode_v3_message
        (pos 1)
        (pos 65507)
        4
        (pos 3)
        []
        (encode_scoped_pdu
          (1 ∷ 2 ∷ [])
          []
          pdu_trap_v2
          (pos 7)
          (pos 0)
          (pos 0)
          (encode_varbind_list bindings))
        false)
      agent
    ≡ ok (notification agent v3 [] bindings)
unfolding encode_oid encode_sub_id encode_integer_bytes strip_zeros to_be_bytes length_octets
decode_trap-encode_v3_message_example =
    decode_trap-encode_v3_message agent (pos 1) (pos 65507) 4 (pos 3) [] (1 ∷ 2 ∷ []) [] pdu_trap_v2
      (pos 7) (pos 0) (pos 0) bindings (omega arith) (omega arith) (omega arith) (omega arith)
      (omega arith) (omega arith) bindings-IsWireVarBind (omega arith)
