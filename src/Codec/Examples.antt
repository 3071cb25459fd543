-- ===== src/Codec/Examples.antt =====
-- src/codec.rs: concrete runs of the encoder and the decoder.
use rusnmp.Prelude.{ℕ, ◌^◌, ◌<◌, ◌≡◌, refl, arith, List, [], ◌∷◌, ◌++◌, length, All}
use rusnmp.Prelude.Int.{pos, negsuc}
use rusnmp.Error.{ok, err, panicked, decode, expected_response, out_of_fuel}
use rusnmp.Types.{Oid, VarBind, integer, octet_string, null, end_of_mib_view, v2c, to_i64}
use rusnmp.Codec.Tags.{pdu_response, pdu_get}
use rusnmp.Codec.Encoder.{
  encode_oid, encode_sub_id, encode_integer_bytes, write_length, strip_zeros, strip_ones,
  to_be_bytes,
}
use rusnmp.Codec.Encoder.{write_null}
use rusnmp.Codec.Pdu.{encode_value, encode_message, encode_pdu_bytes, encode_varbind_list}
use rusnmp.Codec.Decoder.{BerDecoder, new, decode_oid, read_value, read_length, read_raw}
use rusnmp.Codec.Response.{decode_response}
use rusnmp.Codec.Oids.{decode_oid-encode_oid_iff, IsPacked}
use rusnmp.Codec.Encoder.Appends.{length_octets}
use rusnmp.Codec.Varbinds.{IsWireVarBind, encode_varbind_list-bytes}
use rusnmp.Codec.Decoder.Primitives.{read_length-write_length}
use rusnmp.Codec.Decoder.Bounds.{read_raw_lem}
use rusnmp.Codec.Panics.{huge_sequence, decode_response-huge_sequence}
use rusnmp.Codec.Response.Ends.{decode_response-ends}
use rusnmp.Prelude.{◌≢◌, ◌↔◌, replicate}
use rusnmp.Codec.Values.{read_value-encode_value}
use rusnmp.Codec.RoundTrip.{decode_response-encode_message, response_of}
use rusnmp.Codec.Pdu.{
  encode_get_request, encode_getnext_request, encode_getbulk_request, encode_set_request,
}
use rusnmp.Codec.Tags.{pdu_getnext, pdu_getbulk, pdu_set}
use rusnmp.Codec.Varbinds.{null_varbind}
use rusnmp.Codec.Requests.{request, encode_requests-request}
use rusnmp.Codec.Refusals.{decode_response-refuses}

abbrev sys_descr : Oid
sys_descr = record { components = 1 ∷ 3 ∷ 6 ∷ 1 ∷ 2 ∷ 1 ∷ [] }

abbrev community : List ℕ
community = 112 ∷ 117 ∷ 98 ∷ []

abbrev bindings : List VarBind
bindings =
    record { oid = sys_descr; value = integer (negsuc 299) }
    ∷ record { oid = sys_descr; value = octet_string (104 ∷ 105 ∷ []) }
    ∷ []

bindings-IsWireVarBind : All IsWireVarBind bindings
unfolding encode_oid encode_sub_id encode_integer_bytes strip_ones to_be_bytes length_octets
bindings-IsWireVarBind = ground arith

decode_response-encode_message_example :
    decode_response (
      encode_message v2c community pdu_response
        (encode_pdu_bytes (pos 7) (pos 0) (pos 0) (encode_varbind_list bindings)))
    ≡ ok (response_of v2c community (pos 7) (pos 0) (pos 0) bindings)
unfolding encode_oid encode_sub_id encode_integer_bytes to_i64 strip_zeros strip_ones to_be_bytes
    length_octets
decode_response-encode_message_example =
    decode_response-encode_message v2c community (pos 7) (pos 0) (pos 0) bindings (omega arith)
      (omega arith) (omega arith) bindings-IsWireVarBind (omega arith)

bindings-length : length (encode_varbind_list bindings) < 2 ^ 63
unfolding encode_oid encode_sub_id encode_integer_bytes strip_ones to_be_bytes length_octets
bindings-length = rw encode_varbind_list-bytes (omega arith)

decode_response-refuses_example :
    decode_response (encode_message v2c community pdu_get [])
    ≡ err (decode (expected_response pdu_get))
unfolding encode_integer_bytes to_i64 strip_zeros to_be_bytes length_octets
decode_response-refuses_example =
    decode_response-refuses v2c community pdu_get [] (omega arith) (omega arith)

decode_oid-encode_oid_iff_example :
    (decode_oid (encode_oid (record { components = 2 ∷ 40 ∷ 5 ∷ [] }))
      ≡ ok (record { components = 2 ∷ 40 ∷ 5 ∷ [] }))
    ↔ IsPacked 2 40
decode_oid-encode_oid_iff_example = decode_oid-encode_oid_iff 2 40 (5 ∷ []) (omega arith, tt)

read_value-encode_value_example :
    read_value (new ((encode_value end_of_mib_view (record { buf = [] })).buf ++ 9 ∷ [])) ≡ (
      ok null,
      record {
        bytes = (encode_value end_of_mib_view (record { buf = [] })).buf ++ 9 ∷ [];
        pos = length (encode_value end_of_mib_view (record { buf = [] })).buf;
      },
    )
unfolding encode_value write_null
read_value-encode_value_example = read_value-encode_value end_of_mib_view (9 ∷ []) tt (omega arith)

read_length-write_length_example :
    read_length (new ((write_length 16777221 (record { buf = [] })).buf ++ 9 ∷ [])) ≡ (
      ok 5,
      record {
        bytes = (write_length 16777221 (record { buf = [] })).buf ++ 9 ∷ [];
        pos = length (write_length 16777221 (record { buf = [] })).buf;
      },
    )
unfolding write_length
read_length-write_length_example = read_length-write_length 16777221 (9 ∷ []) (omega arith)

abbrev five : BerDecoder
five = record { bytes = 1 ∷ 2 ∷ 3 ∷ 4 ∷ 5 ∷ []; pos = 2 }

read_raw_lem_example : read_raw 2 five ≡ (ok (3 ∷ 4 ∷ []), record five { pos = 4 })
read_raw_lem_example =
    read_raw_lem five 2 (record { small = omega arith; inside = omega arith }) (omega arith)

abbrev octets : List ℕ
octets = replicate 8 255

abbrev huge : List ℕ
huge = huge_sequence octets (1 ∷ [])

decode_response-huge_sequence_example : decode_response huge ≡ panicked
decode_response-huge_sequence_example =
    decode_response-huge_sequence octets (1 ∷ []) refl (ground arith) (omega arith) (omega arith)

decode_response-ends_example : decode_response huge ≢ out_of_fuel
decode_response-ends_example = decode_response-ends huge (omega arith)

encode_requests-request_example :
    (encode_get_request v2c community (pos 7) (sys_descr ∷ [])
      ≡ request v2c community pdu_get (pos 7) (pos 0) (pos 0) (null_varbind sys_descr ∷ []))
    × (encode_getnext_request v2c community (pos 7) (sys_descr ∷ [])
        ≡ request v2c community pdu_getnext (pos 7) (pos 0) (pos 0) (null_varbind sys_descr ∷ []))
    × (encode_getbulk_request v2c community (pos 7) (pos 0) (pos 20) (sys_descr ∷ [])
        ≡ request v2c community pdu_getbulk (pos 7) (pos 0) (pos 20) (null_varbind sys_descr ∷ []))
    × (encode_set_request v2c community (pos 7) bindings
        ≡ request v2c community pdu_set (pos 7) (pos 0) (pos 0) bindings)
encode_requests-request_example =
    encode_requests-request v2c community (pos 7) (pos 0) (pos 20) (sys_descr ∷ []) bindings
