-- ===== src/Codec/Requests.antt =====
-- src/codec.rs: the messages of the four requests, byte for byte.
use rusnmp.Prelude.{ℕ, ◌≡◌, ap, sym, ◌∙◌, List, map}
use rusnmp.Prelude.Int.{ℤ, pos}
use rusnmp.Types.{Oid, VarBind, Version}
use rusnmp.Codec.Tags.{tag_sequence, pdu_get, pdu_getnext, pdu_set, pdu_getbulk}
use rusnmp.Codec.Encoder.Appends.{tlv}
use rusnmp.Codec.Pdu.{
  encode_varbind_list, encode_varbind_list_null, encode_pdu_bytes, encode_message,
  encode_get_request, encode_getnext_request, encode_getbulk_request, encode_set_request,
}
use rusnmp.Codec.Varbinds.{null_varbind, encode_varbind_list-bytes, encode_varbind_list_null-bytes}
use rusnmp.Codec.RoundTrip.{
  pdu_content, message_content, encode_pdu_bytes-content, encode_message-content,
}

-- The bytes of a request: a sequence of the version, the community and, under its tag, the PDU, which
-- is three integers and a sequence of a sequence for each binding, each field an element of a tag,
-- length octets and contents.
abbrev pub request : Version → List ℕ → ℕ → ℤ → ℤ → ℤ → List VarBind → List ℕ
request version community pdu_type first second third vbs =
    tlv tag_sequence
      (message_content version community pdu_type (pdu_content first second third vbs))

message-request :
    (version : Version) (community : List ℕ) (pdu_type : ℕ) (first second third : ℤ)
    (vbs : List VarBind)
    → encode_message version community pdu_type
        (encode_pdu_bytes first second third (encode_varbind_list vbs))
      ≡ request version community pdu_type first second third vbs
message-request version community pdu_type first second third vbs =
    rw encode_pdu_bytes-content
      (encode_message-content version community pdu_type (pdu_content first second third vbs))

nulls-request :
    (version : Version) (community : List ℕ) (pdu_type : ℕ) (first second third : ℤ)
    (oids : List Oid)
    → encode_message version community pdu_type
        (encode_pdu_bytes first second third (encode_varbind_list_null oids))
      ≡ request version community pdu_type first second third (map null_varbind oids)
nulls-request version community pdu_type first second third oids =
    ap (λ t. encode_message version community pdu_type (encode_pdu_bytes first second third t))
      (encode_varbind_list_null-bytes oids
        ∙ sym (encode_varbind_list-bytes (map null_varbind oids)))
    ∙ message-request version community pdu_type first second third (map null_varbind oids)

-- The bytes of each request, spelt out element by element: the version, the community, its own tag,
-- the request identifier, two more integers and the bindings, in this order. GET and GETNEXT hold
-- their object identifiers with null values and zeros, GETBULK with null values and its two counts,
-- SET its bindings with their values and zeros.
pub encode_requests-request :
    (version : Version) (community : List ℕ) (request_id non_repeaters max_repetitions : ℤ)
    (oids : List Oid) (vbs : List VarBind)
    → let nulls = map null_varbind oids in
      (encode_get_request version community request_id oids
        ≡ request version community pdu_get request_id (pos 0) (pos 0) nulls)
      × (encode_getnext_request version community request_id oids
          ≡ request version community pdu_getnext request_id (pos 0) (pos 0) nulls)
      × (encode_getbulk_request version community request_id non_repeaters max_repetitions oids
          ≡ request version community pdu_getbulk request_id non_repeaters max_repetitions nulls)
      × (encode_set_request version community request_id vbs
          ≡ request version community pdu_set request_id (pos 0) (pos 0) vbs)
unfolding encode_get_request encode_getnext_request encode_getbulk_request encode_set_request
encode_requests-request version community request_id non_repeaters max_repetitions oids vbs = (
  nulls-request version community pdu_get request_id (pos 0) (pos 0) oids,
  nulls-request version community pdu_getnext request_id (pos 0) (pos 0) oids,
  nulls-request version community pdu_getbulk request_id non_repeaters max_repetitions oids,
  message-request version community pdu_set request_id (pos 0) (pos 0) vbs,
)
