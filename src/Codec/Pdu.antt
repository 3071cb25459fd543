-- ===== src/Codec/Pdu.antt =====
-- src/codec.rs, lines 355 to 497 and 558 to 561: the requests of v1 and v2c, and the encoding of values.
use rusnmp.Prelude.{ℕ, List, [], ◌∷◌, foldl, ◌▸◌}
use rusnmp.Prelude.Int.{ℤ, pos}
use rusnmp.Types.{
  Oid, Value, VarBind, Version, to_i64, integer, octet_string, null, object_identifier, ip_address,
  counter32, gauge32, time_ticks, opaque, counter64,
}
use rusnmp.Codec.Tags.{
  tag_ipaddress, tag_counter32, tag_gauge32, tag_timeticks, tag_opaque, tag_counter64, pdu_get,
  pdu_getnext, pdu_set, pdu_getbulk,
}
use rusnmp.Codec.Encoder.{
  BerEncoder, new, into_bytes, write_tagged, write_sequence, write_integer, write_octet_string,
  write_null, write_oid, encode_unsigned32, encode_unsigned64,
}

-- The exception values have no encoding of their own.
unfoldable pub encode_value : Value → BerEncoder → BerEncoder
encode_value (integer v) enc = write_integer v enc
encode_value (octet_string b) enc = write_octet_string b enc
encode_value null enc = write_null enc
encode_value (object_identifier oid) enc = write_oid oid enc
encode_value (ip_address a b c d) enc = write_tagged tag_ipaddress (a ∷ b ∷ c ∷ d ∷ []) enc
encode_value (counter32 v) enc = write_tagged tag_counter32 (encode_unsigned32 v) enc
encode_value (gauge32 v) enc = write_tagged tag_gauge32 (encode_unsigned32 v) enc
encode_value (time_ticks v) enc = write_tagged tag_timeticks (encode_unsigned32 v) enc
encode_value (opaque b) enc = write_tagged tag_opaque b enc
encode_value (counter64 v) enc = write_tagged tag_counter64 (encode_unsigned64 v) enc
encode_value _ enc = write_null enc

unfoldable pub write_null_varbind : BerEncoder → Oid → BerEncoder
write_null_varbind inner oid =
    let vb_bytes = into_bytes (new ▸ write_oid oid ▸ write_null) in write_sequence vb_bytes inner

unfoldable pub encode_varbind_list_null : List Oid → List ℕ
unfolding write_null_varbind
encode_varbind_list_null oids = into_bytes (foldl write_null_varbind new oids)

unfoldable pub write_varbind : BerEncoder → VarBind → BerEncoder
write_varbind inner vb =
    let vb_bytes = into_bytes (new ▸ write_oid vb.oid ▸ encode_value vb.value) in
    write_sequence vb_bytes inner

unfoldable pub encode_varbind_list : List VarBind → List ℕ
unfolding write_varbind
encode_varbind_list varbinds = into_bytes (foldl write_varbind new varbinds)

-- The three steps that every request ends with: the PDU, the message around it, the sequence around
-- both.
unfoldable pub encode_pdu_bytes : ℤ → ℤ → ℤ → List ℕ → List ℕ
encode_pdu_bytes first second third varbind_list = into_bytes (
    new
    ▸ write_integer first
    ▸ write_integer second
    ▸ write_integer third
    ▸ write_sequence varbind_list)

unfoldable pub encode_message : Version → List ℕ → ℕ → List ℕ → List ℕ
encode_message version community pdu_type pdu_bytes =
    let msg_bytes = into_bytes (
      new
      ▸ write_integer (to_i64 version)
      ▸ write_octet_string community
      ▸ write_tagged pdu_type pdu_bytes) in
    into_bytes (new ▸ write_sequence msg_bytes)

unfoldable pub encode_pdu : Version → List ℕ → ℤ → ℕ → List Oid → List ℕ
unfolding encode_pdu_bytes encode_message
encode_pdu version community request_id pdu_type oids =
    encode_message version community pdu_type
      (encode_pdu_bytes request_id (pos 0) (pos 0) (encode_varbind_list_null oids))

unfoldable pub encode_get_request : Version → List ℕ → ℤ → List Oid → List ℕ
unfolding encode_pdu
encode_get_request version community request_id oids =
    encode_pdu version community request_id pdu_get oids

unfoldable pub encode_getnext_request : Version → List ℕ → ℤ → List Oid → List ℕ
unfolding encode_pdu
encode_getnext_request version community request_id oids =
    encode_pdu version community request_id pdu_getnext oids

unfoldable pub encode_getbulk_request : Version → List ℕ → ℤ → ℤ → ℤ → List Oid → List ℕ
unfolding encode_pdu_bytes encode_message
encode_getbulk_request version community request_id non_repeaters max_repetitions oids =
    encode_message version community pdu_getbulk
      (encode_pdu_bytes request_id non_repeaters max_repetitions (encode_varbind_list_null oids))

unfoldable pub encode_set_request : Version → List ℕ → ℤ → List VarBind → List ℕ
unfolding encode_pdu_bytes encode_message
encode_set_request version community request_id varbinds =
    encode_message version community pdu_set
      (encode_pdu_bytes request_id (pos 0) (pos 0) (encode_varbind_list varbinds))
