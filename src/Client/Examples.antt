-- ===== src/Client/Examples.antt =====
-- src/client.rs: concrete runs of the client.
mod Walks
use rusnmp.Prelude.{
  length, ◌≤◌, ℕ, ◌^◌, ◌<◌, ◌≡◌, ◌≢◌, refl, arith, List, [], ◌∷◌, take, replicate, All, none,
}
use rusnmp.Prelude.Int.{pos}
use rusnmp.Error.{ok, err, snmp}
use rusnmp.Run.{eval}
use rusnmp.Types.{Oid, VarBind, integer, end_of_mib_view, v1, v2c}
use rusnmp.Codec.Decoder.{
  remaining, read_tag, read_length, read_raw, read_tlv, read_sequence, decode_integer, read_sub_id,
  read_sub_ids, decode_oid, read_integer, read_octet_string, read_oid, read_value,
}
use rusnmp.Codec.Pdu.{
  encode_get_request, encode_getnext_request, encode_getbulk_request, encode_set_request,
}
use rusnmp.Codec.Response.{SnmpResponse, read_varbind, read_varbinds, decode_response}
use rusnmp.Client.{Exchange, SnmpClient, reply, next_request_id, get, get_next, get_bulk, set}
use rusnmp.Client.Requests.{next_request_id-fresh}
use rusnmp.Client.Replies.{after, requests-reply}
use rusnmp.Client.Subtree.{leaves_subtree, is_exception, scan, Belongs, Scanned, scan-Scanned}
use rusnmp.Client.Walk.{walk}
use rusnmp.Client.Walk.Results.{walk-Belongs}
use rusnmp.Client.Walk.Repeats.{TimedOut, fetch-reply, walk-repeats}
use rusnmp.Client.Walk.{fetch, is_v1, walk_loop}
use rusnmp.Codec.Tags.{pdu_getbulk}
use rusnmp.Codec.Varbinds.{null_varbind}
use rusnmp.Codec.Requests.{request}
use rusnmp.Client.Walk.Conversation.{Talk, Serves, Walked, next_entries, end_of_view}
use rusnmp.Client.Walk.Refinement.{client_walker, walk-walk_result, walk-later}

abbrev root : Oid
root = record { components = 1 ∷ 3 ∷ 6 ∷ 1 ∷ [] }

abbrev inside : VarBind
inside = record {
  oid = record { components = 1 ∷ 3 ∷ 6 ∷ 1 ∷ 2 ∷ 1 ∷ [] };
  value = integer (pos 5);
}

abbrev outside : VarBind
outside = record { oid = record { components = 1 ∷ 3 ∷ 6 ∷ 2 ∷ [] }; value = integer (pos 6) }

-- A response with the binding `inside`.
abbrev one_reply : List ℕ
one_reply =
    0x30 ∷ 0x21 ∷ 0x02 ∷ 0x01 ∷ 0x01 ∷ 0x04 ∷ 0x03 ∷ 0x70 ∷ 0x75 ∷ 0x62 ∷ 0xA2 ∷ 0x17 ∷ 0x02 ∷ 0x01
    ∷ 0x07 ∷ 0x02 ∷ 0x01 ∷ 0x00 ∷ 0x02 ∷ 0x01 ∷ 0x00 ∷ 0x30 ∷ 0x0C ∷ 0x30 ∷ 0x0A ∷ 0x06 ∷ 0x05
    ∷ 0x2B ∷ 0x06 ∷ 0x01 ∷ 0x02 ∷ 0x01 ∷ 0x02 ∷ 0x01 ∷ 0x05 ∷ []

-- A response with both bindings.
abbrev two_reply : List ℕ
two_reply =
    0x30 ∷ 0x2B ∷ 0x02 ∷ 0x01 ∷ 0x01 ∷ 0x04 ∷ 0x03 ∷ 0x70 ∷ 0x75 ∷ 0x62 ∷ 0xA2 ∷ 0x21 ∷ 0x02 ∷ 0x01
    ∷ 0x07 ∷ 0x02 ∷ 0x01 ∷ 0x00 ∷ 0x02 ∷ 0x01 ∷ 0x00 ∷ 0x30 ∷ 0x16 ∷ 0x30 ∷ 0x0A ∷ 0x06 ∷ 0x05
    ∷ 0x2B ∷ 0x06 ∷ 0x01 ∷ 0x02 ∷ 0x01 ∷ 0x02 ∷ 0x01 ∷ 0x05 ∷ 0x30 ∷ 0x08 ∷ 0x06 ∷ 0x03 ∷ 0x2B
    ∷ 0x06 ∷ 0x02 ∷ 0x02 ∷ 0x01 ∷ 0x06 ∷ []

abbrev response : List VarBind → SnmpResponse
response vbs = record {
  version = v2c;
  community = 0x70 ∷ 0x75 ∷ 0x62 ∷ [];
  request_id = pos 7;
  error_status = 0;
  error_index = 0;
  varbinds = vbs;
}

one_reply-decoded : decode_response (take 65535 one_reply) ≡ ok (response (inside ∷ []))
unfolding decode_response read_sequence read_tag read_length read_raw read_integer read_tlv
    decode_integer read_octet_string read_varbinds read_varbind read_oid decode_oid read_sub_ids
    read_sub_id read_value remaining
one_reply-decoded = refl

two_reply-decoded : decode_response (take 65535 two_reply) ≡ ok (response (inside ∷ outside ∷ []))
unfolding decode_response read_sequence read_tag read_length read_raw read_integer read_tlv
    decode_integer read_octet_string read_varbinds read_varbind read_oid decode_oid read_sub_ids
    read_sub_id read_value remaining
two_reply-decoded = refl

abbrev client : List Exchange → SnmpClient
client network = record {
  community = 0x70 ∷ 0x75 ∷ 0x62 ∷ [];
  version = v2c;
  timeout_secs = 5;
  request_id = pos 1;
  network = network;
  sent = [];
}

next_request_id-fresh_example :
    let c = record (client []) { request_id = pos 2147483647 } in
    (next_request_id c ≡ (ok (pos 1), record c { request_id = pos 1 }))
    × (1 < 2 ^ 31)
    × (pos 1 ≢ pos 2147483647)
next_request_id-fresh_example =
    next_request_id-fresh (record (client []) { request_id = pos 2147483647 }) (omega arith)

requests-reply_example :
    let c = client (reply one_reply ∷ []) in
    (get (root ∷ []) c ≡ (
      ok (inside ∷ []),
      after c (pos 2) (encode_get_request v2c c.community (pos 2) (root ∷ [])) [],
    ))
    × (get_next (root ∷ []) c ≡ (
      ok (inside ∷ []),
      after c (pos 2) (encode_getnext_request v2c c.community (pos 2) (root ∷ [])) [],
    ))
    × (get_bulk (root ∷ []) (pos 0) (pos 20) c ≡ (
      ok (inside ∷ []),
      after c
          (pos 2)
          (encode_getbulk_request v2c c.community (pos 2) (pos 0) (pos 20) (root ∷ []))
          [],
    ))
    × (set (outside ∷ []) c ≡ (
      ok (inside ∷ []),
      after c (pos 2) (encode_set_request v2c c.community (pos 2) (outside ∷ [])) [],
    ))
requests-reply_example =
    requests-reply (client (reply one_reply ∷ [])) one_reply (response (inside ∷ [])) [] (root ∷ [])
      (outside ∷ []) (pos 0) (pos 20) (omega arith) refl one_reply-decoded

scan-Scanned_example :
    Scanned root.components
      (inside ∷ outside ∷ [])
      root
      []
      (scan root.components (inside ∷ outside ∷ []) root [])
scan-Scanned_example = scan-Scanned root.components (inside ∷ outside ∷ []) root []

-- One answer, whose second binding is outside.
walk_two : eval (walk root) (client (reply two_reply ∷ [])) ≡ ok (inside ∷ [])
unfolding walk get_bulk scan leaves_subtree is_exception
walk_two = rw (two_reply-decoded, eval) refl

walk-Belongs_example : All (Belongs root.components) (inside ∷ [])
walk-Belongs_example = walk-Belongs root (client (reply two_reply ∷ [])) (inside ∷ []) walk_two

walk-repeats_example : let c = client (replicate 2 (reply one_reply)) in TimedOut c 2 (walk root c)
walk-repeats_example =
    walk-repeats root (client (replicate 2 (reply one_reply))) one_reply (response (inside ∷ [])) 2
      (omega arith) refl one_reply-decoded refl (λ e. cc)
      (((2 ∷ 1 ∷ [], refl), λ e. ground arith), tt)
