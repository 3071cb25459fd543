-- ===== src/Client/Examples/Walks.antt =====
-- src/client.rs: conversations of `walk` with an agent.
use rusnmp.Prelude.{length, ◌≤◌, ℕ, ◌≡◌, refl, arith, List, [], ◌∷◌, take, none}
use rusnmp.Prelude.Int.{pos}
use rusnmp.Error.{ok, err, snmp}
use rusnmp.Run.{eval}
use rusnmp.Types.{VarBind, end_of_mib_view, v1, v2c}
use rusnmp.Codec.Decoder.{
  remaining, read_tag, read_length, read_raw, read_tlv, read_sequence, decode_integer, read_sub_id,
  read_sub_ids, decode_oid, read_integer, read_octet_string, read_oid, read_value,
}
use rusnmp.Codec.Response.{read_varbind, read_varbinds, decode_response}
use rusnmp.Client.{SnmpClient, reply, get_next}
use rusnmp.Client.Subtree.{leaves_subtree, is_exception, scan}
use rusnmp.Client.Walk.{walk}
use rusnmp.Client.Walk.Repeats.{fetch-reply}
use rusnmp.Client.Walk.{fetch, is_v1, walk_loop}
use rusnmp.Codec.Tags.{pdu_getbulk}
use rusnmp.Codec.Varbinds.{null_varbind}
use rusnmp.Codec.Requests.{request}
use rusnmp.Client.Walk.Conversation.{Talk, Serves, Walked, next_entries, end_of_view}
use rusnmp.Client.Walk.Refinement.{client_walker, walk-walk_result, walk-later}
use rusnmp.Client.Examples.{root, inside, outside, one_reply, one_reply-decoded, response, client}

-- A response with the binding `outside` and the end of the view.
abbrev last_reply : List ℕ
last_reply =
    0x30 ∷ 0x28 ∷ 0x02 ∷ 0x01 ∷ 0x01 ∷ 0x04 ∷ 0x03 ∷ 0x70 ∷ 0x75 ∷ 0x62 ∷ 0xA2 ∷ 0x1E ∷ 0x02 ∷ 0x01
    ∷ 0x07 ∷ 0x02 ∷ 0x01 ∷ 0x00 ∷ 0x02 ∷ 0x01 ∷ 0x00 ∷ 0x30 ∷ 0x13 ∷ 0x30 ∷ 0x08 ∷ 0x06 ∷ 0x03
    ∷ 0x2B ∷ 0x06 ∷ 0x02 ∷ 0x02 ∷ 0x01 ∷ 0x06 ∷ 0x30 ∷ 0x07 ∷ 0x06 ∷ 0x03 ∷ 0x2B ∷ 0x06 ∷ 0x02
    ∷ 0x82 ∷ 0x00 ∷ []

abbrev view : VarBind
view = record { oid = outside.oid; value = end_of_mib_view }

last_reply-decoded : decode_response (take 65535 last_reply) ≡ ok (response (outside ∷ view ∷ []))
unfolding decode_response read_sequence read_tag read_length read_raw read_integer read_tlv
    decode_integer read_octet_string read_varbinds read_varbind read_oid decode_oid read_sub_ids
    read_sub_id read_value remaining
last_reply-decoded = refl

abbrev served_client : SnmpClient
served_client = client (reply one_reply ∷ reply last_reply ∷ [])

-- Two requests, the second for what follows `inside`.
abbrev conversation : Talk
conversation =
    (
      request v2c served_client.community pdu_getbulk (pos 2) (pos 0) (pos 20)
          (null_varbind root ∷ []),
      one_reply,
    )
    ∷ (
      request v2c served_client.community pdu_getbulk (pos 3) (pos 0) (pos 20)
          (null_varbind inside.oid ∷ []),
      last_reply,
    )
    ∷ []

served : Serves client_walker (inside ∷ outside ∷ []) none conversation root served_client
unfolding is_v1
served =
    next_entries [] inside (outside ∷ [])
      (record {
        asks = refl;
        coming = reply last_reply ∷ [];
        comes = refl;
        reads =
            fetch-reply root served_client one_reply (response (inside ∷ []))
              (reply last_reply ∷ []) (omega arith) refl one_reply-decoded refl;
      })
      refl
      (end_of_view view []
        (record {
          asks = refl;
          coming = [];
          comes = refl;
          reads =
              fetch-reply inside.oid _ last_reply (response (outside ∷ view ∷ [])) [] (omega arith)
                refl last_reply-decoded refl;
        })
        refl refl)

walk-walk_result_example :
    Walked client_walker served_client conversation (walk root served_client) (ok (inside ∷ []))
unfolding is_exception
walk-walk_result_example =
    walk-walk_result root (inside ∷ outside ∷ []) none conversation served_client
      ((refl, tt), (tt, tt)) (refl, (refl, tt)) served

walk-later_example :
    (eval (walk_loop fetch 3 root.components root []) served_client ≡ ok (inside ∷ []))
    × (length (walk root served_client).1.sent ≤ 3)
unfolding is_exception
walk-later_example =
    walk-later root (inside ∷ outside ∷ []) none conversation served_client 3 ((refl, tt), (tt, tt))
      (refl, (refl, tt)) served (omega arith)

-- A response of version 1 with the error status noSuchName.
abbrev no_such_name : List ℕ
no_such_name =
    0x30 ∷ 0x15 ∷ 0x02 ∷ 0x01 ∷ 0x00 ∷ 0x04 ∷ 0x03 ∷ 0x70 ∷ 0x75 ∷ 0x62 ∷ 0xA2 ∷ 0x0B ∷ 0x02 ∷ 0x01
    ∷ 0x07 ∷ 0x02 ∷ 0x01 ∷ 0x02 ∷ 0x02 ∷ 0x01 ∷ 0x01 ∷ 0x30 ∷ 0x00 ∷ []

no_such_name-decoded :
    decode_response (take 65535 no_such_name)
    ≡ ok (record (response []) { version = v1; error_status = 2; error_index = 1 })
unfolding decode_response read_sequence read_tag read_length read_raw read_integer read_tlv
    decode_integer read_octet_string read_varbinds read_varbind read_oid decode_oid read_sub_ids
    read_sub_id read_value remaining
no_such_name-decoded = refl

-- Version 1 has no end-of-view value: the agent refuses, and what was found before is lost.
walk_v1 :
    let c = record (client (reply one_reply ∷ reply no_such_name ∷ [])) { version = v1 } in
    eval (walk root) c ≡ err (snmp 2 1)
unfolding walk get_next scan leaves_subtree is_exception
walk_v1 = rw (one_reply-decoded, no_such_name-decoded, eval) refl
