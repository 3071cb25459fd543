-- ===== src/V3/Client/Examples/Requests.antt =====
-- src/v3_client.rs: concrete requests of the client, and a walk.
use rusnmp.Prelude.{
  ℕ, ◌++◌, length, ◌≤◌, arith, ap, ◌∙◌, ◌≡◌, refl, List, [], ◌∷◌, map, take, replicate, inr, some,
}
use rusnmp.Prelude.Int.{ℤ, pos}
use rusnmp.Error.{ok, err, decode, unexpected_end}
use rusnmp.Run.{eval}
use rusnmp.Codec.Varbinds.{sent_varbind}
use rusnmp.Client.{reply}
use rusnmp.Client.Subtree.{scan, leaves_subtree, is_exception}
use rusnmp.V3.{md5, aes128}
use rusnmp.V3.Messages.{encode_scoped_pdu}
use rusnmp.V3.Client.State.{SnmpV3Client, exchange, v3_pdu_get, v3_pdu_getbulk}
use rusnmp.V3.Client.Requests.{
  varbinds_or_error, open_pdu, transact, unchecked, send_request, get_bulk, encode_null_varbinds,
}
use rusnmp.V3.Client.Requests.Packets.{IsEquipped, packet_of-ok}
use rusnmp.V3.Client.Requests.Steps.{next_id, numbered, salted, answered}
use rusnmp.V3.Client.Requests.Replies.{request_packet, verified_answer, send_request-reply}
use rusnmp.V3.Client.Requests.Success.{Authentic, send_request-Authentic}
use rusnmp.V3.Client.Requests.Answered.{get_bulk-Answers, send_request-Answers}
use rusnmp.Client.Walk.{walk_loop}
use rusnmp.Client.Walk.Conversation.{Serves, Walked, next_entries, refused}
use rusnmp.Types.{Oid}
use rusnmp.Codec.Decoder.{read_sequence, read_tag}
use rusnmp.Codec.Varbinds.{null_varbind, varbinds_bytes}
use rusnmp.V3.Messages.{decode_v3_message}
use rusnmp.V3.Client.Requests.Steps.{transact-reply}
use rusnmp.V3.Client.Walk.{fetch, walk}
use rusnmp.V3.Client.Walk.Refinement.{
  next_packet, v3_walker, fetch-next_packet, walk_lem, walk_loop-later,
}
use rusnmp.V3.Client.Examples.Messages.{
  crypto, laws, engine_id, root, inside, outside, bindings, scoped-decoded, plain_reply,
  plain_message, plain-decoded, sealed_reply, sealed_message,
}
use rusnmp.V3.Client.Examples.Clients.{
  open_client, full_client, full_client-HasKeys, sealed-Answers, sealed-code,
}

get_bulk-Answers_example :
    eval (get_bulk crypto (root ∷ []) (pos 0) (pos 20)) full_client ≡ ok (map sent_varbind bindings)
get_bulk-Answers_example =
    get_bulk-Answers crypto laws md5 (replicate 16 7) aes128 (replicate 16 7) sealed_reply
      sealed_message bindings full_client [] (root ∷ []) (pos 0) (pos 20) sealed-Answers
      full_client-HasKeys refl

full_client-runs :
    eval (send_request crypto v3_pdu_get []) full_client ≡ ok (map sent_varbind bindings)
full_client-runs =
    send_request-Answers crypto laws md5 (replicate 16 7) aes128 (replicate 16 7) sealed_reply
      sealed_message bindings full_client [] v3_pdu_get [] sealed-Answers (inr sealed-code)
      full_client-HasKeys refl

send_request-Answers_example :
    eval (send_request crypto v3_pdu_get []) full_client ≡ ok (map sent_varbind bindings)
send_request-Answers_example =
    send_request-Answers crypto laws md5 (replicate 16 7) aes128 (replicate 16 7) sealed_reply
      sealed_message bindings full_client [] v3_pdu_get [] sealed-Answers (inr sealed-code)
      full_client-HasKeys refl

send_request-Authentic_example : Authentic crypto md5 (replicate 16 7) (reply sealed_reply ∷ [])
send_request-Authentic_example =
    send_request-Authentic crypto md5 (replicate 16 7) full_client v3_pdu_get []
      (map sent_varbind bindings) refl refl full_client-runs

plain-opens : (c : SnmpV3Client) → open_pdu crypto c plain_message ≡ ok bindings
unfolding open_pdu varbinds_or_error
plain-opens c = rw scoped-decoded refl

open_packet :
    (pdu_type : ℕ) (second third : ℤ) (varbind_data : List ℕ)
    → (packet : List ℕ) × (request_packet crypto pdu_type second third varbind_data open_client
        ≡ ok packet)
open_packet pdu_type second third varbind_data =
    packet_of-ok crypto laws (next_id open_client.msg_id)
      (encode_scoped_pdu engine_id [] pdu_type (next_id open_client.request_id) second third
        varbind_data)
      (numbered open_client) tt

send_request-reply_example :
    let packet = (open_packet v3_pdu_get (pos 0) (pos 0) []).0 in
    let bulk_packet =
      (open_packet v3_pdu_getbulk (pos 0) (pos 20) (encode_null_varbinds (root ∷ []))).0 in
    let after = answered crypto (salted (numbered open_client)) packet [] plain_message in
    let after_bulk = answered crypto (salted (numbered open_client)) bulk_packet [] plain_message in
    (send_request crypto v3_pdu_get [] open_client
      ≡ (verified_answer crypto after (take 65535 plain_reply) plain_message, after))
    × (get_bulk crypto (root ∷ []) (pos 0) (pos 20) open_client
        ≡ (open_pdu crypto after_bulk plain_message, after_bulk))
send_request-reply_example =
    send_request-reply crypto open_client plain_reply [] plain_message v3_pdu_get [] (root ∷ [])
      (pos 0) (pos 20) (open_packet v3_pdu_get (pos 0) (pos 0) []).0
      (open_packet v3_pdu_getbulk (pos 0) (pos 20) (encode_null_varbinds (root ∷ []))).0 refl
      plain-decoded (open_packet v3_pdu_get (pos 0) (pos 0) []).1
      (open_packet v3_pdu_getbulk (pos 0) (pos 20) (encode_null_varbinds (root ∷ []))).1

-- The client after the answer to its bulk request.
abbrev after_bulk : SnmpV3Client
after_bulk =
    answered crypto (salted (numbered open_client))
      (open_packet v3_pdu_getbulk (pos 0) (pos 20) (encode_null_varbinds (root ∷ []))).0 []
      plain_message

bulk_reply : get_bulk crypto (root ∷ []) (pos 0) (pos 20) open_client ≡ (ok bindings, after_bulk)
bulk_reply =
    let (packet, made) = open_packet v3_pdu_get (pos 0) (pos 0) [] in
    let bulk_packet =
      open_packet v3_pdu_getbulk (pos 0) (pos 20) (encode_null_varbinds (root ∷ [])) in
    let (_, bulk) =
      send_request-reply crypto open_client plain_reply [] plain_message v3_pdu_get [] (root ∷ [])
        (pos 0) (pos 20) packet bulk_packet.0 refl plain-decoded made bulk_packet.1 in
    bulk ∙ ap (λ t. (t, after_bulk)) (plain-opens after_bulk)

-- One answer, whose second binding is outside.
walk_one : eval (walk crypto root) open_client ≡ ok (inside ∷ [])
unfolding walk scan leaves_subtree is_exception
walk_one = rw (bulk_reply, eval) refl

-- After that answer an empty datagram comes.
abbrev two_client : SnmpV3Client
two_client = record open_client { network = reply plain_reply ∷ reply [] ∷ [] }

next_made :
    (current : Oid) (c : SnmpV3Client)
    → IsEquipped c.credentials.priv_protocol c.priv_key
    → (packet : List ℕ) × (next_packet crypto current c ≡ ok packet)
next_made current c h =
    packet_of-ok crypto laws (next_id c.msg_id)
      (encode_scoped_pdu c.engine.engine_id [] v3_pdu_getbulk (next_id c.request_id) (pos 0)
        (pos 20) (varbinds_bytes (null_varbind current ∷ [])))
      (numbered c) h

abbrev first_made : (packet : List ℕ) × (next_packet crypto root two_client ≡ ok packet)
first_made = next_made root two_client tt

abbrev after_first : SnmpV3Client
after_first =
    answered crypto (salted (numbered two_client)) first_made.0 (reply [] ∷ []) plain_message

first_answer : fetch crypto root two_client ≡ (ok bindings, after_first)
first_answer =
    fetch-next_packet crypto root two_client first_made.0 first_made.1
    ∙ transact-reply crypto (unchecked crypto) first_made.0 (salted (numbered two_client))
        plain_reply (reply [] ∷ []) plain_message refl plain-decoded
    ∙ ap (λ t. (t, after_first)) (plain-opens after_first)

abbrev second_made : (packet : List ℕ) × (next_packet crypto outside.oid after_first ≡ ok packet)
second_made = next_made outside.oid after_first tt

nothing-decoded : decode_v3_message (take 65535 []) ≡ err (decode unexpected_end)
unfolding decode_v3_message read_sequence read_tag
nothing-decoded = refl

abbrev after_second : SnmpV3Client
after_second = record (salted (numbered after_first)) {
  network = [];
  sent = after_first.sent ++ second_made.0 ∷ [];
}

second_refused :
    transact crypto (unchecked crypto) second_made.0 (salted (numbered after_first))
    ≡ (err (decode unexpected_end), after_second)
unfolding transact exchange
second_refused = rw nothing-decoded refl

second_answer : fetch crypto outside.oid after_first ≡ (err (decode unexpected_end), after_second)
second_answer =
    fetch-next_packet crypto outside.oid after_first second_made.0 second_made.1 ∙ second_refused

served :
    Serves
      (v3_walker crypto)
      bindings
      (some (decode unexpected_end))
      ((first_made.0, plain_reply) ∷ (second_made.0, []) ∷ [])
      root
      two_client
served =
    next_entries (inside ∷ []) outside []
      (record { asks = first_made.1; coming = reply [] ∷ []; comes = refl; reads = first_answer })
      refl
      (refused (decode unexpected_end)
        (record { asks = second_made.1; coming = []; comes = refl; reads = second_answer }) refl
        refl)

walk_lem_example :
    Walked
      (v3_walker crypto)
      two_client
      ((first_made.0, plain_reply) ∷ (second_made.0, []) ∷ [])
      (walk crypto root two_client)
      (ok (inside ∷ []))
unfolding is_exception
walk_lem_example =
    walk_lem crypto root bindings (some (decode unexpected_end))
      ((first_made.0, plain_reply) ∷ (second_made.0, []) ∷ []) two_client ((refl, tt), (tt, tt))
      (refl, (refl, tt)) served

walk_loop-later_example :
    (eval (walk_loop (fetch crypto) 3 root.components root []) two_client ≡ ok (inside ∷ []))
    × (length (walk crypto root two_client).1.sent ≤ 3)
unfolding is_exception
walk_loop-later_example =
    walk_loop-later crypto root bindings (some (decode unexpected_end))
      ((first_made.0, plain_reply) ∷ (second_made.0, []) ∷ []) two_client 3 ((refl, tt), (tt, tt))
      (refl, (refl, tt)) served (omega arith)
