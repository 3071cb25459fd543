-- ===== src/V3/Client/Requests/Replies.antt =====
-- src/v3_client.rs: a request of the client that is answered by a message, state and result together.
use rusnmp.Prelude.{ℕ, ◌≡◌, ◌∙◌, List, [], ◌∷◌, take}
use rusnmp.Prelude.Int.{ℤ, pos}
use rusnmp.Error.{Outcome, ok, and_then}
use rusnmp.Types.{Oid, VarBind}
use rusnmp.Client.{Exchange, reply}
use rusnmp.V3.Crypto.{Crypto}
use rusnmp.V3.Messages.{V3Message, encode_scoped_pdu, decode_v3_message}
use rusnmp.V3.Client.State.{SnmpV3Client, v3_pdu_getbulk}
use rusnmp.V3.Client.Requests.{
  checked, unchecked, encode_null_varbinds, verify, open_pdu, send_request, get_bulk,
}
use rusnmp.V3.Client.Requests.Steps.{
  next_id, numbered, salted, packet_of, answered, transact-reply, request_lem,
}

-- The packet of a request.
abbrev pub request_packet : Crypto → ℕ → ℤ → ℤ → List ℕ → SnmpV3Client → Outcome (List ℕ)
request_packet crypto pdu_type second third varbind_data c =
    packet_of crypto (next_id c.msg_id)
      (encode_scoped_pdu c.engine.engine_id [] pdu_type (next_id c.request_id) second third
        varbind_data)
      (numbered c)

abbrev pub verified_answer : Crypto → SnmpV3Client → List ℕ → V3Message → Outcome (List VarBind)
verified_answer crypto c resp_data msg =
    and_then (verify crypto c.credentials.auth_protocol c.auth_key resp_data msg)
      λ _. open_pdu crypto c msg

-- If a packet can be made and the datagram that answers it decodes to a message: `send_request` and
-- `get_bulk` send just that packet, use up the datagram, count up both identifiers and, if they
-- encrypt, the salt, and take over the boots and the time of the message, whatever comes of it.
-- `send_request` then returns what the message holds after its code has passed; `get_bulk` returns
-- what it holds without any check of the code.
pub send_request-reply :
    (crypto : Crypto) (c : SnmpV3Client) (bytes : List ℕ) (rest : List Exchange) (msg : V3Message)
    (pdu_type : ℕ) (varbind_data : List ℕ) (oids : List Oid) (non_repeaters max_repetitions : ℤ)
    (packet bulk_packet : List ℕ)
    → c.network ≡ reply bytes ∷ rest
    → decode_v3_message (take 65535 bytes) ≡ ok msg
    → request_packet crypto pdu_type (pos 0) (pos 0) varbind_data c ≡ ok packet
    → request_packet crypto v3_pdu_getbulk non_repeaters max_repetitions
        (encode_null_varbinds oids)
        c
      ≡ ok bulk_packet
    → let after = answered crypto (salted (numbered c)) packet rest msg in
      let after_bulk = answered crypto (salted (numbered c)) bulk_packet rest msg in
      (send_request crypto pdu_type varbind_data c
        ≡ (verified_answer crypto after (take 65535 bytes) msg, after))
      × (get_bulk crypto oids non_repeaters max_repetitions c
          ≡ (open_pdu crypto after_bulk msg, after_bulk))
unfolding send_request get_bulk
send_request-reply crypto c bytes rest msg pdu_type varbind_data oids nr mr packet bulk_packet e d p
      b =
    let check = checked crypto in
    let none_check = unchecked crypto in
    (
      request_lem crypto check pdu_type (pos 0) (pos 0) varbind_data c
          ∙ rw p (transact-reply crypto check packet (salted (numbered c)) bytes rest msg e d),
      request_lem crypto none_check v3_pdu_getbulk nr mr (encode_null_varbinds oids) c
          ∙ rw b (
              transact-reply crypto none_check bulk_packet (salted (numbered c)) bytes rest msg e
                d),
    )
