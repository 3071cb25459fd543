-- ===== src/V3/Client/Discovery.antt =====
-- src/v3_client.rs: `discover_engine` and what it takes over.
pub mod Packet
use rusnmp.Prelude.{
  ℕ, ◌^◌, ◌<◌, ◌≤◌, length-append, ◌≡◌, ◌≢◌, ◌∙◌, refl, sym, ap, inl, inr, arith, List, [], ◌∷◌,
  ◌++◌, take, length, true, false, All,
}
use rusnmp.Prelude.Int.{ℤ, pos, IsI32}
use rusnmp.Error.{SnmpError, Outcome, ok, err, panicked, out_of_fuel, discovery_failed}
use rusnmp.Run.{Run, continue, continue-ok, eval}
use rusnmp.Client.{Exchange, reply}
use rusnmp.Codec.Encoder.{
  encode_integer_bytes, strip_zeros, to_be_bytes, write_sequence, write_length, write_octet_string,
  write_integer,
}
use rusnmp.Codec.Encoder.Appends.{tlv, length_octets, length-tlv-le}
use rusnmp.V3.Messages.{
  V3Message, UsmParams, encode_scoped_pdu, encode_usm_params, decode_v3_message, decode_scoped_pdu,
}
use rusnmp.Codec.Tags.{tag_sequence, tag_integer, tag_octet_string}
use rusnmp.Codec.Integers.{length-encode_integer_bytes}
use rusnmp.Codec.RoundTrip.{integer_tlv, pdu_content}
use rusnmp.Codec.Pdu.{encode_varbind_list}
use rusnmp.V3.Messages.Message.{IsScoped, header_content}
use rusnmp.V3.Messages.ScopedPdu.{
  scoped_of, scoped_content, encode_scoped_pdu-content, decode_scoped_pdu-encode_scoped_pdu,
}
use rusnmp.V3.Messages.Usm.{IsWireUsm}
use rusnmp.V3.Messages.RoundTrip.{
  message_content, message_of, params_of, decode_v3_message-encode_v3_message,
}
use rusnmp.V3.Client.State.{
  SnmpV3Client, v3_pdu_get, exchange, send_and_recv, discovery_packet, keep_engine, discover_engine,
  encode_empty_varbinds,
}
use rusnmp.V3.Client.Requests.Steps.{next_id, exchange_cases}

-- The client after its discovery has been answered by `msg`.
abbrev pub discovered : SnmpV3Client → List Exchange → V3Message → SnmpV3Client
discovered c rest msg = record c {
  msg_id = next_id c.msg_id;
  network = rest;
  sent = c.sent ++ discovery_packet (next_id c.msg_id) ∷ [];
  engine = record {
    engine_id = msg.engine_id;
    engine_boots = msg.engine_boots;
    engine_time = msg.engine_time;
  };
}

-- The message that answered a discovery.
pub record Discovered (c : SnmpV3Client) : Type 0 where
  pub bytes : List ℕ
  pub rest : List Exchange
  pub msg : V3Message
  pub front : c.network ≡ reply bytes ∷ rest
  pub decodes : decode_v3_message (take 65535 bytes) ≡ ok msg
  pub named : msg.engine_id ≢ []
  pub whole : discover_engine c ≡ (ok tt, discovered c rest msg)

abbrev received : SnmpV3Client → List Exchange → SnmpV3Client
received c rest = record c {
  msg_id = next_id c.msg_id;
  network = rest;
  sent = c.sent ++ discovery_packet (next_id c.msg_id) ∷ [];
}

keep_engine-ok :
    (engine_id : List ℕ) (msg : V3Message) (c : SnmpV3Client)
    → (keep_engine engine_id msg c).0 ≡ ok tt
    → (engine_id ≢ [])
      × (keep_engine engine_id msg c ≡ (
        ok tt,
        record c {
          engine = record {
            engine_id = engine_id;
            engine_boots = msg.engine_boots;
            engine_time = msg.engine_time;
          };
        },
      ))
unfolding keep_engine
keep_engine-ok [] msg c e = cc
keep_engine-ok (b ∷ engine_id) msg c e = (λ x. cc, refl)

discover_engine-failed :
    (c c' : SnmpV3Client) (x : SnmpError)
    → exchange c.network
        (discovery_packet (next_id c.msg_id))
        (record c { msg_id = next_id c.msg_id })
      ≡ (err x, c')
    → discover_engine c ≡ (err x, c')
unfolding discover_engine send_and_recv
discover_engine-failed c c' x e = rw e refl

discover_engine-came :
    (c c' : SnmpV3Client) (bytes : List ℕ)
    → exchange c.network
        (discovery_packet (next_id c.msg_id))
        (record c { msg_id = next_id c.msg_id })
      ≡ (ok bytes, c')
    → discover_engine c
      ≡ continue (decode_v3_message bytes) (λ msg. keep_engine msg.engine_id msg) c'
unfolding discover_engine send_and_recv
discover_engine-came c c' bytes e = rw e refl

-- A discovery that succeeds has taken over the engine of a message that names one.
pub discover_engine-Discovered : (c : SnmpV3Client) → (discover_engine c).0 ≡ ok tt → Discovered c
discover_engine-Discovered c e =
    let packet = discovery_packet (next_id c.msg_id) in
    elim (exchange_cases c.network packet (record c { msg_id = next_id c.msg_id })) [
      | inl (x, c', failed, _) ↦ absurd (cc (e, discover_engine-failed c c' x failed))
      | inr (bytes, rest, front, came) ↦
          let step = discover_engine-came c (received c rest) (take 65535 bytes) came in
          let (msg, d, kept) =
            continue-ok (decode_v3_message (take 65535 bytes))
              (λ msg. keep_engine msg.engine_id msg) (received c rest) tt
              (ap (λ r. r.0) (sym step) ∙ e) in
          let (named, whole) = keep_engine-ok msg.engine_id msg (received c rest) kept in
          record {
            bytes = bytes;
            rest = rest;
            msg = msg;
            front = front;
            decodes = d;
            named = named;
            whole = step ∙ rw d whole;
          }
    ]
