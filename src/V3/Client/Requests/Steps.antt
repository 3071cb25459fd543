-- ===== src/V3/Client/Requests/Steps.antt =====
-- src/v3_client.rs: the steps that `send_request` and `get_bulk` share, with the state after each.
use rusnmp.Prelude.{
  ℕ, ◌+◌, ◌%◌, ◌^◌, ◌≡◌, refl, List, [], ◌∷◌, ◌++◌, take, Option, none, some, ◌⊎◌, inl, inr,
  if◌then◌else◌,
}
use rusnmp.Prelude.Int.{ℤ, pos, wrapping_suc32, is_negative}
use rusnmp.Error.{SnmpError, Outcome, ok, err, panicked, out_of_fuel, and_then}
use rusnmp.Run.{Run, continue}
use rusnmp.Types.{VarBind}
use rusnmp.Client.{Exchange, reply, send_failed, silent, recv_failed}
use rusnmp.V3.{PrivProtocol, EngineState}
use rusnmp.V3.Crypto.{Crypto, encrypt}
use rusnmp.V3.Messages.{V3Message, encode_scoped_pdu, decode_v3_message}
use rusnmp.V3.Client.State.{SnmpV3Client, exchange}
use rusnmp.V3.Client.Requests.{
  blank_packet, keep_time, encrypt_pdu, sign, make_packet, open_pdu, transact, request,
}

-- Steps that leave the state alone.
continue-and_then :
    {S A B : Type 0} (o : Outcome A) (f : A → Run S B) (g : A → Outcome B) (s : S)
    → ((a : A) → f a s ≡ (g a, s))
    → continue o f s ≡ (and_then o g, s)
continue-and_then (ok a) f g s h = h a
continue-and_then (err e) f g s h = refl
continue-and_then panicked f g s h = refl
continue-and_then out_of_fuel f g s h = refl

-- An exchange fails, or it uses up a datagram and hands on at most 65535 bytes of it.
pub exchange_cases :
    (network : List Exchange) (packet : List ℕ) (c : SnmpV3Client)
    → ((e : SnmpError) × (c' : SnmpV3Client) × (exchange network packet c ≡ (err e, c'))
        × ((c' ≡ record c { network = c'.network; sent = c'.sent })))
      ⊎ ((bytes : List ℕ) × (rest : List Exchange) × (network ≡ reply bytes ∷ rest)
          × (exchange network packet c
              ≡ (ok (take 65535 bytes), record c { network = rest; sent = c.sent ++ packet ∷ [] })))
unfolding exchange
exchange_cases [] packet c = inl (_, _, refl, refl)
exchange_cases (send_failed ∷ rest) packet c = inl (_, _, refl, refl)
exchange_cases (silent ∷ rest) packet c = inl (_, _, refl, refl)
exchange_cases (recv_failed ∷ rest) packet c = inl (_, _, refl, refl)
exchange_cases (reply bytes ∷ rest) packet c = inr (bytes, rest, refl, refl)

-- The client under its next identifiers.
abbrev pub next_id : ℤ → ℤ
next_id v = if is_negative (wrapping_suc32 v) then pos 1 else wrapping_suc32 v

abbrev pub numbered : SnmpV3Client → SnmpV3Client
numbered c = record c { msg_id = next_id c.msg_id; request_id = next_id c.request_id }

-- The salt after a request.
abbrev pub salt_after : Option PrivProtocol → Option (List ℕ) → ℕ → ℕ
salt_after (some protocol) (some priv_key) salt = (salt + 1) % 2 ^ 64
salt_after _ _ salt = salt

-- The client after it has made a packet.
abbrev pub salted : SnmpV3Client → SnmpV3Client
salted c = record c { salt = salt_after c.credentials.priv_protocol c.priv_key c.salt }

module _ (crypto : Crypto) where
  -- What `encrypt_pdu` returns.
  abbrev pub encrypted_of :
      Option PrivProtocol → Option (List ℕ) → EngineState → ℕ → List ℕ → Outcome (List ℕ × List ℕ)
  encrypted_of none priv_key engine salt scoped_pdu = ok (scoped_pdu, [])
  encrypted_of (some protocol) none engine salt scoped_pdu = panicked
  encrypted_of (some protocol) (some priv_key) engine salt scoped_pdu =
      encrypt crypto protocol priv_key engine.engine_boots engine.engine_time ((salt + 1) % 2 ^ 64)
        scoped_pdu

  -- The packet that is sent for a scoped PDU.
  abbrev pub packet_of : ℤ → List ℕ → SnmpV3Client → Outcome (List ℕ)
  packet_of msg_id scoped_pdu c =
      and_then (encrypted_of c.credentials.priv_protocol c.priv_key c.engine c.salt scoped_pdu)
        λ (final_pdu, priv_params).
          sign crypto c.credentials.auth_protocol c.auth_key
            (blank_packet msg_id final_pdu priv_params c)

  encrypt_pdu_lem :
      (protocol : Option PrivProtocol) (priv_key : Option (List ℕ)) (scoped_pdu : List ℕ)
      (c : SnmpV3Client)
      → encrypt_pdu crypto protocol priv_key scoped_pdu c ≡ (
        encrypted_of protocol priv_key c.engine c.salt scoped_pdu,
        record c { salt = salt_after protocol priv_key c.salt },
      )
  unfolding encrypt_pdu
  encrypt_pdu_lem none priv_key scoped_pdu c = refl
  encrypt_pdu_lem (some protocol) none scoped_pdu c = refl
  encrypt_pdu_lem (some protocol) (some priv_key) scoped_pdu c = refl

  pub make_packet_lem :
      (msg_id : ℤ) (scoped_pdu : List ℕ) (c : SnmpV3Client)
      → make_packet crypto msg_id scoped_pdu c ≡ (packet_of msg_id scoped_pdu c, salted c)
  unfolding make_packet blank_packet
  make_packet_lem msg_id scoped_pdu c =
      rw (encrypt_pdu_lem c.credentials.priv_protocol c.priv_key scoped_pdu c) (
        continue-and_then
          (encrypted_of c.credentials.priv_protocol c.priv_key c.engine c.salt scoped_pdu) _
          (λ (final_pdu, priv_params).
            sign crypto c.credentials.auth_protocol c.auth_key
              (blank_packet msg_id final_pdu priv_params c))
          (salted c) λ _. refl)

  -- What a request returns for a message that answers it, once its state is `c`.
  abbrev pub answer_of :
      (SnmpV3Client → List ℕ → V3Message → Outcome (Unit {0}))
      → SnmpV3Client
      → List ℕ
      → V3Message
      → Outcome (List VarBind)
  answer_of check c resp_data msg = and_then (check c resp_data msg) λ _. open_pdu crypto c msg

  -- The client after its packet has been answered by `msg`.
  abbrev pub answered : SnmpV3Client → List ℕ → List Exchange → V3Message → SnmpV3Client
  answered c packet rest msg = record c {
    network = rest;
    sent = c.sent ++ packet ∷ [];
    engine = record c.engine { engine_boots = msg.engine_boots; engine_time = msg.engine_time };
  }

  module _ (check : SnmpV3Client → List ℕ → V3Message → Outcome (Unit {0})) where
    pub transact-reply :
        (packet : List ℕ) (c : SnmpV3Client) (bytes : List ℕ) (rest : List Exchange)
        (msg : V3Message)
        → c.network ≡ reply bytes ∷ rest
        → decode_v3_message (take 65535 bytes) ≡ ok msg
        → transact crypto check packet c ≡ (
          answer_of check (answered c packet rest msg) (take 65535 bytes) msg,
          answered c packet rest msg,
        )
    unfolding transact exchange keep_time
    transact-reply packet c bytes rest msg e d =
        rw (e, d)
          (continue-and_then (check (answered c packet rest msg) (take 65535 bytes) msg) _ _
            (answered c packet rest msg) λ _. refl)

    -- The scoped PDU of a request.
    abbrev pub scoped_pdu_of : ℕ → ℤ → ℤ → List ℕ → SnmpV3Client → List ℕ
    scoped_pdu_of pdu_type second third varbind_data c =
        encode_scoped_pdu c.engine.engine_id [] pdu_type (next_id c.request_id) second third
          varbind_data

    pub request_lem :
        (pdu_type : ℕ) (second third : ℤ) (varbind_data : List ℕ) (c : SnmpV3Client)
        → request crypto check pdu_type second third varbind_data c
          ≡ continue
              (packet_of
                (next_id c.msg_id)
                (scoped_pdu_of pdu_type second third varbind_data c)
                (numbered c))
              (transact crypto check)
              (salted (numbered c))
    unfolding request
    request_lem pdu_type second third varbind_data c =
        rw
          (make_packet_lem (next_id c.msg_id) (scoped_pdu_of pdu_type second third varbind_data c)
            (numbered c))
          refl
