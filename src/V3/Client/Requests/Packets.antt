-- ===== src/V3/Client/Requests/Packets.antt =====
-- src/v3_client.rs: the packet of a request, as it leaves and as an agent reads it.
use rusnmp.Prelude.{
  ℕ, ◌+◌, ◌%◌, ◌≡◌, ◌≤◌, ◌^◌, ◌<◌, refl, arith, List, length, replicate, Option, none, some, bit_or,
}
use rusnmp.Prelude.Int.{ℤ, pos, IsI32}
use rusnmp.Error.{ok}
use rusnmp.V3.{AuthProtocol, PrivProtocol, EngineState, UsmCredentials, security_level, is_some}
use rusnmp.V3.Crypto.{Crypto}
use rusnmp.V3.Crypto.Ciphers.{CryptoLaws, decrypt-encrypt}
use rusnmp.V3.Messages.{UsmParams, encrypted_flag, decode_v3_message}
use rusnmp.V3.Messages.Usm.{IsWireUsm}
use rusnmp.V3.Messages.RoundTrip.{
  message_of, params_of, message_content, decode_v3_message-encode_v3_message,
}
use rusnmp.V3.Messages.Message.{IsScoped}
use rusnmp.V3.Client.{truncated_hmac_len_pub, find_auth_placeholder, apply_code}
use rusnmp.V3.Client.Sign.{compute_auth-ok, apply_code-Signed}
use rusnmp.V3.Client.State.{SnmpV3Client}
use rusnmp.V3.Client.Requests.{auth_placeholder_len, blank_packet, sign}
use rusnmp.V3.Client.Requests.Steps.{encrypted_of, packet_of}

-- A client that encrypts has a key of 16 bytes or more.
abbrev pub IsEquipped : Option PrivProtocol → Option (List ℕ) → Type 0
IsEquipped none priv_key = Unit {0}
IsEquipped (some protocol) none = ⊥
IsEquipped (some protocol) (some priv_key) = 16 ≤ length priv_key

apply_code-ok :
    (crypto : Crypto) (laws : CryptoLaws crypto) (protocol : AuthProtocol)
    (auth_key packet : List ℕ)
    → (signed : List ℕ) × (apply_code crypto protocol auth_key packet
          (truncated_hmac_len_pub protocol)
        ≡ ok signed)
apply_code-ok crypto laws protocol auth_key packet =
    go (find_auth_placeholder packet (truncated_hmac_len_pub protocol)) refl
  where
    go :
        (found : Option ℕ)
        → find_auth_placeholder packet (truncated_hmac_len_pub protocol) ≡ found
        → (signed : List ℕ) × (apply_code crypto protocol auth_key packet
              (truncated_hmac_len_pub protocol)
            ≡ ok signed)
    go none e =
        let (mac, made, _) = compute_auth-ok crypto laws protocol auth_key packet in
        (packet, unfold apply_code in rw (made, e) refl)
    go (some at) e =
        let (signed, made, _) = apply_code-Signed crypto laws protocol auth_key packet at e in
        (signed, made)

module _ (crypto : Crypto) (laws : CryptoLaws crypto) where
  sign-ok :
      (protocol : Option AuthProtocol) (auth_key : Option (List ℕ)) (packet : List ℕ)
      → (signed : List ℕ) × (sign crypto protocol auth_key packet ≡ ok signed)
  unfolding sign
  sign-ok none auth_key packet = (packet, refl)
  sign-ok (some protocol) none packet = (packet, refl)
  sign-ok (some protocol) (some auth_key) packet =
      apply_code-ok crypto laws protocol auth_key packet

  encrypted_of-ok :
      (protocol : Option PrivProtocol) (priv_key : Option (List ℕ)) (engine : EngineState)
      (salt : ℕ) (scoped_pdu : List ℕ)
      → IsEquipped protocol priv_key
      → (final_pdu : List ℕ) × (priv_params : List ℕ) × (encrypted_of crypto protocol priv_key
            engine salt scoped_pdu
          ≡ ok (final_pdu, priv_params))
  encrypted_of-ok none priv_key engine salt scoped_pdu h = (scoped_pdu, _, refl)
  encrypted_of-ok (some protocol) none engine salt scoped_pdu h = absurd h
  encrypted_of-ok (some protocol) (some priv_key) engine salt scoped_pdu h =
      let (final_pdu, priv_params, made, _, _) =
        decrypt-encrypt crypto laws protocol priv_key engine.engine_boots engine.engine_time
          ((salt + 1) % 2 ^ 64) scoped_pdu h in
      (final_pdu, priv_params, made)

  pub packet_of-ok :
      (msg_id : ℤ) (scoped_pdu : List ℕ) (c : SnmpV3Client)
      → IsEquipped c.credentials.priv_protocol c.priv_key
      → (packet : List ℕ) × (packet_of crypto msg_id scoped_pdu c ≡ ok packet)
  packet_of-ok msg_id scoped_pdu c h =
      let (final_pdu, priv_params, made) =
        encrypted_of-ok c.credentials.priv_protocol c.priv_key c.engine c.salt scoped_pdu h in
      let (packet, signed) =
        sign-ok c.credentials.auth_protocol c.auth_key
          (blank_packet msg_id final_pdu priv_params c) in
      (packet, rw made signed)

-- What an agent reads from a packet before its code is put in.
abbrev pub params_in : SnmpV3Client → List ℕ → UsmParams
params_in c priv_params = record {
  engine_id = c.engine.engine_id;
  engine_boots = c.engine.engine_boots;
  engine_time = c.engine.engine_time;
  username = c.credentials.username;
  auth_params = replicate (auth_placeholder_len c.credentials.auth_protocol) 0;
  priv_params = priv_params;
}

abbrev pub request_flags : UsmCredentials → ℕ
request_flags credentials = bit_or (security_level credentials) 0x04

flag-is_some : (c : UsmCredentials) → encrypted_flag (request_flags c) ≡ is_some c.priv_protocol
unfolding security_level
flag-is_some c = go c.auth_protocol c.priv_protocol refl refl
  where
    go :
        (a : Option AuthProtocol) (p : Option PrivProtocol)
        → c.auth_protocol ≡ a
        → c.priv_protocol ≡ p
        → encrypted_flag (request_flags c) ≡ is_some c.priv_protocol
    go none none e f = rw (e, f) refl
    go none (some p) e f = rw (e, f) refl
    go (some a) none e f = rw (e, f) refl
    go (some a) (some p) e f = rw (e, f) refl

-- An agent that decodes a packet, before its code is put in, reads the identifier of the message, the
-- size 65507, flags whose privacy bit says whether the client encrypts, the security model 3, the
-- engine's identifier, boots and time as the client has them, the user's name, a code of zeros as
-- long as the protocol wants, the privacy parameters and the scoped PDU. The identifier is an i32, the
-- parameters are in range, an unencrypted scoped PDU is one element, and all contents are below
-- 2 ^ 24 bytes.
pub decode_v3_message-blank_packet :
    (c : SnmpV3Client) (msg_id : ℤ) (final_pdu priv_params : List ℕ)
    → IsI32 msg_id
    → IsWireUsm (params_in c priv_params)
    → IsScoped (is_some c.credentials.priv_protocol) final_pdu
    → length (
        message_content msg_id
          (pos 65507)
          (request_flags c.credentials)
          (pos 3)
          (params_of (params_in c priv_params))
          final_pdu
          (is_some c.credentials.priv_protocol))
      < 2 ^ 24
    → let m =
        message_of msg_id
          (pos 65507)
          (request_flags c.credentials)
          (pos 3)
          (params_of (params_in c priv_params))
          (params_in c priv_params)
          final_pdu in
      decode_v3_message (blank_packet msg_id final_pdu priv_params c)
      ≡ ok (record m { is_encrypted = is_some c.credentials.priv_protocol })
unfolding blank_packet
decode_v3_message-blank_packet c msg_id final_pdu priv_params hi hu hs fits =
    let flag = flag-is_some c.credentials in
    let read =
      decode_v3_message-encode_v3_message msg_id (pos 65507) (request_flags c.credentials) (pos 3)
        (params_in c priv_params) final_pdu hi (omega arith) (omega arith) hu (rw flag hs)
        (rw flag fits) in
    rw flag at read
