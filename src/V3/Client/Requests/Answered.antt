-- ===== src/V3/Client/Requests/Answered.antt =====
-- src/v3_client.rs: a request that an agent with the same keys answers.
use rusnmp.Prelude.{
  ◌⊎◌, [], ℕ, ◌≡◌, ◌≤◌, ◌^◌, ◌<◌, refl, arith, List, map, take, length, some, true, All, ◌∷◌,
}
use rusnmp.Prelude.Int.{ℤ, pos, IsI32}
use rusnmp.Error.{Outcome, and_then-ok, ok}
use rusnmp.Run.{eval}
use rusnmp.Types.{Oid, VarBind}
use rusnmp.Codec.Pdu.{encode_varbind_list}
use rusnmp.Codec.RoundTrip.{pdu_content}
use rusnmp.Codec.Varbinds.{IsWireVarBind, sent_varbind}
use rusnmp.Client.{Exchange, reply}
use rusnmp.V3.{AuthProtocol, PrivProtocol}
use rusnmp.V3.Crypto.{Crypto, compute_auth, encrypt, decrypt}
use rusnmp.V3.Crypto.Ciphers.{CryptoLaws}
use rusnmp.V3.Crypto.Transport.{decode_scoped_pdu-decrypt}
use rusnmp.V3.Messages.{V3Message, decode_scoped_pdu, encode_scoped_pdu, decode_v3_message}
use rusnmp.V3.Messages.ScopedPdu.{scoped_content}
use rusnmp.V3.Client.Code.{passed, check_code-compute_auth}
use rusnmp.V3.Client.State.{v3_pdu_getbulk, SnmpV3Client}
use rusnmp.V3.Client.Requests.{
  unchecked, request, get_bulk, encode_null_varbinds, checked, decrypt_pdu, open_pdu, send_request,
}
use rusnmp.V3.Client.Requests.Steps.{
  next_id, numbered, salted, answered, scoped_pdu_of, transact-reply, request_lem,
}
use rusnmp.V3.Client.Requests.Packets.{IsEquipped, packet_of-ok}
use rusnmp.V3.Client.Requests.Success.{verify_lem}

-- A client that authenticates and encrypts, with its keys.
pub record HasKeys (c : SnmpV3Client) (auth : AuthProtocol) (auth_key : List ℕ)
    (priv : PrivProtocol) (priv_key : List ℕ) : Type 0 where
  pub auth_protocol : c.credentials.auth_protocol ≡ some auth
  pub auth_key_kept : c.auth_key ≡ some auth_key
  pub priv_protocol : c.credentials.priv_protocol ≡ some priv
  pub priv_key_kept : c.priv_key ≡ some priv_key
  pub long : 16 ≤ length priv_key

-- The message of a datagram whose scoped PDU, once decrypted, is the one of a response without an
-- error that holds `vbs`.
pub record Answers (crypto : Crypto) (priv : PrivProtocol) (priv_key bytes : List ℕ)
    (msg : V3Message) (vbs : List VarBind) : Type 0 where
  pub engine_id : List ℕ
  pub context_name : List ℕ
  pub pdu_type : ℕ
  pub rid : ℤ
  pub ei : ℤ
  pub salt : ℕ
  pub decodes : decode_v3_message (take 65535 bytes) ≡ ok msg
  pub flagged : msg.is_encrypted ≡ true
  pub sealed :
      encrypt crypto priv priv_key msg.engine_boots msg.engine_time salt
        (encode_scoped_pdu engine_id context_name pdu_type rid (pos 0) ei (encode_varbind_list vbs))
      ≡ ok (msg.scoped_pdu_raw, msg.priv_params)
  pub rid_small : IsI32 rid
  pub ei_small : IsI32 ei
  pub wire : All IsWireVarBind vbs
  pub fits :
      length (scoped_content engine_id context_name pdu_type (pdu_content rid (pos 0) ei vbs))
      < 2 ^ 24

decrypt_pdu_lem :
    (crypto : Crypto) (priv : PrivProtocol) (priv_key : List ℕ) (msg : V3Message)
    → decrypt_pdu crypto (some priv) (some priv_key) msg
      ≡ decrypt crypto priv priv_key msg.engine_boots msg.engine_time msg.priv_params
          msg.scoped_pdu_raw
unfolding decrypt_pdu
decrypt_pdu_lem crypto priv priv_key msg = refl

module _ (crypto : Crypto) (laws : CryptoLaws crypto) (auth : AuthProtocol) (auth_key : List ℕ)
    (priv : PrivProtocol) (priv_key bytes : List ℕ) (msg : V3Message) (vbs : List VarBind)
    (a : Answers crypto priv priv_key bytes msg vbs) where
  open_pdu-Answers :
      (c : SnmpV3Client)
      → HasKeys c auth auth_key priv priv_key
      → open_pdu crypto c msg ≡ ok (map sent_varbind vbs)
  unfolding open_pdu
  open_pdu-Answers c k =
      let recovered =
        decode_scoped_pdu-decrypt a.engine_id a.context_name a.pdu_type a.rid (pos 0) a.ei vbs
          crypto laws priv priv_key msg.engine_boots msg.engine_time a.salt k.long a.rid_small
          (omega arith) a.ei_small a.wire a.fits in
      let (pdu_data, decrypted, decoded) =
        and_then-ok
          (decrypt crypto priv priv_key msg.engine_boots msg.engine_time msg.priv_params
            msg.scoped_pdu_raw)
          decode_scoped_pdu _ (rw a.sealed at recovered) in
      rw (a.flagged, k.priv_protocol, k.priv_key_kept, decrypt_pdu_lem, decrypted, decoded) refl

  verify-passed :
      (c : SnmpV3Client)
      → HasKeys c auth auth_key priv priv_key
      → (msg.auth_params ≡ [])
        ⊎ (compute_auth crypto auth auth_key (take 65535 bytes) ≡ ok msg.auth_params)
      → checked crypto c (take 65535 bytes) msg ≡ passed
  verify-passed c k code =
      let accepts =
        check_code-compute_auth crypto auth auth_key (take 65535 bytes) msg.auth_params in
      rw (k.auth_protocol, k.auth_key_kept, verify_lem) (accepts.1 code)

  HasKeys-IsEquipped :
      (c : SnmpV3Client)
      → HasKeys c auth auth_key priv priv_key
      → IsEquipped c.credentials.priv_protocol c.priv_key
  HasKeys-IsEquipped c k = rw (k.priv_protocol, k.priv_key_kept) k.long

  request-Answers :
      (check : SnmpV3Client → List ℕ → V3Message → Outcome (Unit {0})) (c : SnmpV3Client)
      (rest : List Exchange) (pdu_type : ℕ) (second third : ℤ) (varbind_data : List ℕ)
      → ((c' : SnmpV3Client)
          → HasKeys c' auth auth_key priv priv_key
          → check c' (take 65535 bytes) msg ≡ passed)
      → HasKeys c auth auth_key priv priv_key
      → c.network ≡ reply bytes ∷ rest
      → eval (request crypto check pdu_type second third varbind_data) c ≡ ok (map sent_varbind vbs)
  unfolding request
  request-Answers check c rest pdu_type second third varbind_data passes k e =
      let (packet, made) =
        packet_of-ok crypto laws (next_id c.msg_id)
          (scoped_pdu_of crypto check pdu_type second third varbind_data c) (numbered c)
          (HasKeys-IsEquipped c k) in
      let c' = answered crypto (salted (numbered c)) packet rest msg in
      let k' : HasKeys c' auth auth_key priv priv_key = record {
        auth_protocol = k.auth_protocol;
        auth_key_kept = k.auth_key_kept;
        priv_protocol = k.priv_protocol;
        priv_key_kept = k.priv_key_kept;
        long = k.long;
      } in
      rw (request_lem crypto check pdu_type second third varbind_data c) (
        rw made (
          rw (transact-reply crypto check packet (salted (numbered c)) bytes rest msg e a.decodes)
            (rw (passes c' k') (open_pdu-Answers c' k'))))

-- A client that authenticates and encrypts, with a privacy key of 16 bytes or more, and crates that
-- keep their laws: if the next datagram decodes to a message whose flags say encrypted, and whose
-- scoped PDU is what `encrypt` makes, under the keys of the client and the boots and time of the
-- message, of a response without an error, of i32 integers, bindings in range and contents below
-- 2 ^ 24 bytes, then `get_bulk` returns the bindings of the response, exception values as null,
-- whatever the code of the message.
pub get_bulk-Answers :
    (crypto : Crypto) (laws : CryptoLaws crypto) (auth : AuthProtocol) (auth_key : List ℕ)
    (priv : PrivProtocol) (priv_key bytes : List ℕ) (msg : V3Message) (vbs : List VarBind)
    (c : SnmpV3Client) (rest : List Exchange) (oids : List Oid) (non_repeaters max_repetitions : ℤ)
    → Answers crypto priv priv_key bytes msg vbs
    → HasKeys c auth auth_key priv priv_key
    → c.network ≡ reply bytes ∷ rest
    → eval (get_bulk crypto oids non_repeaters max_repetitions) c ≡ ok (map sent_varbind vbs)
unfolding get_bulk
get_bulk-Answers crypto laws auth auth_key priv priv_key bytes msg vbs c rest oids nr mr a k e =
    request-Answers crypto laws auth auth_key priv priv_key bytes msg vbs a (unchecked crypto) c
      rest v3_pdu_getbulk nr mr (encode_null_varbinds oids) (λ c' k'. refl) k e

-- A client and an agent as for `get_bulk`: `send_request` returns the bindings of the response, if in
-- addition the message carries no code, or the code that `compute_auth` gives for the datagram as it
-- came, with that code in it.
pub send_request-Answers :
    (crypto : Crypto) (laws : CryptoLaws crypto) (auth : AuthProtocol) (auth_key : List ℕ)
    (priv : PrivProtocol) (priv_key bytes : List ℕ) (msg : V3Message) (vbs : List VarBind)
    (c : SnmpV3Client) (rest : List Exchange) (pdu_type : ℕ) (varbind_data : List ℕ)
    → Answers crypto priv priv_key bytes msg vbs
    → (msg.auth_params ≡ [])
      ⊎ (compute_auth crypto auth auth_key (take 65535 bytes) ≡ ok msg.auth_params)
    → HasKeys c auth auth_key priv priv_key
    → c.network ≡ reply bytes ∷ rest
    → eval (send_request crypto pdu_type varbind_data) c ≡ ok (map sent_varbind vbs)
unfolding send_request
send_request-Answers crypto laws auth auth_key priv priv_key bytes msg vbs c rest pdu_type
      varbind_data a code k e =
    request-Answers crypto laws auth auth_key priv priv_key bytes msg vbs a (checked crypto) c rest
      pdu_type (pos 0) (pos 0) varbind_data
      (λ c' k'. verify-passed crypto laws auth auth_key priv priv_key bytes msg vbs a c' k' code) k
      e
