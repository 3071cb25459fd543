-- ===== src/V3/Client/Requests.antt =====
-- src/v3_client.rs, lines 131 to 336: `send_request`, and the requests of the client. `get_bulk` repeats
-- the lines of `send_request` but one, so both are the definition `request`.
pub mod Steps
pub mod Course
pub mod Ended
pub mod Answered
pub mod Packets
pub mod Success
pub mod Replies
use rusnmp.Prelude.{
  ℕ, bit_or, List, [], ◌∷◌, foldl, replicate, Option, none, some, ◌==◌, if◌then◌else◌, ◌▸◌,
}
use rusnmp.Prelude.Int.{ℤ, pos}
use rusnmp.Error.{
  Outcome, ok, err, panicked, and_then, decode, empty_response, decrypt_failed, snmp,
}
use rusnmp.Run.{pure, fail, lift, gets, modify, ◌>>=◌, ◌>>◌}
use rusnmp.Types.{Oid, VarBind}
use rusnmp.Codec.Encoder.{BerEncoder, into_bytes, write_sequence, write_oid, write_null}
use rusnmp.Codec.Encoder
use rusnmp.Codec.Pdu.{encode_value}
use rusnmp.V3.{AuthProtocol, PrivProtocol, is_some, security_level}
use rusnmp.V3.Crypto.{Crypto, encrypt, decrypt}
use rusnmp.V3.Messages.{
  V3Message, ScopedPduData, encode_usm_params, encode_v3_message, encode_scoped_pdu,
  decode_v3_message, decode_scoped_pdu,
}
use rusnmp.V3.Client.{truncated_hmac_len_pub, apply_code, check_code}
use rusnmp.V3.Client.State.{
  SnmpV3Client, V3Action, v3_pdu_get, v3_pdu_getnext, v3_pdu_set, v3_pdu_getbulk, next_msg_id,
  next_request_id, next_salt, send_and_recv,
}

unfoldable pub encode_null_varbinds : List Oid → List ℕ
encode_null_varbinds oids = into_bytes (foldl write_one Encoder.new oids)
  where
    write_one : BerEncoder → Oid → BerEncoder
    write_one inner oid =
        let vb_bytes = into_bytes (Encoder.new ▸ write_oid oid ▸ write_null) in
        write_sequence vb_bytes inner

unfoldable pub encode_set_varbinds : List VarBind → List ℕ
encode_set_varbinds varbinds = into_bytes (foldl write_one Encoder.new varbinds)
  where
    write_one : BerEncoder → VarBind → BerEncoder
    write_one inner vb =
        let vb_bytes = into_bytes (Encoder.new ▸ write_oid vb.oid ▸ encode_value vb.value) in
        write_sequence vb_bytes inner

unfoldable pub auth_placeholder_len : Option AuthProtocol → ℕ
auth_placeholder_len none = 0
auth_placeholder_len (some protocol) = truncated_hmac_len_pub protocol

-- The message before the code is put in.
unfoldable pub blank_packet : ℤ → List ℕ → List ℕ → SnmpV3Client → List ℕ
unfolding auth_placeholder_len
blank_packet msg_id final_pdu priv_params c =
    let security_params =
      encode_usm_params c.engine.engine_id c.engine.engine_boots c.engine.engine_time
        c.credentials.username (replicate (auth_placeholder_len c.credentials.auth_protocol) 0)
        priv_params in
    encode_v3_message msg_id (pos 65507) (bit_or (security_level c.credentials) 0x04) (pos 3)
      security_params final_pdu (is_some c.credentials.priv_protocol)

-- `self.engine.engine_boots = …; self.engine.engine_time = …`
unfoldable pub keep_time : V3Message → SnmpV3Client → SnmpV3Client
keep_time msg c = record c {
  engine = record c.engine { engine_boots = msg.engine_boots; engine_time = msg.engine_time };
}

unfoldable pub varbinds_or_error : ScopedPduData → Outcome (List VarBind)
varbinds_or_error scoped =
    if scoped.error_status == 0
    then ok scoped.varbinds
    else err (snmp scoped.error_status scoped.error_index)

module _ (crypto : Crypto) where
  -- `unwrap` on a missing key panics.
  unfoldable pub encrypt_pdu :
      Option PrivProtocol → Option (List ℕ) → List ℕ → V3Action (List ℕ × List ℕ)
  unfolding next_salt
  encrypt_pdu none priv_key scoped_pdu = pure (scoped_pdu, [])
  encrypt_pdu (some protocol) none scoped_pdu = lift panicked
  encrypt_pdu (some protocol) (some priv_key) scoped_pdu = do
    salt ← next_salt
    engine ← gets (λ c. c.engine)
    lift (encrypt crypto protocol priv_key engine.engine_boots engine.engine_time salt scoped_pdu)

  -- "Apply authentication HMAC".
  unfoldable pub sign : Option AuthProtocol → Option (List ℕ) → List ℕ → Outcome (List ℕ)
  unfolding apply_code auth_placeholder_len
  sign (some protocol) (some auth_key) packet =
      apply_code crypto protocol auth_key packet (auth_placeholder_len (some protocol))
  sign _ _ packet = ok packet

  -- From the scoped PDU to the packet that is sent.
  unfoldable pub make_packet : ℤ → List ℕ → V3Action (List ℕ)
  unfolding encrypt_pdu blank_packet sign
  make_packet msg_id scoped_pdu = do
    credentials ← gets (λ c. c.credentials)
    priv_key ← gets (λ c. c.priv_key)
    (final_pdu, priv_params) ← encrypt_pdu credentials.priv_protocol priv_key scoped_pdu
    packet ← gets (blank_packet msg_id final_pdu priv_params)
    auth_key ← gets (λ c. c.auth_key)
    lift (sign credentials.auth_protocol auth_key packet)

  -- "Verify auth if applicable".
  unfoldable pub verify :
      Option AuthProtocol → Option (List ℕ) → List ℕ → V3Message → Outcome (Unit {0})
  unfolding check_code
  verify (some protocol) (some auth_key) resp_data msg =
      check_code crypto protocol auth_key resp_data msg.auth_params
  verify _ _ resp_data msg = ok tt

  -- The checks of `send_request` and of `get_bulk`.
  abbrev pub checked : SnmpV3Client → List ℕ → V3Message → Outcome (Unit {0})
  checked c = verify c.credentials.auth_protocol c.auth_key

  abbrev pub unchecked : SnmpV3Client → List ℕ → V3Message → Outcome (Unit {0})
  unchecked c resp_data msg = ok tt

  unfoldable pub decrypt_pdu : Option PrivProtocol → Option (List ℕ) → V3Message → Outcome (List ℕ)
  decrypt_pdu (some protocol) (some priv_key) msg =
      decrypt crypto protocol priv_key msg.engine_boots msg.engine_time msg.priv_params
        msg.scoped_pdu_raw
  decrypt_pdu _ _ msg = err decrypt_failed

  -- From "Decrypt if needed" to the end.
  unfoldable pub open_pdu : SnmpV3Client → V3Message → Outcome (List VarBind)
  unfolding decrypt_pdu varbinds_or_error
  open_pdu c msg =
      and_then
        (if msg.is_encrypted
          then decrypt_pdu c.credentials.priv_protocol c.priv_key msg
          else ok msg.scoped_pdu_raw)
        λ pdu_data. and_then (decode_scoped_pdu pdu_data) varbinds_or_error

  -- From the sending of the packet on. `check` is what becomes of the code of the response.
  unfoldable pub transact :
      (SnmpV3Client → List ℕ → V3Message → Outcome (Unit {0})) → List ℕ → V3Action (List VarBind)
  unfolding send_and_recv keep_time open_pdu
  transact check packet = do
    resp_data ← send_and_recv packet
    msg ← lift (decode_v3_message resp_data)
    modify (keep_time msg)
    verdict ← gets (λ c. check c resp_data msg)
    lift verdict
    varbinds ← gets (λ c. open_pdu c msg)
    lift varbinds

  unfoldable pub request :
      (SnmpV3Client → List ℕ → V3Message → Outcome (Unit {0}))
      → ℕ
      → ℤ
      → ℤ
      → List ℕ
      → V3Action (List VarBind)
  unfolding next_msg_id next_request_id make_packet transact
  request check pdu_type second third varbind_data = do
    msg_id ← next_msg_id
    request_id ← next_request_id
    engine ← gets (λ c. c.engine)
    packet ←
        make_packet msg_id
          (encode_scoped_pdu engine.engine_id [] pdu_type request_id second third varbind_data)
    transact check packet

  unfoldable pub send_request : ℕ → List ℕ → V3Action (List VarBind)
  unfolding request
  send_request pdu_type varbind_data = request checked pdu_type (pos 0) (pos 0) varbind_data

  unfoldable pub get : List Oid → V3Action (List VarBind)
  unfolding send_request encode_null_varbinds
  get oids = send_request v3_pdu_get (encode_null_varbinds oids)

  unfoldable pub first_or_empty : List VarBind → V3Action VarBind
  first_or_empty [] = fail (decode empty_response)
  first_or_empty (vb ∷ _) = pure vb

  unfoldable pub get_one : Oid → V3Action VarBind
  unfolding get first_or_empty
  get_one oid = do results ← get (oid ∷ []); first_or_empty results

  unfoldable pub get_next : List Oid → V3Action (List VarBind)
  unfolding send_request encode_null_varbinds
  get_next oids = send_request v3_pdu_getnext (encode_null_varbinds oids)

  -- The source repeats `send_request` here, without the check of the code.
  unfoldable pub get_bulk : List Oid → ℤ → ℤ → V3Action (List VarBind)
  unfolding request encode_null_varbinds
  get_bulk oids non_repeaters max_repetitions =
      request unchecked v3_pdu_getbulk non_repeaters max_repetitions (encode_null_varbinds oids)

  unfoldable pub set : List VarBind → V3Action (List VarBind)
  unfolding send_request encode_set_varbinds
  set varbinds = send_request v3_pdu_set (encode_set_varbinds varbinds)
