-- ===== src/V3/Client/Requests/Ended.antt =====
-- src/v3_client.rs: the end of a request, and the network that a successful one uses up.
use rusnmp.Prelude.{
  ℕ, ◌≡◌, ◌≢◌, ◌≤◌, refl, arith, List, [], ◌∷◌, ◌++◌, take, length, Option, none, some,
  if◌then◌else◌, drop,
}
use rusnmp.Prelude.Int.{ℤ}
use rusnmp.Error.{Outcome, ok, err, panicked, out_of_fuel, and_then}
use rusnmp.Codec.Decoder.Bounds.{Small}
use rusnmp.V3.{AuthProtocol, PrivProtocol, des, aes128, EngineState}
use rusnmp.V3.Crypto.{Crypto, compute_auth, verify_auth, encrypt, decrypt, xor_bytes}
use rusnmp.Codec.Encoder.{to_be_bytes}
use rusnmp.V3.Messages.{V3Message, decode_scoped_pdu}
use rusnmp.V3.Messages.Ends.{decode_scoped_pdu-ends}
use rusnmp.V3.Client.{apply_code, overwrite, check_code}
use rusnmp.V3.Client.Code.{zero_code-same}
use rusnmp.V3.Client.State.{SnmpV3Client}
use rusnmp.V3.Client.Requests.{blank_packet, sign, verify, decrypt_pdu, open_pdu, varbinds_or_error}
use rusnmp.V3.Client.Requests.Steps.{encrypted_of, packet_of}

-- What the crates document: a cipher never lengthens what it decrypts.
pub record NeverLengthens (crypto : Crypto) : Type 0 where
  pub des_length :
      (key iv bytes out : List ℕ)
      → crypto.des_decrypt key iv bytes ≡ some out
      → length out ≤ length bytes
  pub aes_length : (key iv bytes : List ℕ) → length (crypto.aes_decrypt key iv bytes) ≤ length bytes

module _ {A B : Type 0} where
  pub and_then-ends :
      (o : Outcome A) (f : A → Outcome B)
      → o ≢ out_of_fuel
      → ((a : A) → o ≡ ok a → f a ≢ out_of_fuel)
      → and_then o f ≢ out_of_fuel
  and_then-ends (ok a) f h k = k a refl
  and_then-ends (err e) f h k = λ x. cc
  and_then-ends panicked f h k = λ x. cc
  and_then-ends out_of_fuel f h k = absurd (h refl)

encrypt-ends :
    (crypto : Crypto) (protocol : PrivProtocol) (key : List ℕ) (boots time salt : ℕ)
    (bytes : List ℕ)
    → encrypt crypto protocol key boots time salt bytes ≢ out_of_fuel
unfolding encrypt
encrypt-ends crypto des key boots time salt bytes = ground arith
encrypt-ends crypto aes128 key boots time salt bytes = ground arith

compute_auth-ends :
    (crypto : Crypto) (protocol : AuthProtocol) (key message : List ℕ)
    → compute_auth crypto protocol key message ≢ out_of_fuel
unfolding compute_auth
compute_auth-ends crypto protocol key message = ground arith

decrypt-Small :
    (crypto : Crypto) (h : NeverLengthens crypto) (protocol : PrivProtocol) (key : List ℕ)
    (boots time : ℕ) (params bytes out : List ℕ)
    → Small bytes
    → decrypt crypto protocol key boots time params bytes ≡ ok out
    → Small out
unfolding decrypt
decrypt-Small crypto h des key boots time params bytes out small e =
    let iv = xor_bytes (take 8 (drop 8 key)) params in
    ground (arith, h.des_length (take 8 key) iv bytes out)
decrypt-Small crypto h aes128 key boots time params bytes out small e =
    let iv = to_be_bytes 4 boots ++ to_be_bytes 4 time ++ params in
    ground (arith, h.aes_length (take 16 key) iv bytes)

decrypt-ends :
    (crypto : Crypto) (protocol : PrivProtocol) (key : List ℕ) (boots time : ℕ)
    (params bytes : List ℕ)
    → decrypt crypto protocol key boots time params bytes ≢ out_of_fuel
unfolding decrypt
decrypt-ends crypto des key boots time params bytes = ground arith
decrypt-ends crypto aes128 key boots time params bytes = ground arith

module _ (crypto : Crypto) where
  sign-ends :
      (protocol : Option AuthProtocol) (auth_key : Option (List ℕ)) (packet : List ℕ)
      → sign crypto protocol auth_key packet ≢ out_of_fuel
  unfolding sign apply_code overwrite
  sign-ends none auth_key packet = λ e. cc
  sign-ends (some protocol) none packet = λ e. cc
  sign-ends (some protocol) (some auth_key) packet =
      ground (arith, compute_auth-ends crypto protocol auth_key packet)

  encrypted_of-ends :
      (protocol : Option PrivProtocol) (priv_key : Option (List ℕ)) (engine : EngineState)
      (salt : ℕ) (scoped_pdu : List ℕ)
      → encrypted_of crypto protocol priv_key engine salt scoped_pdu ≢ out_of_fuel
  encrypted_of-ends none priv_key engine salt scoped_pdu = λ e. cc
  encrypted_of-ends (some protocol) none engine salt scoped_pdu = λ e. cc
  encrypted_of-ends (some protocol) (some priv_key) engine salt scoped_pdu =
      encrypt-ends crypto protocol priv_key engine.engine_boots engine.engine_time _ scoped_pdu

  pub packet_of-ends :
      (msg_id : ℤ) (scoped_pdu : List ℕ) (c : SnmpV3Client)
      → packet_of crypto msg_id scoped_pdu c ≢ out_of_fuel
  packet_of-ends msg_id scoped_pdu c =
      and_then-ends _ _
        (encrypted_of-ends c.credentials.priv_protocol c.priv_key c.engine c.salt scoped_pdu)
        λ (final_pdu, priv_params) _.
          sign-ends c.credentials.auth_protocol c.auth_key
            (blank_packet msg_id final_pdu priv_params c)

  check_code-ends :
      (protocol : AuthProtocol) (auth_key resp_data auth_params : List ℕ)
      → check_code crypto protocol auth_key resp_data auth_params ≢ out_of_fuel
  unfolding check_code verify_auth
  check_code-ends protocol auth_key resp_data [] = λ e. cc
  check_code-ends protocol auth_key resp_data (b ∷ auth_params) =
      rw (zero_code-same resp_data (length (b ∷ auth_params)))
        (ground (arith, compute_auth-ends crypto protocol auth_key resp_data))

  pub verify-ends :
      (protocol : Option AuthProtocol) (auth_key : Option (List ℕ)) (resp_data : List ℕ)
      (msg : V3Message)
      → verify crypto protocol auth_key resp_data msg ≢ out_of_fuel
  unfolding verify
  verify-ends none auth_key resp_data msg = λ e. cc
  verify-ends (some protocol) none resp_data msg = λ e. cc
  verify-ends (some protocol) (some auth_key) resp_data msg =
      check_code-ends protocol auth_key resp_data msg.auth_params

  module _ (h : NeverLengthens crypto) where
    decrypt_pdu-ends :
        (protocol : Option PrivProtocol) (priv_key : Option (List ℕ)) (msg : V3Message)
        → decrypt_pdu crypto protocol priv_key msg ≢ out_of_fuel
    unfolding decrypt_pdu
    decrypt_pdu-ends none priv_key msg = λ e. cc
    decrypt_pdu-ends (some protocol) none msg = λ e. cc
    decrypt_pdu-ends (some protocol) (some priv_key) msg =
        decrypt-ends crypto protocol priv_key msg.engine_boots msg.engine_time msg.priv_params
          msg.scoped_pdu_raw

    decrypt_pdu-Small :
        (protocol : Option PrivProtocol) (priv_key : Option (List ℕ)) (msg : V3Message)
        (out : List ℕ)
        → Small msg.scoped_pdu_raw
        → decrypt_pdu crypto protocol priv_key msg ≡ ok out
        → Small out
    unfolding decrypt_pdu
    decrypt_pdu-Small none priv_key msg out small e = cc
    decrypt_pdu-Small (some protocol) none msg out small e = cc
    decrypt_pdu-Small (some protocol) (some priv_key) msg out small e =
        decrypt-Small crypto h protocol priv_key msg.engine_boots msg.engine_time msg.priv_params
          msg.scoped_pdu_raw out small e

    pub open_pdu-ends :
        (c : SnmpV3Client) (msg : V3Message)
        → Small msg.scoped_pdu_raw
        → open_pdu crypto c msg ≢ out_of_fuel
    unfolding open_pdu
    open_pdu-ends c msg small =
        let protocol = c.credentials.priv_protocol in
        let decrypted = decrypt_pdu crypto protocol c.priv_key msg in
        let plain = if msg.is_encrypted then decrypted else ok msg.scoped_pdu_raw in
        and_then-ends plain _ (ground (arith, decrypt_pdu-ends protocol c.priv_key msg))
          λ pdu_data (e : plain ≡ ok pdu_data).
            and_then-ends (decode_scoped_pdu pdu_data) _
              (decode_scoped_pdu-ends pdu_data
                (ground (arith, decrypt_pdu-Small protocol c.priv_key msg pdu_data small)))
              λ scoped _. unfold varbinds_or_error in ground arith
