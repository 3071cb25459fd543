-- ===== src/V3/Examples.antt =====
-- src/v3.rs: concrete runs of the messages and the cryptography of v3.
use rusnmp.Prelude.{
  ℕ, ◌≡◌, ◌↔◌, refl, arith, List, [], ◌∷◌, length, replicate, All, length-replicate, some, true,
}
use rusnmp.Prelude.Int.{pos}
use rusnmp.Error.{ok, and_then}
use rusnmp.Types.{VarBind, integer}
use rusnmp.Codec.Encoder.{
  write_sequence, write_length, write_octet_string, write_integer, encode_oid, encode_sub_id,
  encode_integer_bytes, strip_zeros, to_be_bytes,
}
use rusnmp.Codec.Encoder.Appends.{length_octets}
use rusnmp.Codec.Pdu.{encode_varbind_list}
use rusnmp.Codec.Varbinds.{IsWireVarBind}
use rusnmp.V3.{md5, sha1, des}
use rusnmp.V3.Crypto.{
  Crypto, digest_len, compute_auth, verify_auth, encrypt, decrypt, password_to_master_key,
}
use rusnmp.Prelude.{◌++◌, ◌⊎◌}
use rusnmp.Client.Subtree.{same_components}
use rusnmp.V3.Client.{check_code, truncated_hmac_len_pub, find_auth_placeholder, apply_code}
use rusnmp.V3.Client.Sign.{Signed, apply_code-Signed}
use rusnmp.V3.Client.Code.{passed, check_code-compute_auth}
use rusnmp.V3.Crypto.Verify.{verify_auth-compute_auth}
use rusnmp.V3.Crypto.Ciphers.{CryptoLaws}
use rusnmp.V3.Crypto.Keys.{Cycles, password_to_master_key-Cycles}
use rusnmp.V3.Crypto.Transport.{decode_scoped_pdu-decrypt}
use rusnmp.V3.Messages.{
  UsmParams, encode_scoped_pdu, decode_scoped_pdu, encode_usm_params, encode_v3_message,
  decode_v3_message,
}
use rusnmp.V3.Messages.ScopedPdu.{scoped_of}
use rusnmp.V3.Messages.Usm.{IsWireUsm}
use rusnmp.V3.Messages.RoundTrip.{message_of, params_of, decode_v3_message-encode_v3_message}

abbrev engine_id : List ℕ
engine_id = 0x80 ∷ 0x00 ∷ 0x1F ∷ 0x88 ∷ 0x04 ∷ []

abbrev user : List ℕ
user = 0x61 ∷ 0x64 ∷ []

abbrev bindings : List VarBind
bindings = record { oid = record { components = 1 ∷ 3 ∷ 6 ∷ [] }; value = integer (pos 5) } ∷ []

bindings-IsWireVarBind : All IsWireVarBind bindings
unfolding encode_oid encode_sub_id encode_integer_bytes strip_zeros to_be_bytes length_octets
bindings-IsWireVarBind = ground arith

abbrev params : UsmParams
params = record {
  engine_id = engine_id;
  engine_boots = 3;
  engine_time = 4000000000;
  username = user;
  auth_params = replicate 12 0;
  priv_params = [];
}

params-IsWireUsm : IsWireUsm params
unfolding encode_integer_bytes strip_zeros to_be_bytes length_octets
params-IsWireUsm = record {
  boots = omega arith;
  time = omega arith;
  engine_small = omega arith;
  username_small = omega arith;
  auth_small = omega arith;
  priv_small = omega arith;
  fits = omega arith;
}

-- Encrypted: a flag of 3.
decode_v3_message-encode_v3_message_example :
    decode_v3_message
      (encode_v3_message (pos 1) (pos 65507) 3 (pos 3) (params_of params) (1 ∷ 2 ∷ []) true)
    ≡ ok (message_of (pos 1) (pos 65507) 3 (pos 3) (params_of params) params (1 ∷ 2 ∷ []))
unfolding encode_usm_params encode_integer_bytes strip_zeros to_be_bytes length_octets
    write_sequence write_length write_octet_string write_integer
decode_v3_message-encode_v3_message_example =
    decode_v3_message-encode_v3_message (pos 1) (pos 65507) 3 (pos 3) params (1 ∷ 2 ∷ [])
      (omega arith) (omega arith) (omega arith) params-IsWireUsm (omega arith) (omega arith)

-- Functions that keep the laws.
abbrev plain_crypto : Crypto
plain_crypto = record {
  digest = λ p m. replicate (digest_len p) 0;
  hmac = λ p k m. replicate (digest_len p) (length m);
  des_encrypt = λ k iv bytes. bytes;
  des_decrypt = λ k iv bytes. some bytes;
  aes_encrypt = λ k iv bytes. bytes;
  aes_decrypt = λ k iv bytes. bytes;
}

plain_laws : CryptoLaws plain_crypto
plain_laws = record {
  hmac_length = λ p k m. length-replicate (digest_len p) (length m);
  des_inverse = λ k iv bytes a b c. refl;
  aes_inverse = λ k iv bytes a b. refl;
}

abbrev priv_key : List ℕ
priv_key = replicate 20 7

verify_auth-compute_auth_example :
    (verify_auth plain_crypto md5 priv_key (1 ∷ 2 ∷ []) (replicate 12 2) ≡ ok true)
    ↔ (compute_auth plain_crypto md5 priv_key (1 ∷ 2 ∷ []) ≡ ok (replicate 12 2))
verify_auth-compute_auth_example =
    verify_auth-compute_auth plain_crypto md5 priv_key (1 ∷ 2 ∷ []) (replicate 12 2)

decode_scoped_pdu-decrypt_example :
    and_then
      (encrypt plain_crypto des priv_key 3 4000 99 (
        encode_scoped_pdu engine_id [] 0xA0 (pos 7) (pos 0) (pos 0) (encode_varbind_list bindings)))
      (λ (encrypted, priv_params).
        and_then (decrypt plain_crypto des priv_key 3 4000 priv_params encrypted) decode_scoped_pdu)
    ≡ ok (scoped_of engine_id [] 0xA0 (pos 7) (pos 0) (pos 0) bindings)
unfolding encode_oid encode_sub_id encode_integer_bytes strip_zeros to_be_bytes length_octets
decode_scoped_pdu-decrypt_example =
    decode_scoped_pdu-decrypt engine_id [] 0xA0 (pos 7) (pos 0) (pos 0) bindings plain_crypto
      plain_laws des priv_key 3 4000 99 (omega arith) (omega arith) (omega arith) (omega arith)
      bindings-IsWireVarBind (omega arith)

password_to_master_key-Cycles_example :
    (fed : List ℕ) × (password_to_master_key plain_crypto sha1 user
      ≡ ok (plain_crypto.digest sha1 fed))
    × Cycles user 0 1048576 fed
password_to_master_key-Cycles_example =
    password_to_master_key-Cycles plain_crypto sha1 user (omega arith)

abbrev no_code : List ℕ
no_code = []

check_code-compute_auth_example :
    (check_code plain_crypto md5 priv_key (1 ∷ 2 ∷ []) no_code ≡ passed)
    ↔ ((no_code ≡ []) ⊎ (compute_auth plain_crypto md5 priv_key (1 ∷ 2 ∷ []) ≡ ok no_code))
check_code-compute_auth_example =
    check_code-compute_auth plain_crypto md5 priv_key (1 ∷ 2 ∷ []) no_code

abbrev packet : List ℕ
packet = 1 ∷ 2 ∷ (replicate 12 0 ++ 3 ∷ [])

packet_found : find_auth_placeholder packet (truncated_hmac_len_pub md5) ≡ some 2
unfolding find_auth_placeholder same_components truncated_hmac_len_pub
packet_found = refl

apply_code-Signed_example :
    (signed : List ℕ) × (apply_code plain_crypto md5 priv_key packet (truncated_hmac_len_pub md5)
      ≡ ok signed)
    × Signed plain_crypto md5 priv_key packet 2 signed
apply_code-Signed_example =
    apply_code-Signed plain_crypto plain_laws md5 priv_key packet 2 packet_found
