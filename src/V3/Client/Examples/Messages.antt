-- ===== src/V3/Client/Examples/Messages.antt =====
-- src/v3_client.rs: concrete crates and responses for the runs of the client.
use rusnmp.Prelude.{
  ap, ◌∙◌, take-all, ℕ, ◌≡◌, refl, arith, List, [], ◌∷◌, length, take, replicate, length-replicate,
  All, some, ◌<◌, true, false,
}
use rusnmp.Prelude.Int.{pos}
use rusnmp.Error.{ok}
use rusnmp.Types.{Oid, VarBind, integer}
use rusnmp.Codec.Encoder.{
  write_sequence, write_length, write_octet_string, write_integer, encode_oid, encode_sub_id,
  encode_integer_bytes, strip_zeros, to_be_bytes,
}
use rusnmp.Codec.Encoder.Appends.{length_octets, length-tlv-le}
use rusnmp.Codec.Tags.{tag_sequence}
use rusnmp.Codec.Pdu.{encode_varbind_list}
use rusnmp.Codec.RoundTrip.{pdu_content}
use rusnmp.Codec.Varbinds.{IsWireVarBind}
use rusnmp.V3.Crypto.{Crypto, digest_len}
use rusnmp.V3.Crypto.Ciphers.{CryptoLaws}
use rusnmp.V3.Messages.{
  UsmParams, V3Message, encode_scoped_pdu, decode_scoped_pdu, encode_usm_params, encode_v3_message,
  decode_v3_message,
}
use rusnmp.V3.Messages.ScopedPdu.{
  scoped_content, scoped_of, encode_scoped_pdu-content, decode_scoped_pdu-encode_scoped_pdu,
}
use rusnmp.V3.Messages.Usm.{IsWireUsm}
use rusnmp.V3.Messages.Message.{IsScoped}
use rusnmp.V3.Messages.RoundTrip.{message_of, params_of, decode_v3_message-encode_v3_message}
use rusnmp.V3.Messages.Lengths.{length-message_content, length-encode_v3_message}

-- Digests and codes that depend on nothing, and ciphers that change nothing.
abbrev pub crypto : Crypto
crypto = record {
  digest = λ p m. replicate (digest_len p) 7;
  hmac = λ p k m. replicate (digest_len p) 5;
  des_encrypt = λ k iv bytes. bytes;
  des_decrypt = λ k iv bytes. some bytes;
  aes_encrypt = λ k iv bytes. bytes;
  aes_decrypt = λ k iv bytes. bytes;
}

pub laws : CryptoLaws crypto
laws = record {
  hmac_length = λ p k m. length-replicate (digest_len p) 5;
  des_inverse = λ k iv bytes a b c. refl;
  aes_inverse = λ k iv bytes a b. refl;
}

abbrev pub engine_id : List ℕ
engine_id = 0x80 ∷ 0x00 ∷ 0x1F ∷ 0x88 ∷ 0x04 ∷ []

abbrev pub user : List ℕ
user = 0x61 ∷ 0x64 ∷ []

abbrev pub root : Oid
root = record { components = 1 ∷ 3 ∷ [] }

abbrev pub inside : VarBind
inside = record { oid = record { components = 1 ∷ 3 ∷ 6 ∷ [] }; value = integer (pos 5) }

abbrev pub outside : VarBind
outside = record { oid = record { components = 1 ∷ 4 ∷ [] }; value = integer (pos 6) }

abbrev pub bindings : List VarBind
bindings = inside ∷ outside ∷ []

pub bindings-IsWireVarBind : All IsWireVarBind bindings
unfolding encode_oid encode_sub_id encode_integer_bytes strip_zeros to_be_bytes length_octets
bindings-IsWireVarBind = ground arith

-- The scoped PDU of a response.
abbrev pub scoped : List ℕ
scoped = encode_scoped_pdu engine_id [] 0xA2 (pos 7) (pos 0) (pos 0) (encode_varbind_list bindings)

abbrev pub scoped_inside : List ℕ
scoped_inside = scoped_content engine_id [] 0xA2 (pdu_content (pos 7) (pos 0) (pos 0) bindings)

pub scoped-small : length scoped_inside < 100
unfolding encode_oid encode_sub_id encode_integer_bytes strip_zeros to_be_bytes length_octets
scoped-small = omega arith

pub scoped-IsScoped : IsScoped false scoped
scoped-IsScoped = (
  tag_sequence,
  scoped_inside,
  encode_scoped_pdu-content engine_id [] 0xA2 (pos 7) (pos 0) (pos 0) bindings,
  omega (arith, scoped-small),
)

pub scoped-decoded :
    decode_scoped_pdu scoped ≡ ok (scoped_of engine_id [] 0xA2 (pos 7) (pos 0) (pos 0) bindings)
scoped-decoded =
    decode_scoped_pdu-encode_scoped_pdu engine_id [] 0xA2 (pos 7) (pos 0) (pos 0) bindings
      (omega arith) (omega arith) (omega arith) bindings-IsWireVarBind (omega (arith, scoped-small))

abbrev pub params : List ℕ → List ℕ → UsmParams
params auth_params priv_params = record {
  engine_id = engine_id;
  engine_boots = 3;
  engine_time = 4000;
  username = user;
  auth_params = auth_params;
  priv_params = priv_params;
}

pub scoped-length : length scoped < 110
scoped-length = omega (
  arith,
  ap (λ t. length t) (encode_scoped_pdu-content engine_id [] 0xA2 (pos 7) (pos 0) (pos 0) bindings),
  length-tlv-le tag_sequence scoped_inside,
  scoped-small,
)

-- A response without authentication and privacy.
abbrev pub plain : UsmParams
plain = params [] []

abbrev pub plain_reply : List ℕ
plain_reply = encode_v3_message (pos 1) (pos 65507) 0 (pos 3) (params_of plain) scoped false

abbrev pub plain_message : V3Message
plain_message = message_of (pos 1) (pos 65507) 0 (pos 3) (params_of plain) plain scoped

pub plain-IsWireUsm : IsWireUsm plain
unfolding encode_integer_bytes strip_zeros to_be_bytes length_octets
plain-IsWireUsm = record {
  boots = omega arith;
  time = omega arith;
  engine_small = omega arith;
  username_small = omega arith;
  auth_small = omega arith;
  priv_small = omega arith;
  fits = omega arith;
}

pub plain-length : length (params_of plain) < 100
unfolding encode_usm_params encode_integer_bytes strip_zeros to_be_bytes length_octets
    write_sequence write_length write_octet_string write_integer
plain-length = omega arith

pub plain-decoded : decode_v3_message (take 65535 plain_reply) ≡ ok plain_message
plain-decoded =
    let id = pos 1 in
    let size = pos 65507 in
    let model = pos 3 in
    let whole = length-encode_v3_message id size 0 model (params_of plain) scoped false in
    let content = length-message_content id size 0 model (params_of plain) scoped false in
    ap decode_v3_message
      (take-all 65535 plain_reply (omega (arith, whole, scoped-length, plain-length)))
    ∙ decode_v3_message-encode_v3_message id size 0 model plain scoped (omega arith) (omega arith)
        (omega arith) plain-IsWireUsm scoped-IsScoped
        (omega (arith, content, scoped-length, plain-length))

-- A response with both: a code of twelve fives and the salt 9.
abbrev pub sealed : UsmParams
sealed = params (replicate 12 5) (to_be_bytes 8 9)

abbrev pub sealed_reply : List ℕ
sealed_reply = encode_v3_message (pos 1) (pos 65507) 3 (pos 3) (params_of sealed) scoped true

abbrev pub sealed_message : V3Message
sealed_message = message_of (pos 1) (pos 65507) 3 (pos 3) (params_of sealed) sealed scoped

sealed-IsWireUsm : IsWireUsm sealed
unfolding encode_integer_bytes strip_zeros to_be_bytes length_octets
sealed-IsWireUsm = record {
  boots = omega arith;
  time = omega arith;
  engine_small = omega arith;
  username_small = omega arith;
  auth_small = omega arith;
  priv_small = omega arith;
  fits = omega arith;
}

sealed-length : length (params_of sealed) < 100
unfolding encode_usm_params encode_integer_bytes strip_zeros to_be_bytes length_octets
    write_sequence write_length write_octet_string write_integer
sealed-length = omega arith

pub sealed-decoded : decode_v3_message (take 65535 sealed_reply) ≡ ok sealed_message
sealed-decoded =
    let id = pos 1 in
    let size = pos 65507 in
    let model = pos 3 in
    let whole = length-encode_v3_message id size 3 model (params_of sealed) scoped true in
    let content = length-message_content id size 3 model (params_of sealed) scoped true in
    ap decode_v3_message
      (take-all 65535 sealed_reply (omega (arith, whole, scoped-length, sealed-length)))
    ∙ decode_v3_message-encode_v3_message id size 3 model sealed scoped (omega arith) (omega arith)
        (omega arith) sealed-IsWireUsm (omega (arith, scoped-length))
        (omega (arith, content, scoped-length, sealed-length))
