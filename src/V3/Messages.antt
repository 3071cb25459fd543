-- ===== src/V3/Messages.antt =====
-- src/v3.rs, lines 375 to 604: the messages of v3, written and read.
pub mod ScopedPdu
pub mod Usm
pub mod Message
pub mod RoundTrip
pub mod Ends
pub mod Lengths
use rusnmp.Prelude.{ℕ, bit_and, List, [], ◌∷◌, Bool, true, false, not, ◌==◌, if◌then◌else◌, ◌▸◌}
use rusnmp.Prelude.Int.{ℤ, pos, negsuc, as_i32, as_u32}
use rusnmp.Error.{Outcome, ok, err, decode, expected_v3}
use rusnmp.Run.{pure, fail, lift, eval, ◌>>=◌, ◌>>◌}
use rusnmp.Types.{VarBind}
use rusnmp.Codec.Encoder.{
  BerEncoder, into_bytes, buf_extend, write_sequence, write_tagged, write_integer,
  write_octet_string,
}
use rusnmp.Codec.Encoder
use rusnmp.Codec.Decoder.{
  Reader, new, peek_tag, read_tag, read_length, read_raw, read_tlv_with_header, read_sequence,
  read_integer, read_octet_string,
}
use rusnmp.Codec.Response.{read_varbinds}

unfoldable pub header_bytes : ℤ → ℤ → ℕ → ℤ → List ℕ
header_bytes msg_id max_size flags security_model = into_bytes (
    Encoder.new
    ▸ write_integer msg_id
    ▸ write_integer max_size
    ▸ write_octet_string (flags ∷ [])
    ▸ write_integer security_model)

-- An encrypted PDU is an octet string, a plain one is a SEQUENCE already.
unfoldable pub encode_v3_message : ℤ → ℤ → ℕ → ℤ → List ℕ → List ℕ → Bool → List ℕ
unfolding header_bytes
encode_v3_message msg_id max_size flags security_model security_params scoped_pdu encrypted =
    let msg : BerEncoder =
      Encoder.new
      ▸ write_integer (pos 3)
      ▸ write_sequence (header_bytes msg_id max_size flags security_model)
      ▸ write_octet_string security_params in
    let msg_bytes =
      into_bytes
        (if encrypted then msg ▸ write_octet_string scoped_pdu else msg ▸ buf_extend scoped_pdu) in
    into_bytes (Encoder.new ▸ write_sequence msg_bytes)

unfoldable pub encode_usm_params : List ℕ → ℕ → ℕ → List ℕ → List ℕ → List ℕ → List ℕ
encode_usm_params engine_id engine_boots engine_time username auth_params priv_params =
    let inner = into_bytes (
      Encoder.new
      ▸ write_octet_string engine_id
      ▸ write_integer (pos engine_boots)
      ▸ write_integer (pos engine_time)
      ▸ write_octet_string username
      ▸ write_octet_string auth_params
      ▸ write_octet_string priv_params) in
    into_bytes (Encoder.new ▸ write_sequence inner)

unfoldable pub encode_scoped_pdu : List ℕ → List ℕ → ℕ → ℤ → ℤ → ℤ → List ℕ → List ℕ
encode_scoped_pdu engine_id context_name pdu_type request_id error_status error_index varbind_data =
    let pdu_bytes = into_bytes (
      Encoder.new
      ▸ write_integer request_id
      ▸ write_integer error_status
      ▸ write_integer error_index
      ▸ write_sequence varbind_data) in
    let scoped_bytes = into_bytes (
      Encoder.new
      ▸ write_octet_string engine_id
      ▸ write_octet_string context_name
      ▸ write_tagged pdu_type pdu_bytes) in
    into_bytes (Encoder.new ▸ write_sequence scoped_bytes)

-- The six fields that `decode_usm_params` returns.
pub record UsmParams : Type 0 where
  pub engine_id : List ℕ
  pub engine_boots : ℕ
  pub engine_time : ℕ
  pub username : List ℕ
  pub auth_params : List ℕ
  pub priv_params : List ℕ

pub record V3Message : Type 0 where
  pub msg_id : ℤ
  pub max_size : ℤ
  pub flags : ℕ
  pub security_model : ℤ
  pub security_params_raw : List ℕ
  pub engine_id : List ℕ
  pub engine_boots : ℕ
  pub engine_time : ℕ
  pub username : List ℕ
  pub auth_params : List ℕ
  pub priv_params : List ℕ
  pub scoped_pdu_raw : List ℕ
  pub is_encrypted : Bool

pub record ScopedPduData : Type 0 where
  pub context_engine_id : List ℕ
  pub context_name : List ℕ
  pub pdu_type : ℕ
  pub request_id : ℤ
  pub error_status : ℕ
  pub error_index : ℕ
  pub varbinds : List VarBind

unfoldable pub read_usm_params : Reader UsmParams
read_usm_params = do
  engine_id ← read_octet_string
  engine_boots ← read_integer
  engine_time ← read_integer
  username ← read_octet_string
  auth_params ← read_octet_string
  priv_params ← read_octet_string
  pure (record {
    engine_id = engine_id;
    engine_boots = as_u32 engine_boots;
    engine_time = as_u32 engine_time;
    username = username;
    auth_params = auth_params;
    priv_params = priv_params;
  })

unfoldable pub decode_usm_params : List ℕ → Outcome UsmParams
unfolding read_usm_params
decode_usm_params [] = ok (record {
  engine_id = [];
  engine_boots = 0;
  engine_time = 0;
  username = [];
  auth_params = [];
  priv_params = [];
})
decode_usm_params (b ∷ bytes) =
    eval (do seq ← read_sequence; lift (eval read_usm_params seq)) (new (b ∷ bytes))

-- Message identifier, maximal size, flags and security model.
unfoldable pub read_header : Reader (ℤ × ℤ × ℕ × ℤ)
read_header = do
  msg_id ← read_integer
  max_size ← read_integer
  flags_bytes ← read_octet_string
  security_model ← read_integer
  pure (as_i32 msg_id, as_i32 max_size, first_or_zero flags_bytes, as_i32 security_model)
  where
    first_or_zero : List ℕ → ℕ
    first_or_zero [] = 0
    first_or_zero (b ∷ _) = b

abbrev pub encrypted_flag : ℕ → Bool
encrypted_flag flags = not (bit_and flags 0x02 == 0)

unfoldable pub read_scoped_raw : Bool → Reader (List ℕ)
read_scoped_raw true = read_octet_string
read_scoped_raw false = do peek_tag; (tag, raw) ← read_tlv_with_header; pure raw

unfoldable pub read_v3_body : Reader V3Message
unfolding read_header read_scoped_raw
read_v3_body = do
  header ← read_sequence
  (msg_id, max_size, flags, security_model) ← lift (eval read_header header)
  security_params_raw ← read_octet_string
  usm ← lift (decode_usm_params security_params_raw)
  scoped_pdu_raw ← read_scoped_raw (encrypted_flag flags)
  pure (record {
    msg_id = msg_id;
    max_size = max_size;
    flags = flags;
    security_model = security_model;
    security_params_raw = security_params_raw;
    engine_id = usm.engine_id;
    engine_boots = usm.engine_boots;
    engine_time = usm.engine_time;
    username = usm.username;
    auth_params = usm.auth_params;
    priv_params = usm.priv_params;
    scoped_pdu_raw = scoped_pdu_raw;
    is_encrypted = encrypted_flag flags;
  })

abbrev pub is_three : ℤ → Bool
is_three (pos n) = n == 3
is_three (negsuc n) = false

unfoldable pub read_v3_message : Reader V3Message
unfolding read_v3_body
read_v3_message = do
  version ← read_integer
  if is_three version then read_v3_body else fail (decode (expected_v3 version))

unfoldable pub decode_v3_message : List ℕ → Outcome V3Message
unfolding read_v3_message
decode_v3_message bytes = eval (do msg ← read_sequence; lift (eval read_v3_message msg)) (new bytes)

unfoldable pub read_scoped_fields : List ℕ → List ℕ → ℕ → Reader ScopedPduData
read_scoped_fields context_engine_id context_name pdu_type = do
  request_id ← read_integer
  error_status ← read_integer
  error_index ← read_integer
  vbl ← read_sequence
  varbinds ← lift (eval read_varbinds vbl)
  pure (record {
    context_engine_id = context_engine_id;
    context_name = context_name;
    pdu_type = pdu_type;
    request_id = as_i32 request_id;
    error_status = as_u32 error_status;
    error_index = as_u32 error_index;
    varbinds = varbinds;
  })

unfoldable pub read_scoped_pdu : Reader ScopedPduData
unfolding read_scoped_fields
read_scoped_pdu = do
  context_engine_id ← read_octet_string
  context_name ← read_octet_string
  pdu_type ← read_tag
  pdu_len ← read_length
  pdu_data ← read_raw pdu_len
  lift (eval (read_scoped_fields context_engine_id context_name pdu_type) (new pdu_data))

unfoldable pub decode_scoped_pdu : List ℕ → Outcome ScopedPduData
unfolding read_scoped_pdu
decode_scoped_pdu bytes = eval (do seq ← read_sequence; lift (eval read_scoped_pdu seq)) (new bytes)
