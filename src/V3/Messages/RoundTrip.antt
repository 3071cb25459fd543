-- ===== src/V3/Messages/RoundTrip.antt =====
-- src/v3.rs: whole messages of v3, with their header, security parameters and scoped PDU.
use rusnmp.Prelude.{
  ℕ, ◌^◌, ◌<◌, ◌≡◌, arith, List, [], ◌++◌, length, append_assoc, length-le-append_left,
  length-le-append_right, Bool, true, false,
}
use rusnmp.Prelude.Int.{ℤ, pos, IsI32}
use rusnmp.Error.{ok}
use rusnmp.Codec.Tags.{tag_octet_string, tag_sequence}
use rusnmp.Codec.Encoder.Appends.{tlv, length-le-tlv, length-tlv-le, appends}
use rusnmp.Codec.Decoder.Reads.{
  Reads, Reads-pure, Reads-lift, Reads-bind, Reads-bind_last, Reads-eval,
}
use rusnmp.Codec.Decoder.Primitives.{Reads-read_sequence}
use rusnmp.Codec.RoundTrip.{integer_tlv, Reads-read_integer, Reads-read_octet_string}
use rusnmp.V3.Messages.{
  UsmParams, V3Message, encode_v3_message, encode_usm_params, encrypted_flag, read_v3_message,
  decode_v3_message,
}
use rusnmp.V3.Messages.Usm.{IsWireUsm, decode_usm_params-encode_usm_params}
use rusnmp.V3.Messages.Message.{
  scoped_bytes, IsScoped, Reads-read_scoped_raw, header_content, Reads-read_header,
}

-- The contents of the message, the version included.
abbrev pub message_content : ℤ → ℤ → ℕ → ℤ → List ℕ → List ℕ → Bool → List ℕ
message_content msg_id max_size flags security_model params raw encrypted =
    integer_tlv (pos 3)
    ++ (tlv tag_sequence (header_content msg_id max_size flags security_model)
        ++ (tlv tag_octet_string params ++ scoped_bytes encrypted raw))

pub encode_v3_message-content :
    (msg_id max_size : ℤ) (flags : ℕ) (security_model : ℤ) (params raw : List ℕ) (encrypted : Bool)
    → encode_v3_message msg_id max_size flags security_model params raw encrypted
      ≡ tlv tag_sequence (message_content msg_id max_size flags security_model params raw encrypted)
unfolding encode_v3_message
encode_v3_message-content msg_id max_size flags security_model params raw true =
    simp (appends, append_assoc)
encode_v3_message-content msg_id max_size flags security_model params raw false =
    simp (appends, append_assoc)

abbrev pub message_of : ℤ → ℤ → ℕ → ℤ → List ℕ → UsmParams → List ℕ → V3Message
message_of msg_id max_size flags security_model params u raw = record {
  msg_id = msg_id;
  max_size = max_size;
  flags = flags;
  security_model = security_model;
  security_params_raw = params;
  engine_id = u.engine_id;
  engine_boots = u.engine_boots;
  engine_time = u.engine_time;
  username = u.username;
  auth_params = u.auth_params;
  priv_params = u.priv_params;
  scoped_pdu_raw = raw;
  is_encrypted = encrypted_flag flags;
}

abbrev pub params_of : UsmParams → List ℕ
params_of u =
    encode_usm_params u.engine_id u.engine_boots u.engine_time u.username u.auth_params
      u.priv_params

module _ (msg_id max_size : ℤ) (flags : ℕ) (security_model : ℤ) (u : UsmParams) (raw : List ℕ) where
  abbrev header : List ℕ
  header = header_content msg_id max_size flags security_model

  abbrev whole : List ℕ
  whole =
      message_content msg_id max_size flags security_model (params_of u) raw (encrypted_flag flags)

  abbrev result : V3Message
  result = message_of msg_id max_size flags security_model (params_of u) u raw

  abbrev tail : List ℕ
  tail = tlv tag_octet_string (params_of u) ++ scoped_bytes (encrypted_flag flags) raw

  parts_small : length whole < 2 ^ 24 → (length header < 2 ^ 24) × (length (params_of u) < 2 ^ 24)
  parts_small fits =
      let after_version =
        length-le-append_right (integer_tlv (pos 3)) (tlv tag_sequence header ++ tail) in
      (
        omega (
          arith,
          after_version,
          length-le-append_left (tlv tag_sequence header) tail,
          length-le-tlv tag_sequence header,
        ),
        omega (
          arith,
          after_version,
          length-le-append_right (tlv tag_sequence header) tail,
          length-le-append_left (tlv tag_octet_string (params_of u))
              (scoped_bytes (encrypted_flag flags) raw),
          length-le-tlv tag_octet_string (params_of u),
        ),
      )

  Reads-read_v3_message :
      IsI32 msg_id
      → IsI32 max_size
      → IsI32 security_model
      → IsWireUsm u
      → IsScoped (encrypted_flag flags) raw
      → length whole < 2 ^ 24
      → Reads read_v3_message result whole
  unfolding read_v3_message
  Reads-read_v3_message hi hs hm hu hr fits =
      let (header_fits, params_fit) = parts_small fits in
      let read_head = Reads-read_header msg_id max_size flags security_model hi hs hm in
      Reads-bind _ (integer_tlv (pos 3)) _ (Reads-read_integer (pos 3) (omega arith)) (
        Reads-bind _ (tlv tag_sequence header) _ (Reads-read_sequence header header_fits) (
          Reads-bind _ [] _ (Reads-lift (Reads-eval header (omega arith) read_head)) (
            Reads-bind _ (tlv tag_octet_string (params_of u)) _
              (Reads-read_octet_string (params_of u) params_fit)
              (Reads-bind _ [] _ (Reads-lift (decode_usm_params-encode_usm_params u hu)) (
                Reads-bind_last _ (scoped_bytes (encrypted_flag flags) raw)
                  (Reads-read_scoped_raw (encrypted_flag flags) raw hr) (Reads-pure _))))))

  -- `decode_v3_message` recovers the header, the security parameters and the bytes of the
  -- scoped PDU of a message that `encode_v3_message` wrote, if the message is written as an
  -- encrypted one exactly when its flags say so, a plain scoped PDU is one element, the
  -- integers are i32, the security parameters in range, and all contents below 2 ^ 24 bytes.
  pub decode_v3_message-encode_v3_message :
      IsI32 msg_id
      → IsI32 max_size
      → IsI32 security_model
      → IsWireUsm u
      → IsScoped (encrypted_flag flags) raw
      → length whole < 2 ^ 24
      → decode_v3_message (
          encode_v3_message msg_id max_size flags security_model
            (params_of u)
            raw
            (encrypted_flag flags))
        ≡ ok result
  unfolding decode_v3_message
  decode_v3_message-encode_v3_message hi hs hm hu hr fits = rw encode_v3_message-content (
      Reads-eval (tlv tag_sequence whole) (omega (arith, length-tlv-le tag_sequence whole)) (
        Reads-bind_last _ (tlv tag_sequence whole) (Reads-read_sequence whole fits) (
          Reads-lift (Reads-eval whole (omega arith) (Reads-read_v3_message hi hs hm hu hr fits)))))
