-- ===== src/Codec/Response.antt =====
-- src/codec.rs, lines 499 to 556: `decode_response`. The loop over the variable bindings is the one
-- that src/v3.rs and src/trap.rs repeat.
pub mod Ends
use rusnmp.Prelude.{ℕ, zero, suc, List, [], ◌∷◌, ◌++◌, length, ltb, ◌==◌, if◌then◌else◌}
use rusnmp.Prelude.Int.{ℤ, pos, negsuc, as_i32, as_u32}
use rusnmp.Error.{Outcome, ok, err, out_of_fuel, decode, unknown_version, expected_response}
use rusnmp.Run.{pure, fail, lift, gets, eval, ◌>>=◌}
use rusnmp.Types.{VarBind, Version, v1, v2c, v3}
use rusnmp.Codec.Tags.{pdu_response}
use rusnmp.Codec.Decoder.{
  Reader, new, remaining, read_tag, read_length, read_raw, read_sequence, read_integer,
  read_octet_string, read_oid, read_value,
}

unfoldable pub read_varbind_fields : Reader VarBind
read_varbind_fields = do
  oid ← read_oid
  value ← read_value
  pure (record { oid = oid; value = value })

unfoldable pub read_varbind : Reader VarBind
unfolding read_varbind_fields
read_varbind = do vb_dec ← read_sequence; lift (eval read_varbind_fields vb_dec)

-- `while vbl.remaining() > 0 { … varbinds.push(…); }`
unfoldable pub varbinds_loop : ℕ → List VarBind → Reader (List VarBind)
varbinds_loop zero varbinds = do
  more ← gets (λ d. ltb 0 (remaining d))
  if more then lift out_of_fuel else pure varbinds
varbinds_loop (suc fuel) varbinds = do
  more ← gets (λ d. ltb 0 (remaining d))
  if more then (do vb ← read_varbind; varbinds_loop fuel (varbinds ++ vb ∷ [])) else pure varbinds

-- A round takes two bytes at least, so there are fewer rounds than bytes.
unfoldable pub read_varbinds : Reader (List VarBind)
unfolding varbinds_loop
read_varbinds = do fuel ← gets (λ d. length d.bytes); varbinds_loop fuel []

unfoldable pub version_of : ℤ → Outcome Version
version_of (pos n) =
    if n == 0
    then ok v1
    else if n == 1
    then ok v2c
    else if n == 3
    then ok v3
    else err (decode (unknown_version (pos n)))
version_of (negsuc n) = err (decode (unknown_version (negsuc n)))

pub record SnmpResponse : Type 0 where
  pub version : Version
  pub community : List ℕ
  pub request_id : ℤ
  pub error_status : ℕ
  pub error_index : ℕ
  pub varbinds : List VarBind

unfoldable pub read_response_pdu : Version → List ℕ → Reader SnmpResponse
read_response_pdu version community = do
  request_id ← read_integer
  error_status ← read_integer
  error_index ← read_integer
  vbl ← read_sequence
  varbinds ← lift (eval read_varbinds vbl)
  pure (record {
    version = version;
    community = community;
    request_id = as_i32 request_id;
    error_status = as_u32 error_status;
    error_index = as_u32 error_index;
    varbinds = varbinds;
  })

unfoldable pub read_response : Reader SnmpResponse
unfolding version_of read_response_pdu
read_response = do
  ver ← read_integer
  version ← lift (version_of ver)
  community ← read_octet_string
  pdu_tag ← read_tag
  if pdu_tag == pdu_response
      then (do
        pdu_len ← read_length
        pdu_data ← read_raw pdu_len
        lift (eval (read_response_pdu version community) (new pdu_data)))
      else fail (decode (expected_response pdu_tag))

unfoldable pub decode_response : List ℕ → Outcome SnmpResponse
unfolding read_response
decode_response bytes = eval (do msg ← read_sequence; lift (eval read_response msg)) (new bytes)
