-- ===== src/V3/Messages/Usm.antt =====
-- src/v3.rs: `encode_usm_params` and `decode_usm_params`.
use rusnmp.Prelude.{ℕ, ◌^◌, ◌<◌, ◌≡◌, arith, List, ◌++◌, length, append_assoc}
use rusnmp.Prelude.Int.{pos, IsU32, as_u32-pos}
use rusnmp.Error.{ok}
use rusnmp.Codec.Tags.{tag_octet_string, tag_sequence}
use rusnmp.Codec.Encoder.Appends.{tlv, length-tlv-le, appends}
use rusnmp.Codec.Decoder.Reads.{
  Reads, Reads-pure, Reads-lift, Reads-bind, Reads-bind_last, Reads-eval,
}
use rusnmp.Codec.Decoder.Primitives.{Reads-read_sequence}
use rusnmp.Codec.RoundTrip.{integer_tlv, Reads-read_integer, Reads-read_octet_string}
use rusnmp.V3.Messages.{UsmParams, encode_usm_params, read_usm_params, decode_usm_params}

-- The contents of the sequence.
abbrev pub usm_content : UsmParams → List ℕ
usm_content u =
    tlv tag_octet_string u.engine_id
    ++ (integer_tlv (pos u.engine_boots)
        ++ (integer_tlv (pos u.engine_time)
            ++ (tlv tag_octet_string u.username
                ++ (tlv tag_octet_string u.auth_params ++ tlv tag_octet_string u.priv_params))))

pub encode_usm_params-content :
    (u : UsmParams)
    → encode_usm_params u.engine_id u.engine_boots u.engine_time u.username u.auth_params
        u.priv_params
      ≡ tlv tag_sequence (usm_content u)
unfolding encode_usm_params
encode_usm_params-content u = simp (appends, append_assoc)

-- The ranges of Rust's types, and parts that three length octets can measure.
pub record IsWireUsm (u : UsmParams) : Type 0 where
  pub boots : IsU32 u.engine_boots
  pub time : IsU32 u.engine_time
  pub engine_small : length u.engine_id < 2 ^ 24
  pub username_small : length u.username < 2 ^ 24
  pub auth_small : length u.auth_params < 2 ^ 24
  pub priv_small : length u.priv_params < 2 ^ 24
  pub fits : length (usm_content u) < 2 ^ 24

Reads-read_usm_params : (u : UsmParams) → IsWireUsm u → Reads read_usm_params u (usm_content u)
unfolding read_usm_params
Reads-read_usm_params u h =
    Reads-bind _ (tlv tag_octet_string u.engine_id) _
      (Reads-read_octet_string u.engine_id h.engine_small)
      (Reads-bind _ (integer_tlv (pos u.engine_boots)) _
        (Reads-read_integer (pos u.engine_boots) (ground (arith, h.boots)))
        (Reads-bind _ (integer_tlv (pos u.engine_time)) _
          (Reads-read_integer (pos u.engine_time) (ground (arith, h.time)))
          (Reads-bind _ (tlv tag_octet_string u.username) _
            (Reads-read_octet_string u.username h.username_small)
            (Reads-bind _ (tlv tag_octet_string u.auth_params) _
              (Reads-read_octet_string u.auth_params h.auth_small)
              (Reads-bind_last _ (tlv tag_octet_string u.priv_params)
                (Reads-read_octet_string u.priv_params h.priv_small)
                (rw (as_u32-pos u.engine_boots h.boots, as_u32-pos u.engine_time h.time)
                  (Reads-pure u)))))))

-- `decode_usm_params` recovers the six parameters that `encode_usm_params` wrote, for parts and
-- contents below 2 ^ 24 bytes and numbers of 32 bits.
pub decode_usm_params-encode_usm_params :
    (u : UsmParams)
    → IsWireUsm u
    → decode_usm_params (
        encode_usm_params u.engine_id u.engine_boots u.engine_time u.username u.auth_params
          u.priv_params)
      ≡ ok u
unfolding decode_usm_params
decode_usm_params-encode_usm_params u h = rw encode_usm_params-content (
    Reads-eval (tlv tag_sequence (usm_content u))
      (omega (arith, h.fits, length-tlv-le tag_sequence (usm_content u)))
      (Reads-bind_last _ (tlv tag_sequence (usm_content u))
        (Reads-read_sequence (usm_content u) h.fits)
        (Reads-lift
          (Reads-eval (usm_content u) (omega (arith, h.fits)) (Reads-read_usm_params u h)))))
