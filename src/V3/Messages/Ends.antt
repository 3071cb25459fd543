-- ===== src/V3/Messages/Ends.antt =====
-- src/v3.rs: the decoders of v3 on arbitrary bytes.
use rusnmp.Prelude.{◌-◌, drop, length-take, length-drop}
use rusnmp.Prelude.Int.{IsU32}
use rusnmp.Prelude.{◌≡◌, ℕ, ◌^◌, ◌<◌, ◌≢◌, refl, arith, List, [], ◌∷◌, length, Bool, true, false}
use rusnmp.Error.{ok, out_of_fuel}
use rusnmp.Run.{eval, gets, pure, ◌>>=◌, ◌>>◌}
use rusnmp.Codec.Decoder.{
  BerDecoder, new, slice, peek_tag, read_tag, read_length, read_raw, read_tlv_with_header,
  read_sequence, read_integer, read_octet_string,
}
use rusnmp.Codec.Decoder.Guarded.{
  Guarded, Any, Guarded-pure, Guarded-weaken, Guarded-fail, Guarded-lift, Guarded-if, Guarded-bind,
  Guarded-eval, Guarded-eval_value, Guarded-lift_value, IsValid,
}
use rusnmp.Codec.Decoder.Bounds.{
  Small, Guarded-read_tag, Guarded-read_length, Guarded-read_raw, Guarded-read_sequence,
  Guarded-read_integer, Guarded-read_octet_string,
}
use rusnmp.Codec.Response.{read_varbinds}
use rusnmp.Codec.Response.Ends.{read_varbinds-ends, new-IsValid}
use rusnmp.V3.Messages.{
  UsmParams, V3Message, read_usm_params, decode_usm_params, read_header, read_scoped_raw,
  read_v3_body, is_three, read_v3_message, decode_v3_message, read_scoped_fields, read_scoped_pdu,
  decode_scoped_pdu, encrypted_flag,
}

Guarded-gets : {A : Type 0} (f : BerDecoder → A) → Guarded 0 Any (gets f)
Guarded-gets f = record {
  at = λ d v. record {
    same = refl;
    inside = v.inside;
    forward = omega arith;
    progress = λ a e. omega arith;
    value = λ a e. tt;
    ends = λ e. cc;
  };
}

slice-Small :
    (from to : ℕ) (d : BerDecoder) (a : List ℕ)
    → IsValid d
    → eval (slice from to) d ≡ ok a
    → Small a
slice-Small from to d a v e =
    ground (arith, v.small, length-take (to - from) (drop from d.bytes), length-drop from d.bytes)

Guarded-slice : (from to : ℕ) → Guarded 0 Small (slice from to)
Guarded-slice from to = record {
  at = λ d v. record {
    same = ground arith;
    inside = ground (arith, v.inside);
    forward = ground arith;
    progress = λ a e. ground arith;
    value = λ a e. slice-Small from to d a v e;
    ends = ground arith;
  };
}

Guarded-read_tlv_with_header : Guarded 0 (λ (tag, full). Small full) read_tlv_with_header
unfolding read_tlv_with_header
Guarded-read_tlv_with_header =
    Guarded-bind (gets (λ d. d.pos))
      (λ start. do
        tag ← read_tag
        len ← read_length
        read_raw len
        end ← gets (λ d. d.pos)
        full ← slice start end
        pure (tag, full))
      (Guarded-gets _)
      λ start _. Guarded-bind read_tag _ (Guarded-weaken Guarded-read_tag) λ tag _.
        Guarded-bind read_length _ (Guarded-weaken Guarded-read_length) λ len _.
          Guarded-bind (read_raw len) _ (Guarded-read_raw len) λ content _.
            Guarded-bind (gets (λ d. d.pos)) (λ end. do full ← slice start end; pure (tag, full))
              (Guarded-gets _)
              λ end _.
                Guarded-bind (slice start end) (λ full. pure (tag, full)) (Guarded-slice start end)
                  λ full small. Guarded-pure small

Guarded-peek_tag : Guarded 0 Any peek_tag
unfolding peek_tag
Guarded-peek_tag = record {
  at = λ d v. record {
    same = ground arith;
    inside = ground (arith, v.inside);
    forward = ground arith;
    progress = λ a e. ground arith;
    value = λ a e. tt;
    ends = ground arith;
  };
}

-- The u32 fields of the security parameters.
abbrev IsStamped : UsmParams → Type 0
IsStamped u = IsU32 u.engine_boots × IsU32 u.engine_time

Guarded-read_usm_params : Guarded 1 IsStamped read_usm_params
unfolding read_usm_params
Guarded-read_usm_params = Guarded-bind read_octet_string _ Guarded-read_octet_string λ engine_id _.
    Guarded-bind read_integer _ (Guarded-weaken Guarded-read_integer) λ boots _.
      Guarded-bind read_integer _ (Guarded-weaken Guarded-read_integer) λ time _.
        Guarded-bind read_octet_string _ (Guarded-weaken Guarded-read_octet_string) λ username _.
          Guarded-bind read_octet_string _ (Guarded-weaken Guarded-read_octet_string) λ auth _.
            Guarded-bind read_octet_string _ (Guarded-weaken Guarded-read_octet_string)
              λ priv _. Guarded-pure (omega arith, omega arith)

decode_usm_params-ends : (bytes : List ℕ) → Small bytes → decode_usm_params bytes ≢ out_of_fuel
unfolding decode_usm_params
decode_usm_params-ends [] h = λ e. cc
decode_usm_params-ends (b ∷ bytes) h =
    Guarded-eval (new (b ∷ bytes))
      (Guarded-bind read_sequence _ Guarded-read_sequence λ seq v.
        Guarded-lift (eval read_usm_params seq) (Guarded-eval seq Guarded-read_usm_params v))
      (new-IsValid (b ∷ bytes) h)

decode_usm_params-IsStamped :
    (bytes : List ℕ) → Small bytes → (u : UsmParams) → decode_usm_params bytes ≡ ok u → IsStamped u
unfolding decode_usm_params
decode_usm_params-IsStamped [] h u e = ground arith
decode_usm_params-IsStamped (b ∷ bytes) h u e =
    Guarded-eval_value (new (b ∷ bytes))
      (Guarded-bind read_sequence _ Guarded-read_sequence λ seq v.
        Guarded-lift_value (eval read_usm_params seq) (Guarded-eval seq Guarded-read_usm_params v)
          (Guarded-eval_value seq Guarded-read_usm_params v))
      (new-IsValid (b ∷ bytes) h) u e

Guarded-read_header : Guarded 1 Any read_header
unfolding read_header
Guarded-read_header = Guarded-bind read_integer _ Guarded-read_integer λ msg_id _.
    Guarded-bind read_integer _ (Guarded-weaken Guarded-read_integer) λ max_size _.
      Guarded-bind read_octet_string _ (Guarded-weaken Guarded-read_octet_string) λ flags _.
        Guarded-bind read_integer _ (Guarded-weaken Guarded-read_integer) λ model _. Guarded-pure tt

Guarded-read_scoped_raw : (encrypted : Bool) → Guarded 0 Small (read_scoped_raw encrypted)
unfolding read_scoped_raw
Guarded-read_scoped_raw true = Guarded-weaken Guarded-read_octet_string
Guarded-read_scoped_raw false = Guarded-bind peek_tag _ Guarded-peek_tag λ tag _.
    Guarded-bind read_tlv_with_header _ Guarded-read_tlv_with_header
      λ (tag, raw) small. Guarded-pure small

-- The ranges of a message that was read.
pub record IsRead (msg : V3Message) : Type 0 where
  pub boots : IsU32 msg.engine_boots
  pub time : IsU32 msg.engine_time
  pub raw : Small msg.scoped_pdu_raw

Guarded-read_v3_body : Guarded 1 IsRead read_v3_body
unfolding read_v3_body
Guarded-read_v3_body = Guarded-bind read_sequence _ Guarded-read_sequence λ header v.
    Guarded-bind _ _
      (Guarded-lift (eval read_header header) (Guarded-eval header Guarded-read_header v))
      λ (msg_id, max_size, flags, model) _.
        Guarded-bind read_octet_string _ (Guarded-weaken Guarded-read_octet_string) λ params small.
          Guarded-bind _ _
            (Guarded-lift_value (decode_usm_params params) (decode_usm_params-ends params small)
              (decode_usm_params-IsStamped params small))
            λ usm (boots, time).
              Guarded-bind (read_scoped_raw (encrypted_flag flags)) _
                (Guarded-read_scoped_raw (encrypted_flag flags))
                λ raw inside. Guarded-pure (record { boots = boots; time = time; raw = inside })

Guarded-read_v3_message : Guarded 1 IsRead read_v3_message
unfolding read_v3_message
Guarded-read_v3_message = Guarded-bind read_integer _ Guarded-read_integer λ version _.
    Guarded-if (is_three version) (Guarded-weaken Guarded-read_v3_body) (Guarded-fail _)

-- Whatever the datagram, of fewer than 2 ^ 63 bytes, `decode_v3_message` ends.
pub decode_v3_message-ends :
    (bytes : List ℕ) → length bytes < 2 ^ 63 → decode_v3_message bytes ≢ out_of_fuel
unfolding decode_v3_message
decode_v3_message-ends bytes h =
    Guarded-eval (new bytes)
      (Guarded-bind read_sequence _ Guarded-read_sequence λ msg v.
        Guarded-lift (eval read_v3_message msg) (Guarded-eval msg Guarded-read_v3_message v))
      (new-IsValid bytes h)

pub decode_v3_message-IsRead :
    (bytes : List ℕ) (msg : V3Message)
    → length bytes < 2 ^ 63
    → decode_v3_message bytes ≡ ok msg
    → IsRead msg
unfolding decode_v3_message
decode_v3_message-IsRead bytes msg h =
    Guarded-eval_value (new bytes)
      (Guarded-bind read_sequence _ Guarded-read_sequence λ inner v.
        Guarded-lift_value (eval read_v3_message inner)
          (Guarded-eval inner Guarded-read_v3_message v)
          (Guarded-eval_value inner Guarded-read_v3_message v))
      (new-IsValid bytes h) msg

Guarded-read_scoped_fields :
    (engine_id context_name : List ℕ) (pdu_type : ℕ)
    → Guarded 1 Any (read_scoped_fields engine_id context_name pdu_type)
unfolding read_scoped_fields
Guarded-read_scoped_fields engine_id context_name pdu_type =
    Guarded-bind read_integer _ Guarded-read_integer λ request_id _.
      Guarded-bind read_integer _ (Guarded-weaken Guarded-read_integer) λ error_status _.
        Guarded-bind read_integer _ (Guarded-weaken Guarded-read_integer) λ error_index _.
          Guarded-bind read_sequence _ (Guarded-weaken Guarded-read_sequence) λ vbl v.
            Guarded-bind _ _ (Guarded-lift (eval read_varbinds vbl) (read_varbinds-ends vbl v))
              λ vbs _. Guarded-pure tt

Guarded-read_scoped_pdu : Guarded 1 Any read_scoped_pdu
unfolding read_scoped_pdu
Guarded-read_scoped_pdu = Guarded-bind read_octet_string _ Guarded-read_octet_string λ engine_id _.
    Guarded-bind read_octet_string _ (Guarded-weaken Guarded-read_octet_string) λ name _.
      Guarded-bind read_tag _ (Guarded-weaken Guarded-read_tag) λ pdu_type _.
        Guarded-bind read_length _ (Guarded-weaken Guarded-read_length) λ pdu_len _.
          Guarded-bind (read_raw pdu_len) _ (Guarded-read_raw pdu_len) λ pdu_data small.
            Guarded-lift (eval (read_scoped_fields engine_id name pdu_type) (new pdu_data)) (
              Guarded-eval (new pdu_data) (Guarded-read_scoped_fields engine_id name pdu_type)
                (new-IsValid pdu_data small))

-- Whatever the bytes, decrypted garbage included, if they are fewer than 2 ^ 63,
-- `decode_scoped_pdu` ends.
pub decode_scoped_pdu-ends :
    (bytes : List ℕ) → length bytes < 2 ^ 63 → decode_scoped_pdu bytes ≢ out_of_fuel
unfolding decode_scoped_pdu
decode_scoped_pdu-ends bytes h =
    Guarded-eval (new bytes)
      (Guarded-bind read_sequence _ Guarded-read_sequence λ seq v.
        Guarded-lift (eval read_scoped_pdu seq) (Guarded-eval seq Guarded-read_scoped_pdu v))
      (new-IsValid bytes h)
