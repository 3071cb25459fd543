-- ===== src/Trap/Ends.antt =====
-- src/trap.rs: `decode_trap` on arbitrary bytes.
use rusnmp.Prelude.{ℕ, ◌^◌, ◌<◌, ◌≢◌, List, length, ◌==◌}
use rusnmp.Error.{out_of_fuel}
use rusnmp.Run.{eval}
use rusnmp.Types.{Version, v1, v2c, v3}
use rusnmp.Codec.Decoder.{
  new, read_tag, read_length, read_raw, read_tlv, read_sequence, read_integer, read_octet_string,
  read_oid,
}
use rusnmp.Codec.Decoder.Guarded.{
  Guarded, Any, Guarded-pure, Guarded-weaken, Guarded-fail, Guarded-lift, Guarded-if, Guarded-bind,
  Guarded-eval,
}
use rusnmp.Codec.Decoder.Bounds.{
  Guarded-read_tag, Guarded-read_length, Guarded-read_raw, Guarded-read_tlv, Guarded-read_sequence,
  Guarded-read_integer, Guarded-read_octet_string, Guarded-read_oid,
}
use rusnmp.Codec.Response.{version_of, read_varbinds}
use rusnmp.Codec.Response.Ends.{read_varbinds-ends, version_of-ends, new-IsValid}
use rusnmp.Trap.{
  pdu_trap_v1, pdu_trap_v2, read_v1_pdu, decode_v1_trap, read_notification_pdu, decode_v2c_trap,
  read_v3_header, read_v3_scoped, decode_v3_trap, decode_by_version, read_trap, decode_trap,
}

Guarded-read_notification_pdu : Guarded 1 Any read_notification_pdu
unfolding read_notification_pdu
Guarded-read_notification_pdu = Guarded-bind read_integer _ Guarded-read_integer λ request_id _.
    Guarded-bind read_integer _ (Guarded-weaken Guarded-read_integer) λ error_status _.
      Guarded-bind read_integer _ (Guarded-weaken Guarded-read_integer) λ error_index _.
        Guarded-bind read_sequence _ (Guarded-weaken Guarded-read_sequence)
          λ vbl v. Guarded-lift (eval read_varbinds vbl) (read_varbinds-ends vbl v)

Guarded-read_v3_header : Guarded 1 Any read_v3_header
unfolding read_v3_header
Guarded-read_v3_header = Guarded-bind read_integer _ Guarded-read_integer λ msg_id _.
    Guarded-bind read_integer _ (Guarded-weaken Guarded-read_integer) λ max_size _.
      Guarded-bind read_octet_string _ (Guarded-weaken Guarded-read_octet_string) λ flags _.
        Guarded-bind read_integer _ (Guarded-weaken Guarded-read_integer) λ model _. Guarded-pure tt

Guarded-read_v3_scoped : Guarded 1 Any read_v3_scoped
unfolding read_v3_scoped
Guarded-read_v3_scoped = Guarded-bind read_octet_string _ Guarded-read_octet_string λ engine_id _.
    Guarded-bind read_octet_string _ (Guarded-weaken Guarded-read_octet_string) λ context_name _.
      Guarded-bind read_tag _ (Guarded-weaken Guarded-read_tag) λ pdu_tag _.
        Guarded-bind read_length _ (Guarded-weaken Guarded-read_length) λ pdu_len _.
          Guarded-bind (read_raw pdu_len) _ (Guarded-read_raw pdu_len) λ pdu_data small.
            Guarded-lift (eval read_notification_pdu (new pdu_data)) (
              Guarded-eval (new pdu_data) Guarded-read_notification_pdu
                (new-IsValid pdu_data small))

module _ {Addr : Type 0} where
  Guarded-read_v1_pdu :
      (community : List ℕ) (source : Addr) → Guarded 1 Any (read_v1_pdu community source)
  unfolding read_v1_pdu
  Guarded-read_v1_pdu community source = Guarded-bind read_oid _ Guarded-read_oid λ enterprise _.
      Guarded-bind read_tlv _ (Guarded-weaken Guarded-read_tlv) λ (tag, addr_data) _.
        Guarded-bind read_integer _ (Guarded-weaken Guarded-read_integer) λ generic_trap _.
          Guarded-bind read_integer _ (Guarded-weaken Guarded-read_integer) λ specific_trap _.
            Guarded-bind read_integer _ (Guarded-weaken Guarded-read_integer) λ timestamp _.
              Guarded-bind read_sequence _ (Guarded-weaken Guarded-read_sequence) λ vbl v.
                Guarded-bind _ _ (Guarded-lift (eval read_varbinds vbl) (read_varbinds-ends vbl v))
                  λ vbs _. Guarded-pure tt

  Guarded-decode_v1_trap : (source : Addr) → Guarded 1 Any (decode_v1_trap source)
  unfolding decode_v1_trap
  Guarded-decode_v1_trap source =
      Guarded-bind read_octet_string _ Guarded-read_octet_string λ community _.
        Guarded-bind read_tag _ (Guarded-weaken Guarded-read_tag) λ pdu_tag _.
          Guarded-if (pdu_tag == pdu_trap_v1)
            (Guarded-bind read_length _ (Guarded-weaken Guarded-read_length) λ pdu_len _.
              Guarded-bind (read_raw pdu_len) _ (Guarded-read_raw pdu_len) λ pdu_data small.
                Guarded-lift (eval (read_v1_pdu community source) (new pdu_data)) (
                  Guarded-eval (new pdu_data) (Guarded-read_v1_pdu community source)
                    (new-IsValid pdu_data small)))
            (Guarded-fail _)

  Guarded-decode_v2c_trap : (source : Addr) → Guarded 1 Any (decode_v2c_trap source)
  unfolding decode_v2c_trap
  Guarded-decode_v2c_trap source =
      Guarded-bind read_octet_string _ Guarded-read_octet_string λ community _.
        Guarded-bind read_tag _ (Guarded-weaken Guarded-read_tag) λ pdu_tag _.
          Guarded-if (pdu_tag == pdu_trap_v2)
            (Guarded-bind read_length _ (Guarded-weaken Guarded-read_length) λ pdu_len _.
              Guarded-bind (read_raw pdu_len) _ (Guarded-read_raw pdu_len) λ pdu_data small.
                Guarded-bind _ _
                  (Guarded-lift (eval read_notification_pdu (new pdu_data)) (
                    Guarded-eval (new pdu_data) Guarded-read_notification_pdu
                      (new-IsValid pdu_data small)))
                  λ vbs _. Guarded-pure tt)
            (Guarded-fail _)

  Guarded-decode_v3_trap : (source : Addr) → Guarded 1 Any (decode_v3_trap source)
  unfolding decode_v3_trap
  Guarded-decode_v3_trap source = Guarded-bind read_sequence _ Guarded-read_sequence λ header v.
      Guarded-bind _ _
        (Guarded-lift (eval read_v3_header header) (Guarded-eval header Guarded-read_v3_header v))
        λ done _.
          Guarded-bind read_octet_string _ (Guarded-weaken Guarded-read_octet_string) λ params _.
            Guarded-bind read_sequence _ (Guarded-weaken Guarded-read_sequence) λ scoped w.
              Guarded-bind _ _
                (Guarded-lift (eval read_v3_scoped scoped)
                  (Guarded-eval scoped Guarded-read_v3_scoped w))
                λ vbs _. Guarded-pure tt

  Guarded-decode_by_version :
      (version : Version) (source : Addr) → Guarded 1 Any (decode_by_version version source)
  unfolding decode_by_version
  Guarded-decode_by_version v1 source = Guarded-decode_v1_trap source
  Guarded-decode_by_version v2c source = Guarded-decode_v2c_trap source
  Guarded-decode_by_version v3 source = Guarded-decode_v3_trap source

  Guarded-read_trap : (source : Addr) → Guarded 1 Any (read_trap source)
  unfolding read_trap
  Guarded-read_trap source = Guarded-bind read_integer _ Guarded-read_integer λ ver _.
      Guarded-bind _ _ (Guarded-lift (version_of ver) (version_of-ends ver))
        λ version _. Guarded-weaken (Guarded-decode_by_version version source)

  -- Whatever the datagram, of fewer than 2 ^ 63 bytes, and its sender, `decode_trap` ends.
  pub decode_trap-ends :
      (bytes : List ℕ) (source : Addr)
      → length bytes < 2 ^ 63
      → decode_trap bytes source ≢ out_of_fuel
  unfolding decode_trap
  decode_trap-ends bytes source h =
      Guarded-eval (new bytes)
        (Guarded-bind read_sequence _ Guarded-read_sequence λ msg v.
          Guarded-lift (eval (read_trap source) msg)
            (Guarded-eval msg (Guarded-read_trap source) v))
        (new-IsValid bytes h)
