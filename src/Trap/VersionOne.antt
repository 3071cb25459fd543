-- ===== src/Trap/VersionOne.antt =====
-- src/trap.rs: `decode_trap` on a trap of v1. Nothing in the repository writes one, so its layout is
-- written out here, from the encoders of the fields.
use rusnmp.Prelude.{
  ℕ, ◌^◌, ◌<◌, ◌≡◌, arith, List, [], ◌∷◌, ◌++◌, map, length, All, some, Bool-cases, inl, inr, true,
  false, subst, ◌==◌, if◌then◌else◌,
}
use rusnmp.Prelude.Int.{ℤ, IsI64, as_i32, as_u32}
use rusnmp.Error.{ok, err, decode, expected_integer}
use rusnmp.Types.{Oid, VarBind, v1, to_i64}
use rusnmp.Codec.Tags.{tag_integer, tag_octet_string, tag_sequence, tag_oid}
use rusnmp.Codec.Encoder.{encode_oid, encode_integer_bytes}
use rusnmp.Codec.Encoder.Appends.{tlv, length_octets, length-tlv-le}
use rusnmp.Codec.Decoder.Reads.{Reads, Reads-pure, Reads-lift, Reads-bind, Reads-bind_last}
use rusnmp.Codec.Decoder.{read_integer}
use rusnmp.Codec.Decoder.Gives.{
  Gives, Gives-Reads, Gives-bind, Gives-bind_last, Gives-bind_fail, Gives-else, Gives-fail,
  Gives-lift, Gives-eval,
}
use rusnmp.Codec.Decoder.Primitives.{
  Reads-read_tag, Reads-read_length, Reads-read_raw, Reads-read_sequence, Reads-read_tlv,
}
use rusnmp.Codec.Pdu.{encode_message}
use rusnmp.Codec.Integers.{length-encode_integer_bytes}
use rusnmp.Codec.Values.{IsWireOid, Reads-read_oid}
use rusnmp.Codec.Varbinds.{IsWireVarBind, sent_varbind, varbinds_bytes, read_varbinds-bytes}
use rusnmp.Codec.RoundTrip.{
  integer_tlv, Reads-read_integer, Reads-read_octet_string, message_content, encode_message-content,
  community_small, content_small, to_i64-IsI64, version_of-to_i64,
}
use rusnmp.Trap.{
  Trap, pdu_trap_v1, agent_addr_of, read_v1_pdu, decode_v1_trap, decode_by_version, read_trap,
  decode_trap,
}

-- The contents of the PDU: the address and the ticks of the agent stand in elements of any tag.
abbrev pub v1_content : Oid → ℕ → List ℕ → ℤ → ℤ → ℕ → ℤ → List VarBind → List ℕ
v1_content enterprise address_tag address generic specific ticks_tag ticks vbs =
    tlv tag_oid (encode_oid enterprise)
    ++ (tlv address_tag address
        ++ (integer_tlv generic
            ++ (integer_tlv specific
                ++ (tlv ticks_tag (encode_integer_bytes ticks)
                    ++ tlv tag_sequence (varbinds_bytes vbs)))))

Reads-read_integer_tag :
    (t : ℕ) (v : ℤ)
    → (t == tag_integer) ≡ true
    → IsI64 v
    → Reads read_integer v (tlv t (encode_integer_bytes v))
Reads-read_integer_tag t v e h =
    let same : tag_integer ≡ t = ground (arith, e) in
    subst (λ t. Reads read_integer v (tlv t (encode_integer_bytes v))) same (Reads-read_integer v h)

Gives-read_integer :
    (t : ℕ) (c : List ℕ)
    → (t == tag_integer) ≡ false
    → length c < 2 ^ 24
    → Gives read_integer (err (decode (expected_integer t))) (tlv t c)
unfolding read_integer
Gives-read_integer t c other h =
    Gives-bind_last _ (tlv t c) (Reads-read_tlv t c h)
      (Gives-else _ (t == tag_integer) other (Gives-fail _ []))

module _ {Addr : Type 0} (source : Addr) (community : List ℕ) (enterprise : Oid) (address_tag : ℕ)
    (address : List ℕ) (generic specific : ℤ) (ticks_tag : ℕ) (ticks : ℤ) (vbs : List VarBind) where
  abbrev content : List ℕ
  content = v1_content enterprise address_tag address generic specific ticks_tag ticks vbs

  abbrev message : List ℕ
  message = message_content v1 community pdu_trap_v1 content

  abbrev pub v1_trap : Trap Addr
  v1_trap = record {
    source = source;
    version = v1;
    community = community;
    varbinds = map sent_varbind vbs;
    enterprise = some enterprise;
    agent_addr = agent_addr_of address;
    generic_trap = some (as_i32 generic);
    specific_trap = some (as_i32 specific);
    timestamp = some (as_u32 ticks);
  }

  -- The ranges in which the encoding determines the fields.
  pub record IsWireTrap : Type 0 where
    pub has_enterprise : IsWireOid enterprise
    pub has_address : length address < 2 ^ 24
    pub has_generic : IsI64 generic
    pub has_specific : IsI64 specific
    pub has_ticks : IsI64 ticks
    pub has_varbinds : All IsWireVarBind vbs
    pub list : length (varbinds_bytes vbs) < 2 ^ 24
    pub fits : length message < 2 ^ 24

  abbrev ticks_tlv : List ℕ
  ticks_tlv = tlv ticks_tag (encode_integer_bytes ticks)

  -- The PDU, by what the reader of the ticks and what follows it gives.
  Gives-read_v1_pdu :
      IsWireTrap
      → Gives
          (read_v1_pdu community source)
          (if ticks_tag == tag_integer
            then ok v1_trap
            else err (decode (expected_integer ticks_tag)))
          content
  unfolding read_v1_pdu
  Gives-read_v1_pdu h =
      Gives-bind _ (tlv tag_oid (encode_oid enterprise)) _
        (Reads-read_oid enterprise h.has_enterprise)
        (Gives-bind _ (tlv address_tag address) _ (Reads-read_tlv address_tag address h.has_address)
          (Gives-bind _ (integer_tlv generic) _ (Reads-read_integer generic h.has_generic) (
            Gives-bind _ (integer_tlv specific) _ (Reads-read_integer specific h.has_specific)
              (elim (Bool-cases (ticks_tag == tag_integer)) [
                | inl e ↦ rw e (
                    Gives-Reads (
                      Reads-bind _ ticks_tlv _
                        (Reads-read_integer_tag ticks_tag ticks e h.has_ticks)
                        (Reads-bind_last _ (tlv tag_sequence (varbinds_bytes vbs))
                          (Reads-read_sequence (varbinds_bytes vbs) h.list)
                          (Reads-bind_last _ []
                            (Reads-lift
                              (read_varbinds-bytes vbs h.has_varbinds (omega (arith, h.list))))
                            (Reads-pure _)))))
                | inr e ↦ rw e (
                    Gives-bind_fail _ ticks_tlv (tlv tag_sequence (varbinds_bytes vbs)) (
                      Gives-read_integer ticks_tag (encode_integer_bytes ticks) e
                        (omega (arith, length-encode_integer_bytes ticks))))
              ]))))

  Gives-read_trap :
      IsWireTrap
      → Gives
          (read_trap source)
          (if ticks_tag == tag_integer
            then ok v1_trap
            else err (decode (expected_integer ticks_tag)))
          message
  unfolding read_trap decode_by_version decode_v1_trap
  Gives-read_trap h =
      let inner = content_small v1 community pdu_trap_v1 content h.fits in
      Gives-bind _ (integer_tlv (to_i64 v1)) _ (Reads-read_integer (to_i64 v1) (to_i64-IsI64 v1)) (
        Gives-bind _ [] _ (Reads-lift (version_of-to_i64 v1)) (
          Gives-bind _ (tlv tag_octet_string community) _
            (Reads-read_octet_string community
              (community_small v1 community pdu_trap_v1 content h.fits))
            (Gives-bind _ (pdu_trap_v1 ∷ []) _ (Reads-read_tag pdu_trap_v1) (
              Gives-bind _ (length_octets (length content)) _
                (Reads-read_length (length content) inner)
                (Gives-bind_last _ content (Reads-read_raw content) (
                  Gives-lift []
                    (Gives-eval content (omega (arith, inner)) (Gives-read_v1_pdu h))))))))

  -- What `decode_trap` makes of a v1 trap in this layout depends on the tag of the ticks. If it is that
  -- of INTEGER, every field comes back: the community, the enterprise, the agent's address if its
  -- element holds four bytes and no address if it does not, whatever its tag, the two kinds as i32 and
  -- the ticks as u32, with the wrap-around of those casts, and the bindings in their order, exception
  -- values as null. With any other tag, that of TimeTicks among them, the trap is refused. The
  -- fields are in the ranges in which their encoding determines them, all contents below 2 ^ 24 bytes.
  pub decode_trap-v1_content :
      IsWireTrap
      → decode_trap (encode_message v1 community pdu_trap_v1 content) source ≡ (
          if ticks_tag == tag_integer
          then ok v1_trap
          else err (decode (expected_integer ticks_tag)))
  unfolding decode_trap
  decode_trap-v1_content h = rw encode_message-content (
      Gives-eval (tlv tag_sequence message)
        (omega (arith, h.fits, length-tlv-le tag_sequence message))
        (Gives-bind_last _ (tlv tag_sequence message) (Reads-read_sequence message h.fits)
          (Gives-lift [] (Gives-eval message (omega (arith, h.fits)) (Gives-read_trap h)))))
