-- ===== src/V3/Crypto/Transport.antt =====
-- src/v3.rs: a scoped PDU on its way through encryption.
use rusnmp.Prelude.{
  ℕ, ◌-◌, ◌%◌, ◌^◌, ◌≤◌, ◌<◌, ◌≡◌, sym, ap, ◌∙◌, arith, List, [], ◌++◌, length, length-append,
  append-nil, All, replicate, length-replicate,
}
use rusnmp.Prelude.Int.{ℤ, IsI32}
use rusnmp.Error.{Outcome, ok, and_then}
use rusnmp.Types.{VarBind}
use rusnmp.Codec.Tags.{tag_sequence}
use rusnmp.Codec.Encoder.Appends.{tlv, length-tlv-le}
use rusnmp.Codec.Decoder.Reads.{Reads-lift, Reads-bind_last, Reads-eval, Reads-run}
use rusnmp.Codec.Decoder.Primitives.{Reads-read_sequence}
use rusnmp.Codec.Pdu.{encode_varbind_list}
use rusnmp.Codec.RoundTrip.{pdu_content}
use rusnmp.Codec.Varbinds.{IsWireVarBind}
use rusnmp.V3.{PrivProtocol, des, aes128}
use rusnmp.V3.Crypto.{Crypto, encrypt, decrypt}
use rusnmp.V3.Crypto.Ciphers.{CryptoLaws, decrypt-encrypt}
use rusnmp.V3.Messages.{encode_scoped_pdu, decode_scoped_pdu}
use rusnmp.V3.Messages.ScopedPdu.{
  scoped_content, scoped_of, encode_scoped_pdu-content, Reads-read_scoped_pdu,
}

-- `and_then` on what is known.
through :
    {A B : Type 0} {r : Outcome A} {a : A} (f : A → Outcome B) {b : Outcome B}
    → r ≡ ok a
    → f a ≡ b
    → and_then r f ≡ b
through f e k = rw e k

module _ (engine_id context_name : List ℕ) (pdu_type : ℕ) (rid es ei : ℤ) (vbs : List VarBind) where
  abbrev whole : List ℕ
  whole = scoped_content engine_id context_name pdu_type (pdu_content rid es ei vbs)

  abbrev plain : List ℕ
  plain = encode_scoped_pdu engine_id context_name pdu_type rid es ei (encode_varbind_list vbs)

  decode_scoped_pdu-trailing :
      (rest : List ℕ)
      → length rest < 8
      → IsI32 rid
      → IsI32 es
      → IsI32 ei
      → All IsWireVarBind vbs
      → length whole < 2 ^ 24
      → decode_scoped_pdu (plain ++ rest)
        ≡ ok (scoped_of engine_id context_name pdu_type rid es ei vbs)
  unfolding decode_scoped_pdu
  decode_scoped_pdu-trailing rest few hr hs hi w fits = rw encode_scoped_pdu-content (
      ap (λ t. t.0)
        (Reads-run (tlv tag_sequence whole) rest
          (Reads-bind_last _ (tlv tag_sequence whole) (Reads-read_sequence whole fits) (
            Reads-lift (
              Reads-eval whole (omega arith) (
                Reads-read_scoped_pdu engine_id context_name pdu_type rid es ei vbs hr hs hi w
                  fits))))
          (omega (
            arith,
            length-append (tlv tag_sequence whole) rest,
            length-tlv-le tag_sequence whole,
          ))))

  -- A scoped PDU that `encode_scoped_pdu` wrote and `encrypt` encrypted comes back from
  -- `decrypt` and `decode_scoped_pdu` with every field, under either protocol, with ciphers
  -- that keep their laws and a key of 16 bytes or more, for i32 integers, bindings in range
  -- that their encoding determines and contents below 2 ^ 24 bytes. Exception values come back
  -- as null.
  pub decode_scoped_pdu-decrypt :
      (crypto : Crypto) (laws : CryptoLaws crypto) (protocol : PrivProtocol) (priv_key : List ℕ)
      (boots time salt : ℕ)
      → 16 ≤ length priv_key
      → IsI32 rid
      → IsI32 es
      → IsI32 ei
      → All IsWireVarBind vbs
      → length whole < 2 ^ 24
      → and_then
          (encrypt crypto protocol priv_key boots time salt plain)
          (λ (encrypted, priv_params).
            and_then
              (decrypt crypto protocol priv_key boots time priv_params encrypted)
              decode_scoped_pdu)
        ≡ ok (scoped_of engine_id context_name pdu_type rid es ei vbs)
  decode_scoped_pdu-decrypt crypto laws des priv_key boots time salt long hr hs hi w fits =
      let (_, _, e, _, d) = decrypt-encrypt crypto laws des priv_key boots time salt plain long in
      let pad = (8 - length plain % 8) % 8 in
      through _ e (
        through decode_scoped_pdu d (
          decode_scoped_pdu-trailing (replicate pad 0)
            (omega (arith, length-replicate {A = ℕ} pad 0)) hr hs hi w fits))
  decode_scoped_pdu-decrypt crypto laws aes128 priv_key boots time salt long hr hs hi w fits =
      let (_, _, e, _, d) =
        decrypt-encrypt crypto laws aes128 priv_key boots time salt plain long in
      through _ e (
        through decode_scoped_pdu d (
          ap decode_scoped_pdu (sym (append-nil plain))
          ∙ decode_scoped_pdu-trailing [] (omega arith) hr hs hi w fits))
