-- ===== src/Codec/Response/Ends.antt =====
-- src/codec.rs: `decode_response` on arbitrary bytes, and the fuel of its loop.
use rusnmp.Prelude.{
  ℕ, zero, suc, ◌+◌, ◌^◌, ◌≤◌, ◌<◌, ◌≡◌, ◌≢◌, refl, arith, List, [], ◌∷◌, ◌++◌, length,
}
use rusnmp.Prelude.{ltb, ◌==◌, Bool-cases, inl, inr, ap}
use rusnmp.Prelude.Int.{ℤ}
use rusnmp.Error.{Outcome, ok, err, panicked, out_of_fuel}
use rusnmp.Run.{eval, continue}
use rusnmp.Types.{VarBind, Version}
use rusnmp.Codec.Tags.{pdu_response}
use rusnmp.Codec.Decoder.{
  BerDecoder, Reader, new, remaining, read_tag, read_length, read_raw, read_sequence, read_integer,
  read_octet_string, read_oid, read_value,
}
use rusnmp.Codec.Decoder.Guarded.{
  IsValid, Post-IsValid, Guarded, Any, Guarded-pure, Guarded-weaken, Guarded-fail, Guarded-lift,
  Guarded-if, Guarded-bind, Guarded-eval,
}
use rusnmp.Codec.Decoder.Bounds.{
  Guarded-read_tag, Guarded-read_length, Guarded-read_raw, Guarded-read_sequence,
  Guarded-read_integer, Guarded-read_octet_string, Guarded-read_oid, Guarded-read_value,
}
use rusnmp.Codec.Response.{
  read_varbind_fields, read_varbind, varbinds_loop, read_varbinds, version_of, read_response_pdu,
  read_response, decode_response,
}

Guarded-read_varbind_fields : Guarded 1 Any read_varbind_fields
unfolding read_varbind_fields
Guarded-read_varbind_fields = Guarded-bind read_oid _ Guarded-read_oid λ oid _.
    Guarded-bind read_value _ (Guarded-weaken Guarded-read_value) λ value _. Guarded-pure tt

Guarded-read_varbind : Guarded 1 Any read_varbind
unfolding read_varbind
Guarded-read_varbind = Guarded-bind read_sequence _ Guarded-read_sequence λ vb_dec v.
    Guarded-lift (eval read_varbind_fields vb_dec)
      (Guarded-eval vb_dec Guarded-read_varbind_fields v)

continue-ends :
    {A B : Type 0} (r : Outcome A) (d : BerDecoder) (f : A → Reader B)
    → r ≢ out_of_fuel
    → ((a : A) → r ≡ ok a → eval (f a) d ≢ out_of_fuel)
    → (continue r f d).0 ≢ out_of_fuel
continue-ends (ok a) d f h k = k a refl
continue-ends (err e) d f h k = λ x. cc
continue-ends panicked d f h k = λ x. cc
continue-ends out_of_fuel d f h k = absurd (h refl)

varbinds_loop-ends :
    (fuel : ℕ) (acc : List VarBind) (d : BerDecoder)
    → IsValid d
    → length d.bytes ≤ d.pos + fuel
    → eval (varbinds_loop fuel acc) d ≢ out_of_fuel
unfolding varbinds_loop remaining
varbinds_loop-ends zero acc d v h = ground (arith, v.small, v.inside)
varbinds_loop-ends (suc fuel) acc d v h = elim (Bool-cases (ltb 0 (remaining d))) [
  | inl e ↦
      rw (e, eval)
        (let r = Guarded-read_varbind.at d v in
          continue-ends (read_varbind d).0 (read_varbind d).1
            (λ vb. varbinds_loop fuel (acc ++ vb ∷ [])) r.ends
            λ vb done.
              varbinds_loop-ends fuel (acc ++ vb ∷ []) (read_varbind d).1 (Post-IsValid v r)
                (ground (arith, r.progress vb done, ap (λ t. length t) r.same)))
  | inr e ↦ rw (e, eval) (λ x. cc)
]

-- From a valid decoder the loop over the variable bindings ends.
pub read_varbinds-ends : (d : BerDecoder) → IsValid d → eval read_varbinds d ≢ out_of_fuel
unfolding read_varbinds
read_varbinds-ends d v = varbinds_loop-ends (length d.bytes) [] d v (omega arith)

pub version_of-ends : (v : ℤ) → version_of v ≢ out_of_fuel
unfolding version_of
version_of-ends v = ground arith

Guarded-read_response_pdu :
    (version : Version) (community : List ℕ) → Guarded 1 Any (read_response_pdu version community)
unfolding read_response_pdu
Guarded-read_response_pdu version community =
    Guarded-bind read_integer _ Guarded-read_integer λ request_id _.
      Guarded-bind read_integer _ (Guarded-weaken Guarded-read_integer) λ error_status _.
        Guarded-bind read_integer _ (Guarded-weaken Guarded-read_integer) λ error_index _.
          Guarded-bind read_sequence _ (Guarded-weaken Guarded-read_sequence) λ vbl v.
            Guarded-bind _ _ (Guarded-lift (eval read_varbinds vbl) (read_varbinds-ends vbl v))
              λ vbs _. Guarded-pure tt

pub new-IsValid : (bytes : List ℕ) → length bytes < 2 ^ 63 → IsValid (new bytes)
new-IsValid bytes h = record { small = h; inside = omega arith }

Guarded-read_response : Guarded 1 Any read_response
unfolding read_response
Guarded-read_response = Guarded-bind read_integer _ Guarded-read_integer λ ver _.
    Guarded-bind _ _ (Guarded-lift (version_of ver) (version_of-ends ver)) λ version _.
      Guarded-bind read_octet_string _ (Guarded-weaken Guarded-read_octet_string) λ community _.
        Guarded-bind read_tag _ (Guarded-weaken Guarded-read_tag) λ pdu_tag _.
          Guarded-if (pdu_tag == pdu_response)
            (Guarded-bind read_length _ (Guarded-weaken Guarded-read_length) λ pdu_len _.
              Guarded-bind (read_raw pdu_len) _ (Guarded-read_raw pdu_len) λ pdu_data small.
                Guarded-lift (eval (read_response_pdu version community) (new pdu_data)) (
                  Guarded-eval (new pdu_data) (Guarded-read_response_pdu version community)
                    (new-IsValid pdu_data small)))
            (Guarded-fail _)

-- Whatever the datagram, of fewer than 2 ^ 63 bytes, `decode_response` ends: its loop never
-- outruns the fuel of the model.
pub decode_response-ends :
    (bytes : List ℕ) → length bytes < 2 ^ 63 → decode_response bytes ≢ out_of_fuel
unfolding decode_response
decode_response-ends bytes h =
    Guarded-eval (new bytes)
      (Guarded-bind read_sequence _ Guarded-read_sequence
        λ msg v. Guarded-lift (eval read_response msg) (Guarded-eval msg Guarded-read_response v))
      (new-IsValid bytes h)
