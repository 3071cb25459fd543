-- ===== src/Codec/Varbinds.antt =====
-- Lists of variable bindings: what `encode_varbind_list` writes, the shared loop of the decoders
-- reads.
use rusnmp.Prelude.{ℕ, zero, suc, ◌^◌, ◌≤◌, ◌<◌, ◌≡◌, refl, sym, ap, ◌∙◌, arith}
use rusnmp.Prelude.{
  List, [], ◌∷◌, ◌++◌, foldl, map, length, length-append, append-nil, append_assoc, ltb, All, true,
}
use rusnmp.Error.{ok}
use rusnmp.Run.{eval}
use rusnmp.Types.{Oid, VarBind, null}
use rusnmp.Codec.Tags.{tag_oid, tag_sequence}
use rusnmp.Codec.Encoder.{BerEncoder, encode_oid}
use rusnmp.Codec.Encoder.Appends.{tlv, appends}
use rusnmp.Codec.Decoder.{BerDecoder, new, remaining}
use rusnmp.Codec.Decoder.Reads.{
  Ahead, Ahead-advance, advance, length-Ahead, Reads, Reads-pure, Reads-lift, Reads-bind,
  Reads-bind_last, Reads-eval,
}
use rusnmp.Codec.Decoder.Primitives.{Reads-read_sequence}
use rusnmp.Codec.Pdu.{
  write_varbind, encode_varbind_list, write_null_varbind, encode_varbind_list_null,
}
use rusnmp.Codec.Response.{read_varbind_fields, read_varbind, varbinds_loop, read_varbinds}
use rusnmp.Codec.Values.{
  value_tlv, as_sent, IsWireOid, IsWireValue, buf-encode_value, Reads-read_value, Reads-read_oid,
}

abbrev pub fields_bytes : VarBind → List ℕ
fields_bytes vb = tlv tag_oid (encode_oid vb.oid) ++ value_tlv vb.value

abbrev pub varbinds_bytes : List VarBind → List ℕ
varbinds_bytes [] = []
varbinds_bytes (vb ∷ vbs) = tlv tag_sequence (fields_bytes vb) ++ varbinds_bytes vbs

buf-write_varbind :
    (vb : VarBind) (e : BerEncoder)
    → (write_varbind e vb).buf ≡ e.buf ++ tlv tag_sequence (fields_bytes vb)
unfolding write_varbind
buf-write_varbind vb e = simp (appends, buf-encode_value)

foldl-write_varbind :
    (vbs : List VarBind) (e : BerEncoder)
    → (foldl write_varbind e vbs).buf ≡ e.buf ++ varbinds_bytes vbs
foldl-write_varbind [] e = sym (append-nil e.buf)
foldl-write_varbind (vb ∷ vbs) e =
    foldl-write_varbind vbs (write_varbind e vb) ∙ rw (buf-write_varbind, append_assoc)

pub encode_varbind_list-bytes : (vbs : List VarBind) → encode_varbind_list vbs ≡ varbinds_bytes vbs
unfolding encode_varbind_list
encode_varbind_list-bytes vbs = foldl-write_varbind vbs _

-- A request with no values is a request with nulls.
abbrev pub null_varbind : Oid → VarBind
null_varbind oid = record { oid = oid; value = null }

buf-write_null_varbind :
    (oid : Oid) (e : BerEncoder)
    → (write_null_varbind e oid).buf ≡ e.buf ++ tlv tag_sequence (fields_bytes (null_varbind oid))
unfolding write_null_varbind
buf-write_null_varbind oid e = simp appends

foldl-write_null_varbind :
    (oids : List Oid) (e : BerEncoder)
    → (foldl write_null_varbind e oids).buf ≡ e.buf ++ varbinds_bytes (map null_varbind oids)
foldl-write_null_varbind [] e = sym (append-nil e.buf)
foldl-write_null_varbind (oid ∷ oids) e =
    foldl-write_null_varbind oids (write_null_varbind e oid)
    ∙ rw (buf-write_null_varbind, append_assoc)

pub encode_varbind_list_null-bytes :
    (oids : List Oid) → encode_varbind_list_null oids ≡ varbinds_bytes (map null_varbind oids)
unfolding encode_varbind_list_null
encode_varbind_list_null-bytes oids = foldl-write_null_varbind oids _

-- Each binding of the list can be sent, and fits three length octets.
abbrev pub IsWireVarBind : VarBind → Type 0
IsWireVarBind vb = IsWireOid vb.oid × IsWireValue vb.value × (length (fields_bytes vb) < 2 ^ 24)

abbrev pub sent_varbind : VarBind → VarBind
sent_varbind vb = record { oid = vb.oid; value = as_sent vb.value }

Reads-read_varbind_fields :
    (vb : VarBind)
    → IsWireVarBind vb
    → Reads read_varbind_fields (sent_varbind vb) (fields_bytes vb)
unfolding read_varbind_fields
Reads-read_varbind_fields vb h =
    Reads-bind _ (tlv tag_oid (encode_oid vb.oid)) (value_tlv vb.value) (Reads-read_oid vb.oid h.0)
      (Reads-bind_last _ (value_tlv vb.value) (Reads-read_value vb.value h.1) (Reads-pure _))

Reads-read_varbind :
    (vb : VarBind)
    → IsWireVarBind vb
    → Reads read_varbind (sent_varbind vb) (tlv tag_sequence (fields_bytes vb))
unfolding read_varbind
Reads-read_varbind vb h =
    Reads-bind_last _ (tlv tag_sequence (fields_bytes vb))
      (Reads-read_sequence (fields_bytes vb) h.2)
      (Reads-lift (Reads-eval (fields_bytes vb) (omega arith) (Reads-read_varbind_fields vb h)))

remaining-Ahead : {d : BerDecoder} {bs : List ℕ} → Ahead d bs → remaining d ≡ length bs
unfolding remaining
remaining-Ahead h = omega (arith, length-Ahead h, h.small)

varbinds_loop_step :
    (fuel : ℕ) (acc : List VarBind) (d : BerDecoder) {vb : VarBind} {d' : BerDecoder}
    → ltb 0 (remaining d) ≡ true
    → read_varbind d ≡ (ok vb, d')
    → varbinds_loop (suc fuel) acc d ≡ varbinds_loop fuel (acc ++ vb ∷ []) d'
unfolding varbinds_loop
varbinds_loop_step fuel acc d more next = ground arith

varbinds_loop-bytes :
    (vbs : List VarBind) (fuel : ℕ) (acc : List VarBind) (d : BerDecoder)
    → All IsWireVarBind vbs
    → length vbs ≤ fuel
    → Ahead d (varbinds_bytes vbs)
    → eval (varbinds_loop fuel acc) d ≡ ok (acc ++ map sent_varbind vbs)
unfolding varbinds_loop
varbinds_loop-bytes [] zero acc d w f h = ground (arith, remaining-Ahead h, append-nil acc)
varbinds_loop-bytes [] (suc fuel) acc d w f h = ground (arith, remaining-Ahead h, append-nil acc)
varbinds_loop-bytes (vb ∷ vbs) zero acc d w f h = absurd (omega arith)
varbinds_loop-bytes (vb ∷ vbs) (suc fuel) acc d w f h =
    let bs = tlv tag_sequence (fields_bytes vb) in
    let more : ltb 0 (remaining d) ≡ true = ground (arith, remaining-Ahead h) in
    let next = (Reads-read_varbind vb w.0).run d (varbinds_bytes vbs) h in
    ap (λ t. t.0) (varbinds_loop_step fuel acc d more next)
    ∙ (varbinds_loop-bytes vbs fuel (acc ++ sent_varbind vb ∷ []) (advance d (length bs)) w.1
          (omega arith) (Ahead-advance bs h)
        ∙ ap ok (append_assoc acc (sent_varbind vb ∷ []) (map sent_varbind vbs)))

length-varbinds_bytes : (vbs : List VarBind) → length vbs ≤ length (varbinds_bytes vbs)
length-varbinds_bytes [] = omega arith
length-varbinds_bytes (vb ∷ vbs) = omega (
  arith,
  length-varbinds_bytes vbs,
  length-append (tlv tag_sequence (fields_bytes vb)) (varbinds_bytes vbs),
)

pub read_varbinds-bytes :
    (vbs : List VarBind)
    → All IsWireVarBind vbs
    → length (varbinds_bytes vbs) < 2 ^ 63
    → eval read_varbinds (new (varbinds_bytes vbs)) ≡ ok (map sent_varbind vbs)
unfolding read_varbinds
read_varbinds-bytes vbs w h =
    varbinds_loop-bytes vbs (length (varbinds_bytes vbs)) [] (new (varbinds_bytes vbs)) w
      (length-varbinds_bytes vbs) (record { small = h; inside = omega arith; ahead = refl })

-- The loop returns the bindings that `encode_varbind_list` wrote, in their order, and its fuel is
-- enough: each binding is in range and below 2 ^ 24 bytes, all of them below 2 ^ 63.
pub read_varbinds-encode_varbind_list :
    (vbs : List VarBind)
    → All IsWireVarBind vbs
    → length (encode_varbind_list vbs) < 2 ^ 63
    → eval read_varbinds (new (encode_varbind_list vbs)) ≡ ok (map sent_varbind vbs)
read_varbinds-encode_varbind_list vbs w h =
    rw encode_varbind_list-bytes (read_varbinds-bytes vbs w (rw encode_varbind_list-bytes at h))
