-- ===== src/V3/Messages/Message.antt =====
-- src/v3.rs: the header and the scoped PDU inside a message of v3, and `read_tlv_with_header` of
-- src/codec.rs.
use rusnmp.Prelude.{
  ℕ, ◌^◌, ◌<◌, ◌≡◌, arith, List, [], ◌∷◌, ◌++◌, length, append_assoc, length-append, take-append,
  get_elem?-drop, Bool, true, false,
}
use rusnmp.Prelude.Int.{ℤ, IsI32, as_i32-IsI32, IsI64-IsI32}
use rusnmp.Run.{◌>>◌}
use rusnmp.Codec.Tags.{tag_octet_string}
use rusnmp.Codec.Encoder.Appends.{tlv, length_octets}
use rusnmp.Codec.Decoder.{Reader, peek_tag, read_tlv_with_header}
use rusnmp.Codec.Decoder.Reads.{
  Ahead, Ahead-advance, advance, length-Ahead, Reads, Reads-pure, Reads-bind, Reads-bind_last,
}
use rusnmp.Codec.Decoder.Primitives.{Reads-read_tag, Reads-read_length, Reads-read_raw}
use rusnmp.Codec.RoundTrip.{integer_tlv, Reads-read_integer, Reads-read_octet_string}
use rusnmp.V3.Messages.{read_header, read_scoped_raw}

-- `read_tlv_with_header` takes a whole element and returns all of its bytes.
pub Reads-read_tlv_with_header :
    (t : ℕ) (c : List ℕ) → length c < 2 ^ 24 → Reads read_tlv_with_header (t, tlv t c) (tlv t c)
unfolding read_tlv_with_header
Reads-read_tlv_with_header t c h = record {
  run = λ d rest whole.
      let octets = length_octets (length c) in
      let tail = c ++ rest in
      let one : Ahead d (t ∷ (octets ++ tail)) = rw append_assoc at whole in
      let two = Ahead-advance (t ∷ []) one in
      let three = Ahead-advance octets two in
      let tag_step = (Reads-read_tag t).run d (octets ++ tail) one in
      let length_step = (Reads-read_length (length c) h).run (advance d 1) tail two in
      let raw_step = (Reads-read_raw c).run (advance (advance d 1) (length octets)) rest three in
      ground (
        arith,
        tag_step,
        length_step,
        raw_step,
        whole.ahead,
        whole.small,
        length-Ahead whole,
        take-append (tlv t c) rest,
        length-append octets c,
        length-append (tlv t c) rest,
      );
}

Reads-peek_tag :
    {A : Type 0} {p : Reader A} {a : A} (t : ℕ) (bs : List ℕ)
    → Reads p a (t ∷ bs)
    → Reads (peek_tag >> p) a (t ∷ bs)
unfolding peek_tag
Reads-peek_tag t bs r = record {
  run = λ d rest h. ground (
    arith,
    r.run d rest h,
    length-Ahead h,
    h.small,
    get_elem?-drop d.pos d.bytes t (bs ++ rest) h.ahead,
  );
}

-- What stands for the scoped PDU in the message: an octet string, or the element itself.
abbrev pub scoped_bytes : Bool → List ℕ → List ℕ
scoped_bytes true raw = tlv tag_octet_string raw
scoped_bytes false raw = raw

-- A plain scoped PDU is one element.
abbrev pub IsScoped : Bool → List ℕ → Type 0
IsScoped true raw = length raw < 2 ^ 24
IsScoped false raw = (t : ℕ) × (c : List ℕ) × (raw ≡ tlv t c) × (length c < 2 ^ 24)

pub Reads-read_scoped_raw :
    (encrypted : Bool) (raw : List ℕ)
    → IsScoped encrypted raw
    → Reads (read_scoped_raw encrypted) raw (scoped_bytes encrypted raw)
unfolding read_scoped_raw
Reads-read_scoped_raw true raw h = Reads-read_octet_string raw h
Reads-read_scoped_raw false raw (t, c, e, h) = rw e (
    Reads-peek_tag t (length_octets (length c) ++ c)
      (Reads-bind_last _ (tlv t c) (Reads-read_tlv_with_header t c h) (Reads-pure (tlv t c))))

abbrev pub header_content : ℤ → ℤ → ℕ → ℤ → List ℕ
header_content msg_id max_size flags security_model =
    integer_tlv msg_id
    ++ (integer_tlv max_size ++ (tlv tag_octet_string (flags ∷ []) ++ integer_tlv security_model))

pub Reads-read_header :
    (msg_id max_size : ℤ) (flags : ℕ) (security_model : ℤ)
    → IsI32 msg_id
    → IsI32 max_size
    → IsI32 security_model
    → Reads read_header
        (msg_id, max_size, flags, security_model)
        (header_content msg_id max_size flags security_model)
unfolding read_header
Reads-read_header msg_id max_size flags security_model hi hs hm =
    Reads-bind _ (integer_tlv msg_id) _ (Reads-read_integer msg_id (IsI64-IsI32 msg_id hi)) (
      Reads-bind _ (integer_tlv max_size) _ (Reads-read_integer max_size (IsI64-IsI32 max_size hs))
        (Reads-bind _ (tlv tag_octet_string (flags ∷ [])) _
          (Reads-read_octet_string (flags ∷ []) (omega arith))
          (Reads-bind_last _ (integer_tlv security_model)
            (Reads-read_integer security_model (IsI64-IsI32 security_model hm))
            (rw (as_i32-IsI32 msg_id hi, as_i32-IsI32 max_size hs, as_i32-IsI32 security_model hm)
              (Reads-pure _)))))
