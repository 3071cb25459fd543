-- ===== src/Codec/Decoder/Bounds.antt =====
-- src/codec.rs: the index of `BerDecoder` on arbitrary bytes.
use mathlib.Core.Path.{fun_ext}
use rusnmp.Prelude.{
  ℕ, zero, suc, ◌+◌, ◌-◌, ◌%◌, ◌^◌, ◌≤◌, ◌<◌, ◌≡◌, ◌≢◌, refl, sym, arith, subst, ◌⊎◌,
}
use rusnmp.Prelude.{
  List, length, length-take, length-drop, take, drop, get_elem?-lt, Bool-cases, inl, inr,
}
use rusnmp.Prelude.{ltb, leb, ◌==◌, if◌then◌else◌, shl_or, bit_and, and_mask_7}
use rusnmp.Error.{
  Outcome, ok, err, panicked, out_of_fuel, decode, unexpected_end, length_overflow, data_too_short,
}
use rusnmp.Run.{pure, ◌>>=◌}
use rusnmp.Codec.Decoder.{
  BerDecoder, read_tag, length_loop, read_long_length, read_length, read_raw, read_tlv,
  read_sequence, read_integer, read_octet_string, read_oid, read_value, decode_oid, value_of,
}
use rusnmp.Codec.Tags.{tag_sequence, tag_integer, tag_octet_string, tag_oid}
use rusnmp.Codec.Totality.{decode_oid_cases}
use rusnmp.Codec.Decoder.Guarded.{
  IsValid, Post, Guarded, Any, Guarded-pure, Guarded-weaken, Guarded-fail, Guarded-lift, Guarded-if,
  Guarded-bind,
}

module _ {A : Type 0} {n : ℕ} {Q : A → Type 0} {d : BerDecoder} where
  Post-stay :
      (x : Outcome A) → IsValid d → x ≢ out_of_fuel → ((a : A) → x ≢ ok a) → Post n Q d (x, d)
  Post-stay x v h k = record {
    same = refl;
    inside = v.inside;
    forward = omega arith;
    progress = λ a e. absurd (k a e);
    value = λ a e. absurd (k a e);
    ends = h;
  }

  Post-move :
      (a : A) (k : ℕ)
      → Q a
      → d.pos + n ≤ k
      → k ≤ length d.bytes
      → Post n Q d (ok a, record d { pos = k })
  Post-move a k h le fits = record {
    same = refl;
    inside = fits;
    forward = omega arith;
    progress = λ _ e. le;
    value = λ b e. subst Q (cc) h;
    ends = λ e. cc;
  }

pub Guarded-read_tag : Guarded 1 Any read_tag
unfolding read_tag
Guarded-read_tag = record {
  at = λ d v. elim (Bool-cases (leb (length d.bytes) d.pos)) [
    | inl e ↦
        let stuck : read_tag d ≡ (err (decode unexpected_end), d) = ground arith in
        subst (Post 1 Any d) (sym stuck) (Post-stay _ v (λ x. cc) (λ a x. cc))
    | inr e ↦
        let (b, at) = get_elem?-lt d.pos d.bytes (ground arith) in
        let moved : read_tag d ≡ (ok b, record d { pos = d.pos + 1 }) =
          ground (arith, at, v.small, v.inside) in
        subst (Post 1 Any d) (sym moved) (Post-move b (d.pos + 1) tt (omega arith) (ground arith))
  ];
}

length_loop-ok :
    (left i len : ℕ) (d : BerDecoder)
    → IsValid d
    → d.pos + i + left ≤ length d.bytes
    → (v : ℕ) × (length_loop left i len d ≡ (ok v, d))
unfolding length_loop
length_loop-ok zero i len d v h = (len, refl)
length_loop-ok (suc left) i len d v h =
    let (b, at) = get_elem?-lt (d.pos + i) d.bytes (omega arith) in
    let (w, rest) = length_loop-ok left (i + 1) (shl_or 64 8 len b) d v (omega arith) in
    (w, ground (arith, at, rest, v.small))

Guarded-read_long_length : (n : ℕ) → n < 128 → Guarded 0 Any (read_long_length n)
unfolding read_long_length
Guarded-read_long_length n h = record {
  at = λ d v. elim (Bool-cases (ltb (length d.bytes) ((d.pos + n) % 2 ^ 64))) [
    | inl e ↦
        let stuck : read_long_length n d ≡ (err (decode length_overflow), d) = ground arith in
        subst (Post 0 Any d) (sym stuck) (Post-stay _ v (λ x. cc) (λ a x. cc))
    | inr e ↦
        let fits : d.pos + n ≤ length d.bytes = ground (arith, v.small, v.inside) in
        let (len, loop) = length_loop-ok n 0 0 d v (omega arith) in
        let moved : read_long_length n d ≡ (ok len, record d { pos = d.pos + n }) =
          ground (arith, loop, v.small) in
        subst (Post 0 Any d) (sym moved) (Post-move len (d.pos + n) tt (omega arith) fits)
  ];
}

-- The first length octet is read as a tag is.
read_length-read_tag : read_length ≡ (
    read_tag >>= λ first.
    if ltb first 0x80 then pure first else read_long_length (bit_and first 0x7F))
unfolding read_length read_tag
read_length-read_tag = fun_ext λ d. ground arith

pub Guarded-read_length : Guarded 1 Any read_length
Guarded-read_length = rw read_length-read_tag (
    Guarded-bind read_tag _ Guarded-read_tag λ first _.
      Guarded-if (ltb first 0x80) (Guarded-pure tt)
        (Guarded-read_long_length (bit_and first 0x7F) (omega (arith, and_mask_7 first))))

abbrev pub Small : List ℕ → Type 0
Small c = length c < 2 ^ 63

-- `read_raw` in plain arithmetic, for an index inside the slice and any length of 64 bits: it returns
-- the next `len` bytes and moves behind them if they are there, fails where it stands if they are not
-- and the end of the range fits 64 bits, and panics if that end does not fit.
pub read_raw_lem :
    (d : BerDecoder) (len : ℕ)
    → IsValid d
    → len < 2 ^ 64
    → read_raw len d ≡ (
        if leb (d.pos + len) (length d.bytes)
        then (ok (take len (drop d.pos d.bytes)), record d { pos = d.pos + len })
        else if ltb (d.pos + len) (2 ^ 64)
        then (err (decode data_too_short), d)
        else (panicked, d))
unfolding read_raw
read_raw_lem d len v h = ground (arith, v.small, v.inside)

-- Any length at all: the wrapped end of the range decides.
read_raw_cases :
    (d : BerDecoder) (len : ℕ)
    → IsValid d
    → (read_raw len d ≡ (err (decode data_too_short), d))
      ⊎ (read_raw len d ≡ (panicked, d))
      ⊎ ((k : ℕ) × (d.pos ≤ k)
          × (k ≤ length d.bytes)
          × (read_raw len d ≡ (ok (take (k - d.pos) (drop d.pos d.bytes)), record d { pos = k })))
unfolding read_raw
read_raw_cases d len v = elim (Bool-cases (ltb (length d.bytes) ((d.pos + len) % 2 ^ 64))) [
  | inl e ↦ inl (ground arith)
  | inr e ↦ elim (Bool-cases (ltb ((d.pos + len) % 2 ^ 64) d.pos)) [
    | inl f ↦ inr (inl (ground arith))
    | inr f ↦ inr (inr ((d.pos + len) % 2 ^ 64, ground arith, ground arith, ground arith))
  ]
]

pub Guarded-read_raw : (len : ℕ) → Guarded 0 Small (read_raw len)
Guarded-read_raw len = record {
  at = λ d v. elim (read_raw_cases d len v) [
    | inl e ↦ subst (Post 0 Small d) (sym e) (Post-stay _ v (λ x. cc) (λ a x. cc))
    | inr (inl e) ↦ subst (Post 0 Small d) (sym e) (Post-stay _ v (λ x. cc) (λ a x. cc))
    | inr (inr (k, le, fits, e)) ↦
        let part = take (k - d.pos) (drop d.pos d.bytes) in
        let small : length part < 2 ^ 63 = omega (
          arith,
          length-take (k - d.pos) (drop d.pos d.bytes),
          length-drop d.pos d.bytes,
          v.small,
        ) in
        subst (Post 0 Small d) (sym e) (Post-move part k small (omega arith) fits)
  ];
}

abbrev SmallContent : ℕ × List ℕ → Type 0
SmallContent p = Small p.1

pub Guarded-read_tlv : Guarded 1 SmallContent read_tlv
unfolding read_tlv
Guarded-read_tlv = Guarded-bind read_tag _ Guarded-read_tag λ tag _.
    Guarded-bind read_length _ (Guarded-weaken Guarded-read_length) λ len _.
      Guarded-bind (read_raw len) _ (Guarded-read_raw len) λ content small. Guarded-pure small

-- The decoder that `read_sequence` returns is valid too.
pub Guarded-read_sequence : Guarded 1 IsValid read_sequence
unfolding read_sequence
Guarded-read_sequence = Guarded-bind read_tag _ Guarded-read_tag λ tag _.
    Guarded-if (tag == tag_sequence)
      (Guarded-bind read_length _ (Guarded-weaken Guarded-read_length) λ len _.
        Guarded-bind (read_raw len) _ (Guarded-read_raw len)
          λ content small. Guarded-pure (record { small = small; inside = omega arith }))
      (Guarded-fail _)

pub Guarded-read_integer : Guarded 1 Any read_integer
unfolding read_integer
Guarded-read_integer =
    Guarded-bind read_tlv _ Guarded-read_tlv
      λ (tag, content) _. Guarded-if (tag == tag_integer) (Guarded-pure tt) (Guarded-fail _)

pub Guarded-read_octet_string : Guarded 1 Small read_octet_string
unfolding read_octet_string
Guarded-read_octet_string = Guarded-bind read_tlv _ Guarded-read_tlv λ (tag, content) small.
    Guarded-if (tag == tag_octet_string) (Guarded-pure small) (Guarded-fail _)

decode_oid-ends : (content : List ℕ) → decode_oid content ≢ out_of_fuel
decode_oid-ends content = elim (decode_oid_cases content) [
  | inl (oid, e) ↦ λ x. cc
  | inr e ↦ λ x. cc
]

pub Guarded-read_oid : Guarded 1 Any read_oid
unfolding read_oid
Guarded-read_oid = Guarded-bind read_tlv _ Guarded-read_tlv λ (tag, content) _.
    Guarded-if (tag == tag_oid) (Guarded-lift (decode_oid content) (decode_oid-ends content))
      (Guarded-fail _)

value_of-ends : (tag : ℕ) (content : List ℕ) → value_of tag content ≢ out_of_fuel
unfolding value_of
value_of-ends tag content = ground (arith, decode_oid_cases content)

pub Guarded-read_value : Guarded 1 Any read_value
unfolding read_value
Guarded-read_value =
    Guarded-bind read_tlv _ Guarded-read_tlv
      λ (tag, content) _. Guarded-lift (value_of tag content) (value_of-ends tag content)
