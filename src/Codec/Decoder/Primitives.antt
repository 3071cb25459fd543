-- ===== src/Codec/Decoder/Primitives.antt =====
-- The readers of `BerDecoder` on what the methods of `BerEncoder` append.
use rusnmp.Prelude.{ℕ, ◌+◌, ◌*◌, ◌/◌, ◌%◌, ◌^◌, ◌≤◌, ◌<◌, ◌≡◌, refl, arith}
use rusnmp.Prelude.{
  List, [], ◌∷◌, ◌++◌, length, drop, drop-drop, get_elem?-drop, take-append, length-append,
}
use native.Mathlib.Nat.{add-zero}
use rusnmp.Prelude.{ltb, leb, subst}
use rusnmp.Prelude.{shl_or, low_bits, shl_or_byte64}
use rusnmp.Error.{ok}
use rusnmp.Codec.Tags.{tag_sequence}
use rusnmp.Codec.Encoder.Appends.{length_octets, tlv, buf-write_length}
use rusnmp.Codec.Encoder.{write_length}
use rusnmp.Codec.Decoder.{
  BerDecoder, new, read_tag, length_loop, read_long_length, read_length, read_raw, read_tlv,
  read_sequence, fold64,
}
use rusnmp.Codec.Decoder.Reads.{
  Reads-run, Ahead-advance, Reads, advance, length-Ahead, Reads-if, Reads-bind, Reads-bind_last,
  Reads-pure,
}

pub Reads-read_tag : (t : ℕ) → Reads read_tag t (t ∷ [])
unfolding read_tag
Reads-read_tag t = record {
  run = λ d rest h.
      ground (arith, length-Ahead h, h.small, get_elem?-drop d.pos d.bytes t rest h.ahead);
}

pub Reads-read_raw : (c : List ℕ) → Reads (read_raw (length c)) c c
unfolding read_raw
Reads-read_raw c = record {
  run = λ d rest h.
      ground (arith, length-Ahead h, h.small, length-append c rest, h.ahead, take-append c rest);
}

-- The loop folds the bytes that stand from index `i` on.
length_loop-fold :
    (bs : List ℕ) (i len : ℕ) (d : BerDecoder) (rest : List ℕ)
    → length d.bytes < 2 ^ 63
    → d.pos + i + length bs ≤ length d.bytes
    → drop (d.pos + i) d.bytes ≡ bs ++ rest
    → length_loop (length bs) i len d ≡ (ok (fold64 len bs), d)
unfolding length_loop
length_loop-fold [] i len d rest small fits e = refl
length_loop-fold (b ∷ bs) i len d rest small fits e = ground (
  arith,
  get_elem?-drop (d.pos + i) d.bytes b (bs ++ rest) e,
  length_loop-fold bs (i + 1) (shl_or 64 8 len b) d rest,
  drop-drop (d.pos + i) 1 (d.pos + (i + 1)) d.bytes (omega arith),
)

-- The short form, and the long form with any number of octets below 128.
Reads-read_length_short : (n : ℕ) → n < 128 → Reads read_length n (n ∷ [])
unfolding read_length
Reads-read_length_short n lt = record {
  run = λ d rest h.
      ground (arith, length-Ahead h, h.small, get_elem?-drop d.pos d.bytes n rest h.ahead);
}

Reads-read_long_length : (bs : List ℕ) → Reads (read_long_length (length bs)) (fold64 0 bs) bs
unfolding read_long_length
Reads-read_long_length bs = record {
  run = λ d rest h. ground (
    arith,
    length-Ahead h,
    h.small,
    h.ahead,
    length-append bs rest,
    length_loop-fold bs 0 0 d rest,
    add-zero d.pos,
  );
}

pub Reads-read_length_long :
    (bs : List ℕ) → length bs < 128 → Reads read_length (fold64 0 bs) ((128 + length bs) ∷ bs)
unfolding read_length
Reads-read_length_long bs lt = record {
  run = λ d rest h.
      let first : ℕ = 128 + length bs in
      let after =
        (Reads-read_long_length bs).run (advance d 1) rest (Ahead-advance (first ∷ []) h) in
      ground (
        arith,
        length-Ahead h,
        h.small,
        get_elem?-drop d.pos d.bytes first (bs ++ rest) h.ahead,
        low_bits first,
        after,
      );
}

fold_one : (a : ℕ) → a < 256 → fold64 0 (a ∷ []) ≡ a
fold_one a h = omega (arith, shl_or_byte64 0 a h)

fold_two : (a b : ℕ) → a < 256 → b < 256 → fold64 0 (a ∷ b ∷ []) ≡ a * 256 + b
fold_two a b ha hb = omega (arith, fold_one a ha, shl_or_byte64 (fold64 0 (a ∷ [])) b hb)

fold_three :
    (a b c : ℕ) → a < 256 → b < 256 → c < 256 → fold64 0 (a ∷ b ∷ c ∷ []) ≡ a * 65536 + b * 256 + c
fold_three a b c ha hb hc =
    omega (arith, fold_two a b ha hb, shl_or_byte64 (fold64 0 (a ∷ b ∷ [])) c hc)

-- A value that is known only up to an equation.
Reads-long :
    (bs : List ℕ) {n : ℕ}
    → length bs < 128
    → fold64 0 bs ≡ n
    → Reads read_length n ((128 + length bs) ∷ bs)
Reads-long bs h e = rw e at (Reads-read_length_long bs h)

-- `read_length` reads back the low 24 bits of what `write_length` was given.
pub Reads-read_length_mod : (n : ℕ) → Reads read_length (n % 2 ^ 24) (length_octets n)
unfolding length_octets
Reads-read_length_mod n =
    Reads-if (ltb n 0x80)
      (λ e.
        subst (λ t. Reads read_length t ((n % 256) ∷ [])) (ground arith)
          (Reads-read_length_short (n % 256) (ground arith)))
      (λ _.
        Reads-if (leb n 0xFF)
          (λ e. Reads-long ((n % 256) ∷ []) (omega arith) (ground (arith, fold_one (n % 256))))
          (λ _.
            Reads-if (leb n 0xFFFF)
              (λ e.
                Reads-long ((n / 2 ^ 8 % 256) ∷ (n % 256) ∷ []) (omega arith)
                  (ground (arith, fold_two (n / 256 % 256) (n % 256))))
              (λ _.
                Reads-long ((n / 2 ^ 16 % 256) ∷ (n / 2 ^ 8 % 256) ∷ (n % 256) ∷ []) (omega arith)
                  (ground (arith, fold_three (n / 65536 % 256) (n / 256 % 256) (n % 256))))))

pub Reads-read_length : (n : ℕ) → n < 2 ^ 24 → Reads read_length n (length_octets n)
Reads-read_length n h =
    subst (λ t. Reads read_length t (length_octets n)) (omega arith) (Reads-read_length_mod n)

pub Reads-read_tlv : (t : ℕ) (c : List ℕ) → length c < 2 ^ 24 → Reads read_tlv (t, c) (tlv t c)
unfolding read_tlv
Reads-read_tlv t c h = Reads-bind _ (t ∷ []) (length_octets (length c) ++ c) (Reads-read_tag t) (
    Reads-bind _ (length_octets (length c)) c (Reads-read_length (length c) h)
      (Reads-bind_last _ c (Reads-read_raw c) (Reads-pure _)))

-- `read_sequence` enters the contents of what `write_sequence` appends.
pub Reads-read_sequence :
    (c : List ℕ) → length c < 2 ^ 24 → Reads read_sequence (new c) (tlv tag_sequence c)
unfolding read_sequence
Reads-read_sequence c h =
    Reads-bind _ (tag_sequence ∷ []) (length_octets (length c) ++ c) (Reads-read_tag tag_sequence) (
      Reads-bind _ (length_octets (length c)) c (Reads-read_length (length c) h)
        (Reads-bind_last _ c (Reads-read_raw c) (Reads-pure _)))

-- `read_length` on what `write_length` wrote, with any bytes behind it and fewer than 2 ^ 63 in
-- all, returns the length modulo 2 ^ 24 and stops right behind the length octets.
pub read_length-write_length :
    (n : ℕ) (rest : List ℕ)
    → let octets = (write_length n (record { buf = [] })).buf in
      length (octets ++ rest) < 2 ^ 63
      → read_length (new (octets ++ rest))
        ≡ (ok (n % 2 ^ 24), record { bytes = octets ++ rest; pos = length octets })
read_length-write_length n rest small =
    rw buf-write_length
      (Reads-run (length_octets n) rest (Reads-read_length_mod n) (rw buf-write_length at small))
