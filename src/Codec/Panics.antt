-- ===== src/Codec/Panics.antt =====
-- src/codec.rs: `read_raw` adds a length of up to 64 bits to the index without a check. A length
-- near 2 ^ 64 wraps the end of the range to a place before its start.
use rusnmp.Prelude.{
  ℕ, ◌+◌, ◌^◌, ◌≤◌, ◌<◌, ◌≡◌, refl, arith, List, [], ◌∷◌, ◌++◌, length, All, length-append,
}
use rusnmp.Prelude.{shl_or, shl_or_byte64}
use rusnmp.Prelude.Int.{IsByte}
use rusnmp.Error.{panicked, ok}
use rusnmp.Run.{eval}
use rusnmp.Codec.Tags.{tag_sequence}
use rusnmp.Codec.Decoder.{BerDecoder, new, fold64, read_tag, read_length, read_raw, read_sequence}
use rusnmp.Codec.Decoder.Reads.{Ahead, Ahead-advance}
use rusnmp.Codec.Decoder.Primitives.{Reads-read_tag, Reads-read_length_long}
use rusnmp.Codec.Decoder.Bounds.{read_raw_lem}
use rusnmp.Codec.Response.{decode_response}

fold64-lt : (bs : List ℕ) (acc : ℕ) → All IsByte bs → acc < 2 ^ 64 → fold64 acc bs < 2 ^ 64
fold64-lt [] acc h ha = ha
fold64-lt (b ∷ bs) acc h ha =
    fold64-lt bs (shl_or 64 8 acc b) h.1 (omega (arith, shl_or_byte64 acc b h.0))

-- A SEQUENCE whose eight length octets stand for at least 2 ^ 64 - 10.
abbrev pub huge_sequence : List ℕ → List ℕ → List ℕ
huge_sequence octets rest = tag_sequence ∷ (0x88 ∷ (octets ++ rest))

pub read_sequence-huge_sequence :
    (octets rest : List ℕ)
    → length octets ≡ 8
    → All IsByte octets
    → 2 ^ 64 ≤ 10 + fold64 0 octets
    → length (huge_sequence octets rest) < 2 ^ 63
    → (read_sequence (new (huge_sequence octets rest))).0 ≡ panicked
unfolding read_sequence
read_sequence-huge_sequence octets rest eight bytes huge small =
    ground (arith, tag_step, length_step, raw_step)
  where
    start : BerDecoder
    start = new (huge_sequence octets rest)

    whole : Ahead start (tag_sequence ∷ ((128 + length octets) ∷ (octets ++ rest)))
    whole = record { small = small; inside = omega arith; ahead = ground arith }

    tag_step : read_tag start ≡ (ok tag_sequence, record start { pos = 1 })
    tag_step = (Reads-read_tag tag_sequence).run start _ whole

    length_step :
        read_length (record start { pos = 1 }) ≡ (ok (fold64 0 octets), record start { pos = 10 })
    length_step = rw eight at (
        (Reads-read_length_long octets (omega arith)).run (record start { pos = 1 }) rest
          (Ahead-advance (tag_sequence ∷ []) whole))

    raw_step :
        read_raw (fold64 0 octets) (record start { pos = 10 })
        ≡ (panicked, record start { pos = 10 })
    raw_step = ground (
      arith,
      length-append octets rest,
      fold64-lt octets 0 bytes,
      read_raw_lem (record start { pos = 10 }) (fold64 0 octets)
          (record { small = small; inside = omega (arith, length-append octets rest) }),
    )

-- A datagram of fewer than 2 ^ 63 bytes that begins with a SEQUENCE tag and eight length octets
-- for 2 ^ 64 - 10 or more panics `decode_response`, whatever follows.
pub decode_response-huge_sequence :
    (octets rest : List ℕ)
    → length octets ≡ 8
    → All IsByte octets
    → 2 ^ 64 ≤ 10 + fold64 0 octets
    → length (huge_sequence octets rest) < 2 ^ 63
    → decode_response (huge_sequence octets rest) ≡ panicked
unfolding decode_response
decode_response-huge_sequence octets rest eight bytes huge small =
    rw (read_sequence-huge_sequence octets rest eight bytes huge small, eval) refl
