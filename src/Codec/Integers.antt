-- ===== src/Codec/Integers.antt =====
-- src/codec.rs: `encode_integer_bytes`, `encode_unsigned32` and `encode_unsigned64` against the
-- decoders of integers.
use rusnmp.Prelude.{ℕ, zero, suc, ◌+◌, ◌*◌, ◌/◌, ◌%◌, ◌^◌, ◌≤◌, ◌<◌, ◌≡◌, refl, ap, ◌∙◌, arith}
use rusnmp.Prelude.{List, [], ◌∷◌, length, length-append, foldl-append}
use rusnmp.Prelude.{shl_or_byte64, shl_or_byte32}
use rusnmp.Prelude.Int.{ℤ, pos, negsuc, IsI64, IsU32, IsU64, bits64, signed64, signed64-bits64}
use native.Mathlib.Nat.{pow-suc}
use rusnmp.Codec.Encoder.{
  to_be_bytes, strip_zeros, strip_ones, encode_integer_bytes, encode_unsigned32, from_first_nonzero,
  with_sign_byte, encode_unsigned64,
}
use rusnmp.Codec.Decoder.{
  fold64, fold32, sign_start, decode_integer, decode_unsigned32, decode_unsigned64,
}

-- Shifting in the bytes of a pattern moves the start value out by as many bytes.
fold64-to_be_bytes :
    (k u acc : ℕ)
    → u < 256 ^ k
    → acc < 2 ^ 64
    → fold64 acc (to_be_bytes k u) ≡ (acc * 256 ^ k + u) % 2 ^ 64
unfolding to_be_bytes
fold64-to_be_bytes zero u acc h ha = omega arith
fold64-to_be_bytes (suc k) u acc h ha = rw foldl-append (
    omega (
      arith,
      pow-suc 256 k,
      ap (λ (t : ℕ). acc * t) (pow-suc 256 k),
      shl_or_byte64 (fold64 acc (to_be_bytes k (u / 256))) (u % 256) (omega arith),
      fold64-to_be_bytes k (u / 256) acc (omega (arith, pow-suc 256 k)) ha,
    ))

fold32-to_be_bytes : (k u : ℕ) → u < 256 ^ k → fold32 0 (to_be_bytes k u) ≡ u % 2 ^ 32
unfolding to_be_bytes
fold32-to_be_bytes zero u h = omega arith
fold32-to_be_bytes (suc k) u h = rw foldl-append (
    omega (
      arith,
      pow-suc 256 k,
      shl_or_byte32 (fold32 0 (to_be_bytes k (u / 256))) (u % 256) (omega arith),
      fold32-to_be_bytes k (u / 256) (omega (arith, pow-suc 256 k)),
    ))

-- The redundant bytes in front do not change what is read.
decode_integer-strip_zeros : (bs : List ℕ) → decode_integer (strip_zeros bs) ≡ decode_integer bs
unfolding decode_integer strip_zeros
decode_integer-strip_zeros [] = refl
decode_integer-strip_zeros (a ∷ []) = refl
decode_integer-strip_zeros (a ∷ b ∷ rest) = ground (arith, decode_integer-strip_zeros (b ∷ rest))

decode_integer-strip_ones : (bs : List ℕ) → decode_integer (strip_ones bs) ≡ decode_integer bs
unfolding decode_integer strip_ones
decode_integer-strip_ones [] = refl
decode_integer-strip_ones (a ∷ []) = refl
decode_integer-strip_ones (a ∷ b ∷ rest) = ground (arith, decode_integer-strip_ones (b ∷ rest))

fold32-strip_zeros : (bs : List ℕ) → fold32 0 (strip_zeros bs) ≡ fold32 0 bs
unfolding strip_zeros
fold32-strip_zeros [] = refl
fold32-strip_zeros (a ∷ []) = refl
fold32-strip_zeros (a ∷ b ∷ rest) = ground (arith, fold32-strip_zeros (b ∷ rest))

fold64-from_first_nonzero : (bs : List ℕ) → fold64 0 (from_first_nonzero bs) ≡ fold64 0 bs
unfolding from_first_nonzero
fold64-from_first_nonzero [] = refl
fold64-from_first_nonzero (a ∷ []) = refl
fold64-from_first_nonzero (a ∷ b ∷ rest) = ground (arith, fold64-from_first_nonzero (b ∷ rest))

fold64-with_sign_byte : (bs : List ℕ) → fold64 0 (with_sign_byte bs) ≡ fold64 0 bs
unfolding with_sign_byte
fold64-with_sign_byte [] = refl
fold64-with_sign_byte (b ∷ rest) = ground arith

-- The sign that the decoder starts with does not matter where every start gives one result.
decode_integer-eq :
    (bs : List ℕ) (u : ℕ)
    → 0 < length bs
    → ((acc : ℕ) → acc < 2 ^ 64 → fold64 acc bs ≡ u)
    → decode_integer bs ≡ signed64 u
unfolding decode_integer
decode_integer-eq [] u h same = absurd (omega arith)
decode_integer-eq (b ∷ rest) u h same = ap (λ t. signed64 t) (same (sign_start b) (ground arith))

pub length-to_be_bytes : (k u : ℕ) → length (to_be_bytes k u) ≡ k
unfolding to_be_bytes
length-to_be_bytes zero u = refl
length-to_be_bytes (suc k) u = omega (
  arith,
  length-to_be_bytes k (u / 256),
  length-append (to_be_bytes k (u / 256)) ((u % 256) ∷ []),
)

-- Eight bytes leave nothing of the start.
decode_integer-to_be_bytes : (u : ℕ) → u < 2 ^ 64 → decode_integer (to_be_bytes 8 u) ≡ signed64 u
decode_integer-to_be_bytes u h =
    decode_integer-eq (to_be_bytes 8 u) u (omega (arith, length-to_be_bytes 8 u))
      λ acc ha. fold64-to_be_bytes 8 u acc h ha ∙ omega arith

-- Every i64 is read back from the bytes that are written for it.
pub decode_integer-encode_integer_bytes :
    (v : ℤ) → IsI64 v → decode_integer (encode_integer_bytes v) ≡ v
unfolding encode_integer_bytes
decode_integer-encode_integer_bytes (pos zero) h = unfold decode_integer in refl
decode_integer-encode_integer_bytes (pos (suc n)) h =
    decode_integer-strip_zeros _
    ∙ decode_integer-to_be_bytes _ (omega arith)
    ∙ signed64-bits64 (pos (suc n)) h
decode_integer-encode_integer_bytes (negsuc n) h =
    decode_integer-strip_ones _
    ∙ decode_integer-to_be_bytes _ (omega arith)
    ∙ signed64-bits64 (negsuc n) h

-- Every u32 is read back from the bytes that are written for it.
pub decode_unsigned32-encode_unsigned32 :
    (n : ℕ) → IsU32 n → decode_unsigned32 (encode_unsigned32 n) ≡ n
unfolding decode_unsigned32 encode_unsigned32 encode_integer_bytes
decode_unsigned32-encode_unsigned32 zero h = refl
decode_unsigned32-encode_unsigned32 (suc n) h =
    fold32-strip_zeros _ ∙ fold32-to_be_bytes 8 _ (omega arith) ∙ omega arith

-- Every u64 is read back, with the ninth byte that its sign may need.
pub decode_unsigned64-encode_unsigned64 :
    (n : ℕ) → IsU64 n → decode_unsigned64 (encode_unsigned64 n) ≡ n
unfolding decode_unsigned64 encode_unsigned64
decode_unsigned64-encode_unsigned64 zero h = refl
decode_unsigned64-encode_unsigned64 (suc n) h =
    fold64-with_sign_byte (from_first_nonzero (to_be_bytes 8 (suc n)))
    ∙ fold64-from_first_nonzero (to_be_bytes 8 (suc n))
    ∙ fold64-to_be_bytes 8 _ 0 h (omega arith)
    ∙ omega arith

length-strip_zeros : (bs : List ℕ) → length (strip_zeros bs) ≤ length bs
unfolding strip_zeros
length-strip_zeros [] = omega arith
length-strip_zeros (a ∷ []) = omega arith
length-strip_zeros (a ∷ b ∷ rest) = ground (arith, length-strip_zeros (b ∷ rest))

length-strip_ones : (bs : List ℕ) → length (strip_ones bs) ≤ length bs
unfolding strip_ones
length-strip_ones [] = omega arith
length-strip_ones (a ∷ []) = omega arith
length-strip_ones (a ∷ b ∷ rest) = ground (arith, length-strip_ones (b ∷ rest))

pub length-encode_integer_bytes : (v : ℤ) → length (encode_integer_bytes v) ≤ 8
unfolding encode_integer_bytes
length-encode_integer_bytes (pos zero) = omega arith
length-encode_integer_bytes (pos (suc n)) =
    let bs = to_be_bytes 8 (bits64 (pos (suc n))) in
    omega (arith, length-strip_zeros bs, length-to_be_bytes 8 (bits64 (pos (suc n))))
length-encode_integer_bytes (negsuc n) =
    let bs = to_be_bytes 8 (bits64 (negsuc n)) in
    omega (arith, length-strip_ones bs, length-to_be_bytes 8 (bits64 (negsuc n)))

length-from_first_nonzero : (bs : List ℕ) → length (from_first_nonzero bs) ≤ length bs
unfolding from_first_nonzero
length-from_first_nonzero [] = omega arith
length-from_first_nonzero (a ∷ []) = omega arith
length-from_first_nonzero (a ∷ b ∷ rest) = ground (arith, length-from_first_nonzero (b ∷ rest))

length-with_sign_byte : (bs : List ℕ) → length (with_sign_byte bs) ≤ length bs + 1
unfolding with_sign_byte
length-with_sign_byte [] = omega arith
length-with_sign_byte (b ∷ rest) = ground arith

pub length-encode_unsigned64 : (n : ℕ) → length (encode_unsigned64 n) ≤ 9
unfolding encode_unsigned64
length-encode_unsigned64 zero = omega arith
length-encode_unsigned64 (suc n) = omega (
  arith,
  length-with_sign_byte (from_first_nonzero (to_be_bytes 8 (suc n))),
  length-from_first_nonzero (to_be_bytes 8 (suc n)),
  length-to_be_bytes 8 (suc n),
)
