-- ===== src/Codec/Oids.antt =====
-- src/codec.rs: `encode_oid` against `decode_oid`, and the end of both loops of `decode_oid`.
use rusnmp.Prelude.{ℕ, zero, suc, ◌+◌, ◌*◌, ◌/◌, ◌%◌, ◌^◌, ◌≤◌, ◌<◌, ◌≡◌, refl, sym, ap, ◌∙◌, arith}
use rusnmp.Prelude.{List, [], ◌∷◌, ◌++◌, foldl, reverse, length, foldl-append}
use rusnmp.Prelude.{
  reverse-cons, append-nil, append_assoc, All, All-append, ◌==◌, if◌then◌else◌, ◌↔◌, Bool-cases,
  inl, inr, false,
}
use rusnmp.Prelude.{shl_or, bit_and, shl_or_septet, low_bits, top_bit, set_top_bit, and_mask_7}
use rusnmp.Prelude.Int.{IsU32}
use rusnmp.Error.{ok}
use rusnmp.Codec.Encoder.{septets, mark_septets, encode_sub_id, encode_oid}
use rusnmp.Codec.Decoder.{read_sub_id, read_sub_ids, decode_oid}

-- The number that septets stand for, highest first.
abbrev septets_value : ℕ → List ℕ → ℕ
septets_value = foldl (λ acc y. acc * 128 + y)

abbrev IsSeptet : ℕ → Type 0
IsSeptet y = y < 128

-- With fuel for every round the septets give the number back.
septets_value-septets : (fuel v : ℕ) → v ≤ fuel → septets_value 0 (reverse (septets fuel v)) ≡ v
unfolding septets
septets_value-septets zero v h = omega arith
septets_value-septets (suc fuel) v h = ground (
  arith,
  and_mask_7 v,
  reverse-cons (bit_and v 0x7F % 256) (septets fuel (v / 128)),
  foldl-append (λ (acc y : ℕ). acc * 128 + y) 0 (reverse (septets fuel (v / 128)))
      ((bit_and v 0x7F % 256) ∷ []),
  septets_value-septets fuel (v / 128),
)

reverse-IsSeptet : (fuel v : ℕ) → All IsSeptet (reverse (septets fuel v))
unfolding septets
reverse-IsSeptet zero v = tt
reverse-IsSeptet (suc fuel) v = elim (Bool-cases (v == 0)) [
  | inl e ↦ rw e tt
  | inr e ↦
      rw (e, reverse-cons)
        (All-append IsSeptet (reverse (septets fuel (v / 2 ^ 7))) _
          (reverse-IsSeptet fuel (v / 2 ^ 7)) (ground (arith, and_mask_7 v), tt))
]

le-septets_value : (acc : ℕ) (ys : List ℕ) → acc ≤ septets_value acc ys
le-septets_value acc [] = omega arith
le-septets_value acc (y ∷ ys) = omega (arith, le-septets_value (acc * 128 + y) ys)

-- The marked septets read back as their number, with whatever follows them left over.
read_sub_id-mark_septets :
    (ys : List ℕ) (y i total acc : ℕ) (rest : List ℕ)
    → total ≡ i + suc (length ys)
    → All IsSeptet (y ∷ ys)
    → septets_value acc (y ∷ ys) < 2 ^ 32
    → read_sub_id acc (mark_septets i total (y ∷ ys) ++ rest)
      ≡ ok (septets_value acc (y ∷ ys), rest)
unfolding read_sub_id mark_septets
read_sub_id-mark_septets [] y i total acc rest e h fits =
    ground (arith, low_bits y, top_bit y, shl_or_septet acc y)
read_sub_id-mark_septets (z ∷ ys) y i total acc rest e h fits = ground (
  arith,
  set_top_bit y,
  low_bits (y + 128),
  top_bit (y + 128),
  shl_or_septet acc y,
  le-septets_value (acc * 128 + y) (z ∷ ys),
  read_sub_id-mark_septets ys z (i + 1) total (acc * 128 + y) rest,
)

-- What `encode_sub_id` appends.
unfoldable pub sub_id_bytes : ℕ → List ℕ
sub_id_bytes v =
    let tmp = reverse (septets v v) in if v == 0 then 0 ∷ [] else mark_septets 0 (length tmp) tmp

encode_sub_id-append : (out : List ℕ) (v : ℕ) → encode_sub_id out v ≡ out ++ sub_id_bytes v
unfolding encode_sub_id sub_id_bytes
encode_sub_id-append out v = ground arith

-- A list of septets that stands for a positive number is not empty.
read_sub_id-reverse :
    (tmp : List ℕ) (v : ℕ) (rest : List ℕ)
    → septets_value 0 tmp ≡ v
    → All IsSeptet tmp
    → 0 < v
    → v < 2 ^ 32
    → read_sub_id 0 (mark_septets 0 (length tmp) tmp ++ rest) ≡ ok (v, rest)
read_sub_id-reverse [] v rest e h p fits = absurd (omega arith)
read_sub_id-reverse (y ∷ ys) v rest e h p fits =
    rw e at (read_sub_id-mark_septets ys y 0 (length (y ∷ ys)) 0 rest (omega arith) h (omega arith))

read_sub_id-sub_id_bytes :
    (v : ℕ) (rest : List ℕ) → IsU32 v → read_sub_id 0 (sub_id_bytes v ++ rest) ≡ ok (v, rest)
unfolding sub_id_bytes
read_sub_id-sub_id_bytes zero rest h = unfold read_sub_id in refl
read_sub_id-sub_id_bytes (suc n) rest h =
    let e : (suc n == 0) ≡ false = ground arith in
    rw e (
      read_sub_id-reverse (reverse (septets (suc n) (suc n))) (suc n) rest
        (septets_value-septets (suc n) (suc n) (omega arith)) (reverse-IsSeptet (suc n) (suc n))
        (omega arith) h)

-- Every u32 sub-identifier is read back, and nothing after it is touched.
pub read_sub_id-encode_sub_id :
    (v : ℕ) (rest : List ℕ) → IsU32 v → read_sub_id 0 (encode_sub_id [] v ++ rest) ≡ ok (v, rest)
read_sub_id-encode_sub_id v rest h = rw encode_sub_id-append (read_sub_id-sub_id_bytes v rest h)

-- A sub-identifier that is read takes a byte at least.
pub read_sub_id_shorter :
    (sub : ℕ) (src : List ℕ) {v : ℕ} {rest : List ℕ}
    → read_sub_id sub src ≡ ok (v, rest)
    → length rest < length src
unfolding read_sub_id
read_sub_id_shorter sub [] e = cc
read_sub_id_shorter sub (b ∷ src) {v} {rest} e =
    ground (arith, read_sub_id_shorter (shl_or 32 7 sub (bit_and b 0x7F)) src {v = v} {rest = rest})

abbrev subs_bytes : List ℕ → List ℕ
subs_bytes [] = []
subs_bytes (v ∷ vs) = sub_id_bytes v ++ subs_bytes vs

foldl-encode_sub_id : (subs out : List ℕ) → foldl encode_sub_id out subs ≡ out ++ subs_bytes subs
foldl-encode_sub_id [] out = sym (append-nil out)
foldl-encode_sub_id (v ∷ vs) out =
    foldl-encode_sub_id vs (encode_sub_id out v) ∙ rw (encode_sub_id-append, append_assoc)

read_sub_ids_step :
    (fuel : ℕ) (components src : List ℕ) {v : ℕ} {rest : List ℕ}
    → read_sub_id 0 src ≡ ok (v, rest)
    → read_sub_ids (suc fuel) components src ≡ read_sub_ids fuel (components ++ v ∷ []) rest
unfolding read_sub_ids
read_sub_ids_step fuel components [] e = unfold read_sub_id in cc
read_sub_ids_step fuel components (b ∷ bs) e = rw e

read_sub_ids-subs_bytes :
    (subs : List ℕ) (fuel : ℕ) (components : List ℕ)
    → All IsU32 subs
    → length (subs_bytes subs) ≤ fuel
    → read_sub_ids fuel components (subs_bytes subs)
      ≡ ok (record { components = components ++ subs })
read_sub_ids-subs_bytes [] fuel components h hf = rw append-nil (unfold read_sub_ids in refl)
read_sub_ids-subs_bytes (v ∷ vs) zero components (hv, hvs) hf = absurd (
    omega (
      arith,
      read_sub_id_shorter 0 (subs_bytes (v ∷ vs)) (read_sub_id-sub_id_bytes v (subs_bytes vs) hv),
    ))
read_sub_ids-subs_bytes (v ∷ vs) (suc fuel) components (hv, hvs) hf =
    let one = read_sub_id-sub_id_bytes v (subs_bytes vs) hv in
    read_sub_ids_step fuel components (subs_bytes (v ∷ vs)) one
    ∙ read_sub_ids-subs_bytes vs fuel (components ++ v ∷ []) hvs
        (omega (arith, read_sub_id_shorter 0 (subs_bytes (v ∷ vs)) one))
    ∙ ap (λ t. ok (record { components = t })) (append_assoc components (v ∷ []) vs)

-- The byte that the first two components share.
abbrev pub first_byte : ℕ → ℕ → ℕ
first_byte a b = (a * 40 + b) % 2 ^ 32 % 256

-- What comes back of any object identifier: the first two components are what their shared byte
-- gives, the others are as they were.
pub decode_oid-components :
    (a b : ℕ) (subs : List ℕ)
    → All IsU32 subs
    → decode_oid (encode_oid (record { components = a ∷ b ∷ subs }))
      ≡ ok (record { components = (first_byte a b / 40) ∷ (first_byte a b % 40) ∷ subs })
unfolding encode_oid decode_oid
decode_oid-components a b subs h =
    rw foldl-encode_sub_id (read_sub_ids-subs_bytes subs _ _ h (omega arith))

-- The first two components fit their shared byte.
abbrev pub IsPacked : ℕ → ℕ → Type 0
IsPacked a b = (b < 40) × (a * 40 + b < 256)

-- An object identifier of two or more components, the third and later ones u32, comes back from
-- its encoding exactly when the second is below 40 and 40 times the first plus the second is a
-- byte.
pub decode_oid-encode_oid_iff :
    (a b : ℕ) (subs : List ℕ)
    → All IsU32 subs
    → (decode_oid (encode_oid (record { components = a ∷ b ∷ subs }))
        ≡ ok (record { components = a ∷ b ∷ subs }))
      ↔ IsPacked a b
decode_oid-encode_oid_iff a b subs h = (
  λ e. ground (arith, decode_oid-components a b subs h),
  λ p. ground (arith, decode_oid-components a b subs h),
)

-- Fewer than two components are lost: the encoding is empty and reads back as no components.
decode_oid_short :
    (a : ℕ)
    → decode_oid (encode_oid (record { components = a ∷ [] })) ≡ ok (record { components = [] })
unfolding encode_oid decode_oid
decode_oid_short a = refl
