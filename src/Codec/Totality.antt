-- ===== src/Codec/Totality.antt =====
-- src/codec.rs: the decoders of contents on arbitrary bytes.
use rusnmp.Prelude.{ℕ, zero, suc, ◌≤◌, ◌≡◌, refl, ◌⊎◌, inl, inr, arith}
use rusnmp.Prelude.{List, [], ◌∷◌, ◌++◌, length, shl_or, bit_and, ◌==◌, Bool-cases}
use rusnmp.Error.{ok, err, decode, truncated_sub_id}
use rusnmp.Types.{Oid}
use rusnmp.Codec.Decoder.{read_sub_id, read_sub_ids, decode_oid}
use rusnmp.Codec.Oids.{read_sub_id_shorter}

read_sub_id_cases :
    (sub : ℕ) (src : List ℕ)
    → ((p : ℕ × List ℕ) × (read_sub_id sub src ≡ ok p))
      ⊎ (read_sub_id sub src ≡ err (decode truncated_sub_id))
unfolding read_sub_id
read_sub_id_cases sub [] = inr refl
read_sub_id_cases sub (b ∷ rest) = elim (Bool-cases (bit_and b 0x80 == 0)) [
  | inl e ↦ rw e (inl ((shl_or 32 7 sub (bit_and b 0x7F), rest), refl))
  | inr e ↦ rw e (read_sub_id_cases (shl_or 32 7 sub (bit_and b 0x7F)) rest)
]

read_sub_ids_cases :
    (fuel : ℕ) (components src : List ℕ)
    → length src ≤ fuel
    → ((oid : Oid) × (read_sub_ids fuel components src ≡ ok oid))
      ⊎ (read_sub_ids fuel components src ≡ err (decode truncated_sub_id))
unfolding read_sub_ids
read_sub_ids_cases fuel components [] h = inl (_, refl)
read_sub_ids_cases zero components (b ∷ rest) h = absurd (omega arith)
read_sub_ids_cases (suc fuel) components (b ∷ rest) h = elim (read_sub_id_cases 0 (b ∷ rest)) [
  | inl ((v, rest'), e) ↦ rw e (
      read_sub_ids_cases fuel (components ++ v ∷ []) rest'
        (omega (arith, read_sub_id_shorter 0 (b ∷ rest) e)))
  | inr e ↦ rw e (inr refl)
]

-- `decode_oid` answers on every input: an object identifier, or the error of a sub-identifier that
-- the contents cut off.
pub decode_oid_cases :
    (content : List ℕ)
    → ((oid : Oid) × (decode_oid content ≡ ok oid))
      ⊎ (decode_oid content ≡ err (decode truncated_sub_id))
unfolding decode_oid
decode_oid_cases [] = inl (_, refl)
decode_oid_cases (b ∷ rest) = read_sub_ids_cases (length rest) _ rest (omega arith)
