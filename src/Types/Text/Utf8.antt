-- ===== src/Types/Text/Utf8.antt =====
-- src/types.rs: `Value::as_str`, and the UTF-8 encoding of characters as the standard describes it.
use rusnmp.Prelude.{
  ℕ, suc, ◌+◌, ◌/◌, ◌%◌, ◌≤◌, ◌<◌, ◌≡◌, ◌⊎◌, ◌∙◌, inl, inr, refl, arith, List, [], ◌∷◌, ◌++◌, All,
  some, Bool, true, Bool-cases, ltb, ◌==◌, if◌then◌else◌,
}
use rusnmp.Types.Text.{utf8_lead, utf8_loop}

-- A code point that is no surrogate.
abbrev pub IsScalar : ℕ → Type 0
IsScalar c = (c < 0xD800) ⊎ ((0xE000 ≤ c) × (c < 0x110000))

abbrev pub encode_char : ℕ → List ℕ
encode_char c =
    if ltb c 0x80
    then c ∷ []
    else if ltb c 0x800
    then (0xC0 + c / 64) ∷ (0x80 + c % 64) ∷ []
    else if ltb c 0x10000
    then (0xE0 + c / 4096) ∷ (0x80 + c / 64 % 64) ∷ (0x80 + c % 64) ∷ []
    else (0xF0 + c / 262144) ∷ (0x80 + c / 4096 % 64) ∷ (0x80 + c / 64 % 64) ∷ (0x80 + c % 64) ∷ []

abbrev pub encode_utf8 : List ℕ → List ℕ
encode_utf8 [] = []
encode_utf8 (c ∷ cs) = encode_char c ++ encode_utf8 cs

abbrev pub valid : List ℕ → Bool
valid = utf8_loop 0 0x80 0xBF

-- The steps of the loop.
pub lead_step :
    (b left low high : ℕ) (bytes : List ℕ)
    → utf8_lead b ≡ some (left, low, high)
    → valid (b ∷ bytes) ≡ utf8_loop left low high bytes
unfolding utf8_loop
lead_step b left low high bytes e = ground arith

next_step :
    (b left low high : ℕ) (bytes : List ℕ)
    → low ≤ b
    → b ≤ high
    → utf8_loop (suc left) low high (b ∷ bytes) ≡ utf8_loop left 0x80 0xBF bytes
unfolding utf8_loop
next_step b left low high bytes h k = ground arith

pub one_byte : (c : ℕ) (bytes : List ℕ) → c < 0x80 → valid (c ∷ bytes) ≡ valid bytes
one_byte c bytes h = lead_step c 0 0x80 0xBF bytes (unfold utf8_lead in ground arith)

two_bytes :
    (c : ℕ) (bytes : List ℕ)
    → 0x80 ≤ c
    → c < 0x800
    → valid ((0xC0 + c / 64) ∷ (0x80 + c % 64) ∷ bytes) ≡ valid bytes
two_bytes c bytes h k =
    lead_step (0xC0 + c / 64) 1 0x80 0xBF _ (unfold utf8_lead in ground arith)
    ∙ next_step (0x80 + c % 64) 0 0x80 0xBF bytes (omega arith) (omega arith)

-- The range of the second byte of three and of four, by the first.
abbrev pub low3 : ℕ → ℕ
low3 b = if b == 0xE0 then 0xA0 else 0x80

abbrev pub high3 : ℕ → ℕ
high3 b = if b == 0xED then 0x9F else 0xBF

abbrev pub low4 : ℕ → ℕ
low4 b = if b == 0xF0 then 0x90 else 0x80

abbrev pub high4 : ℕ → ℕ
high4 b = if b == 0xF4 then 0x8F else 0xBF

pub lead3 : (b : ℕ) → 0xE0 ≤ b → b ≤ 0xEF → utf8_lead b ≡ some (2, low3 b, high3 b)
unfolding utf8_lead
lead3 b h k = ground arith

pub lead4 : (b : ℕ) → 0xF0 ≤ b → b ≤ 0xF4 → utf8_lead b ≡ some (3, low4 b, high4 b)
unfolding utf8_lead
lead4 b h k = ground arith

three_bytes :
    (c : ℕ) (bytes : List ℕ)
    → IsScalar c
    → 0x800 ≤ c
    → c < 0x10000
    → valid ((0xE0 + c / 4096) ∷ (0x80 + c / 64 % 64) ∷ (0x80 + c % 64) ∷ bytes) ≡ valid bytes
three_bytes c bytes s h k =
    let b = 0xE0 + c / 4096 in
    lead_step b 2 (low3 b) (high3 b) _ (lead3 b (omega arith) (omega arith))
    ∙ next_step (0x80 + c / 64 % 64) 1 (low3 b) (high3 b) _ (ground arith) (ground arith)
    ∙ next_step (0x80 + c % 64) 0 0x80 0xBF bytes (omega arith) (omega arith)

four_bytes :
    (c : ℕ) (bytes : List ℕ)
    → 0x10000 ≤ c
    → c < 0x110000
    → valid (
        (0xF0 + c / 262144)
        ∷ (0x80 + c / 4096 % 64)
        ∷ (0x80 + c / 64 % 64)
        ∷ (0x80 + c % 64)
        ∷ bytes)
      ≡ valid bytes
four_bytes c bytes h k =
    let b = 0xF0 + c / 262144 in
    lead_step b 3 (low4 b) (high4 b) _ (lead4 b (omega arith) (omega arith))
    ∙ next_step (0x80 + c / 4096 % 64) 2 (low4 b) (high4 b) _ (ground arith) (ground arith)
    ∙ next_step (0x80 + c / 64 % 64) 1 0x80 0xBF _ (omega arith) (omega arith)
    ∙ next_step (0x80 + c % 64) 0 0x80 0xBF bytes (omega arith) (omega arith)

valid-encode_char :
    (c : ℕ) (bytes : List ℕ) → IsScalar c → valid (encode_char c ++ bytes) ≡ valid bytes
valid-encode_char c bytes h = elim (Bool-cases (ltb c 0x80)) [
  | inl e ↦ rw e (one_byte c bytes (ground arith))
  | inr e ↦ rw e (elim (Bool-cases (ltb c 0x800)) [
    | inl f ↦ rw f (two_bytes c bytes (ground arith) (ground arith))
    | inr f ↦ rw f (elim (Bool-cases (ltb c 0x10000)) [
      | inl g ↦ rw g (three_bytes c bytes h (ground arith) (ground arith))
      | inr g ↦ rw g (four_bytes c bytes (ground arith) (ground arith))
    ])
  ])
]

pub valid-encode_utf8 : (cs : List ℕ) → All IsScalar cs → valid (encode_utf8 cs) ≡ true
valid-encode_utf8 [] h = unfold utf8_loop in refl
valid-encode_utf8 (c ∷ cs) (h, hs) =
    valid-encode_char c (encode_utf8 cs) h ∙ valid-encode_utf8 cs hs
