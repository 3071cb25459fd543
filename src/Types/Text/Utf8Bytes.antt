-- ===== src/Types/Text/Utf8Bytes.antt =====
-- src/types.rs: the bytes that `Value::as_str` takes, read back as characters.
use rusnmp.Prelude.{
  ℕ, zero, suc, ◌+◌, ◌-◌, ◌*◌, ◌≤◌, ◌<◌, ◌≡◌, ◌⊎◌, ◌∙◌, ◌↔◌, inl, inr, refl, sym, ap, arith, List,
  [], ◌∷◌, ◌++◌, length, length-append, All, Option, none, some, true, Bool-cases,
}
use rusnmp.Types.{octet_string}
use rusnmp.Types.Text.{utf8_lead, utf8_loop, as_str}
use rusnmp.Types.Text.Utf8.{
  one_byte, lead_step, IsScalar, encode_char, encode_utf8, valid, low3, high3, low4, high4, lead3,
  lead4, valid-encode_utf8,
}

lead_back :
    (b : ℕ) (bytes : List ℕ)
    → valid (b ∷ bytes) ≡ true
    → (left : ℕ) × (low : ℕ) × (high : ℕ) × (utf8_lead b ≡ some (left, low, high))
      × (utf8_loop left low high bytes ≡ true)
unfolding utf8_loop
lead_back b bytes e = go (utf8_lead b) refl
  where
    go :
        (r : Option (ℕ × ℕ × ℕ))
        → utf8_lead b ≡ r
        → (left : ℕ) × (low : ℕ) × (high : ℕ) × (utf8_lead b ≡ some (left, low, high))
          × (utf8_loop left low high bytes ≡ true)
    go none f = ground arith
    go (some (left, low, high)) f = (left, low, high, f, ground arith)

next_back :
    (left low high : ℕ) (bytes : List ℕ)
    → utf8_loop (suc left) low high bytes ≡ true
    → (b : ℕ) × (rest : List ℕ) × (bytes ≡ b ∷ rest)
      × (low ≤ b)
      × (b ≤ high)
      × (utf8_loop left 0x80 0xBF rest ≡ true)
unfolding utf8_loop
next_back left low high [] e = cc
next_back left low high (b ∷ rest) e = (b, rest, refl, ground arith, ground arith, ground arith)

encode2 :
    (b b2 : ℕ)
    → 0xC2 ≤ b
    → b ≤ 0xDF
    → 0x80 ≤ b2
    → b2 ≤ 0xBF
    → let c = (b - 0xC0) * 64 + (b2 - 0x80) in IsScalar c × (encode_char c ≡ b ∷ b2 ∷ [])
encode2 b b2 h k h2 k2 = (ground arith, ground arith)

encode3 :
    (b b2 b3 : ℕ)
    → 0xE0 ≤ b
    → b ≤ 0xEF
    → low3 b ≤ b2
    → b2 ≤ high3 b
    → 0x80 ≤ b3
    → b3 ≤ 0xBF
    → let c = (b - 0xE0) * 4096 + (b2 - 0x80) * 64 + (b3 - 0x80) in
      IsScalar c × (encode_char c ≡ b ∷ b2 ∷ b3 ∷ [])
encode3 b b2 b3 h k h2 k2 h3 k3 = (ground arith, ground arith)

encode4 :
    (b b2 b3 b4 : ℕ)
    → 0xF0 ≤ b
    → b ≤ 0xF4
    → low4 b ≤ b2
    → b2 ≤ high4 b
    → 0x80 ≤ b3
    → b3 ≤ 0xBF
    → 0x80 ≤ b4
    → b4 ≤ 0xBF
    → let c = (b - 0xF0) * 262144 + (b2 - 0x80) * 4096 + (b3 - 0x80) * 64 + (b4 - 0x80) in
      IsScalar c × (encode_char c ≡ b ∷ b2 ∷ b3 ∷ b4 ∷ [])
encode4 b b2 b3 b4 h k h2 k2 h3 k3 h4 k4 = (ground arith, ground arith)

lead_kind :
    (b : ℕ)
    → (b < 0x80)
      ⊎ ((0xC2 ≤ b) × (b ≤ 0xDF))
      ⊎ ((0xE0 ≤ b) × (b ≤ 0xEF))
      ⊎ ((0xF0 ≤ b) × (b ≤ 0xF4))
      ⊎ (utf8_lead b ≡ none)
unfolding utf8_lead
lead_kind b = ground arith

-- The first character of accepted bytes.
record First (bytes : List ℕ) : Type 0 where
  char : ℕ
  rest : List ℕ
  scalar : IsScalar char
  whole : bytes ≡ encode_char char ++ rest
  more : valid rest ≡ true

first1 : (b : ℕ) (bytes : List ℕ) → b < 0x80 → valid (b ∷ bytes) ≡ true → First (b ∷ bytes)
first1 b bytes h e = record {
  char = b;
  rest = bytes;
  scalar = inl (omega arith);
  whole = ground arith;
  more = sym (one_byte b bytes h) ∙ e;
}

first2 :
    (b : ℕ) (bytes : List ℕ) → 0xC2 ≤ b → b ≤ 0xDF → valid (b ∷ bytes) ≡ true → First (b ∷ bytes)
first2 b bytes h k e =
    let start = lead_step b 1 0x80 0xBF bytes (unfold utf8_lead in ground arith) in
    let (b2, rest, front, low, high, more) = next_back 0 0x80 0xBF bytes (sym start ∙ e) in
    let (scalar, spelt) = encode2 b b2 h k low high in
    record {
      char = (b - 0xC0) * 64 + (b2 - 0x80);
      rest = rest;
      scalar = scalar;
      whole = ap (λ t. b ∷ t) front ∙ ap (λ t. t ++ rest) (sym spelt);
      more = more;
    }

first3 :
    (b : ℕ) (bytes : List ℕ) → 0xE0 ≤ b → b ≤ 0xEF → valid (b ∷ bytes) ≡ true → First (b ∷ bytes)
first3 b bytes h k e =
    let start = lead_step b 2 (low3 b) (high3 b) bytes (lead3 b h k) in
    let (b2, bytes2, front, low, high, e2) = next_back 1 (low3 b) (high3 b) bytes (sym start ∙ e) in
    let (b3, rest, front3, low', high', more) = next_back 0 0x80 0xBF bytes2 e2 in
    let (scalar, spelt) = encode3 b b2 b3 h k low high low' high' in
    record {
      char = (b - 0xE0) * 4096 + (b2 - 0x80) * 64 + (b3 - 0x80);
      rest = rest;
      scalar = scalar;
      whole = ap (λ t. b ∷ t) front ∙ ap (λ t. b ∷ b2 ∷ t) front3 ∙ ap (λ t. t ++ rest) (sym spelt);
      more = more;
    }

first4 :
    (b : ℕ) (bytes : List ℕ) → 0xF0 ≤ b → b ≤ 0xF4 → valid (b ∷ bytes) ≡ true → First (b ∷ bytes)
first4 b bytes h k e =
    let start = lead_step b 3 (low4 b) (high4 b) bytes (lead4 b h k) in
    let (b2, bytes2, front, low, high, e2) = next_back 2 (low4 b) (high4 b) bytes (sym start ∙ e) in
    let (b3, bytes3, front3, low', high', e3) = next_back 1 0x80 0xBF bytes2 e2 in
    let (b4, rest, front4, low'', high'', more) = next_back 0 0x80 0xBF bytes3 e3 in
    let (scalar, spelt) = encode4 b b2 b3 b4 h k low high low' high' low'' high'' in
    record {
      char = (b - 0xF0) * 262144 + (b2 - 0x80) * 4096 + (b3 - 0x80) * 64 + (b4 - 0x80);
      rest = rest;
      scalar = scalar;
      whole =
          ap (λ t. b ∷ t) front
          ∙ ap (λ t. b ∷ b2 ∷ t) front3
          ∙ ap (λ t. b ∷ b2 ∷ b3 ∷ t) front4
          ∙ ap (λ t. t ++ rest) (sym spelt);
      more = more;
    }

valid-First : (b : ℕ) (bytes : List ℕ) → valid (b ∷ bytes) ≡ true → First (b ∷ bytes)
valid-First b bytes e = elim (lead_kind b) [
  | inl h ↦ first1 b bytes h e
  | inr (inl (h, k)) ↦ first2 b bytes h k e
  | inr (inr (inl (h, k))) ↦ first3 b bytes h k e
  | inr (inr (inr (inl (h, k)))) ↦ first4 b bytes h k e
  | inr (inr (inr (inr none_there))) ↦
      let (left, low, high, f, _) = lead_back b bytes e in absurd (cc (none_there, f))
]

length-encode_char : (c : ℕ) → 1 ≤ length (encode_char c)
length-encode_char c = ground arith

-- The bytes are the encoding of some characters.
abbrev pub IsUtf8 : List ℕ → Type 0
IsUtf8 bytes = (chars : List ℕ) × All IsScalar chars × (bytes ≡ encode_utf8 chars)

valid-IsUtf8 : (fuel : ℕ) (bytes : List ℕ) → length bytes ≤ fuel → valid bytes ≡ true → IsUtf8 bytes
valid-IsUtf8 fuel [] h e = ([], tt, refl)
valid-IsUtf8 zero (b ∷ bytes) h e = absurd (omega arith)
valid-IsUtf8 (suc fuel) (b ∷ bytes) h e =
    let f = valid-First b bytes e in
    let shorter : length f.rest ≤ fuel = omega (
      arith,
      length-encode_char f.char,
      length-append (encode_char f.char) f.rest,
      ap (λ t. length t) f.whole,
    ) in
    let (chars, scalars, same) = valid-IsUtf8 fuel f.rest shorter f.more in
    (f.char ∷ chars, (f.scalar, scalars), f.whole ∙ ap (λ t. encode_char f.char ++ t) same)

-- `as_str` of an octet string returns its bytes if they are the UTF-8 encoding of characters, none of
-- them a surrogate or above 0x10FFFF, and nothing if they are not.
pub as_str-IsUtf8 :
    (bytes text : List ℕ)
    → (as_str (octet_string bytes) ≡ some text) ↔ ((text ≡ bytes) × IsUtf8 bytes)
unfolding as_str
as_str-IsUtf8 bytes text = (
  λ e. elim (Bool-cases (valid bytes)) [
    | inl v ↦ (ground arith, valid-IsUtf8 (length bytes) bytes (omega arith) v)
    | inr v ↦ absurd (ground arith)
  ],
  λ (same, utf8).
      let (chars, scalars, whole) = utf8 in
      let accepted : valid bytes ≡ true = ap valid whole ∙ valid-encode_utf8 chars scalars in
      ground (arith, accepted, same),
)
