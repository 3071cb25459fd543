-- ===== src/Types/Text.antt =====
-- src/types.rs: the text functions of `Oid` and `Value`. A text is the list of its UTF-8 bytes.
pub mod Decimal
pub mod Utf8
pub mod Utf8Bytes
pub mod Dotted
mod Examples
use rusnmp.Prelude.{
  ℕ, zero, suc, ◌+◌, ◌-◌, ◌*◌, ◌/◌, ◌%◌, ◌^◌, List, [], ◌∷◌, ◌++◌, map, Option, none, some, Bool,
  true, false, ltb, leb, ◌==◌, ◌&&◌, if◌then◌else◌,
}
use rusnmp.Types.{Oid, Value, octet_string}

abbrev pub dot : ℕ
dot = 46

abbrev pub plus : ℕ
plus = 43

abbrev pub is_digit : ℕ → Bool
is_digit b = leb 48 b && leb b 57

-- The digits that `parse::<u32>` reads, with the number before them; an overflow is an error.
unfoldable pub parse_digits : ℕ → List ℕ → Option ℕ
parse_digits v [] = some v
parse_digits v (b ∷ bytes) =
    let next = v * 10 + (b - 48) in
    let rest = parse_digits next bytes in if is_digit b && ltb next (2 ^ 32) then rest else none

-- One plus sign may stand before the digits.
unfoldable pub parse_u32 : List ℕ → Option ℕ
unfolding parse_digits
parse_u32 [] = none
parse_u32 (b ∷ []) = parse_digits 0 (b ∷ [])
parse_u32 (b ∷ c ∷ bytes) =
    if b == plus then parse_digits 0 (c ∷ bytes) else parse_digits 0 (b ∷ c ∷ bytes)

unfoldable pub trim_start_dots : List ℕ → List ℕ
trim_start_dots [] = []
trim_start_dots (b ∷ bytes) =
    let rest = trim_start_dots bytes in if b == dot then rest else b ∷ bytes

-- One byte more in front of the first part.
abbrev pub push_front : ℕ → List (List ℕ) → List (List ℕ)
push_front b [] = (b ∷ []) ∷ []
push_front b (part ∷ parts) = (b ∷ part) ∷ parts

-- `split('.')`, which gives one part at least.
unfoldable pub split_dots : List ℕ → List (List ℕ)
split_dots [] = [] ∷ []
split_dots (b ∷ bytes) =
    let parts = split_dots bytes in if b == dot then [] ∷ parts else push_front b parts

-- `collect` on results.
unfoldable pub parse_parts : List (List ℕ) → Option (List ℕ)
unfolding parse_u32
parse_parts [] = some []
parse_parts (part ∷ parts) = elim (parse_u32 part) [
  | none ↦ none
  | some v ↦ elim (parse_parts parts) [ none ↦ none | some vs ↦ some (v ∷ vs) ]
]

-- `none` is the one error "invalid OID string".
unfoldable pub from_str : List ℕ → Option Oid
unfolding trim_start_dots split_dots parse_parts
from_str s = elim (parse_parts (split_dots (trim_start_dots s))) [
  | none ↦ none
  | some components ↦ some (record { components = components })
]

-- The digits of a number in front of `out`. A u32 has ten at most.
unfoldable pub decimal_loop : ℕ → ℕ → List ℕ → List ℕ
decimal_loop zero n out = out
decimal_loop (suc fuel) n out =
    let more = decimal_loop fuel (n / 10) ((48 + n % 10) ∷ out) in
    if ltb n 10 then (48 + n) ∷ out else more

-- `to_string` on u32.
unfoldable pub decimal : ℕ → List ℕ
unfolding decimal_loop
decimal n = decimal_loop 10 n []

-- `join(".")`.
unfoldable pub join_dots : List (List ℕ) → List ℕ
join_dots [] = []
join_dots (part ∷ []) = part
join_dots (part ∷ next ∷ parts) = part ++ dot ∷ join_dots (next ∷ parts)

unfoldable pub display : Oid → List ℕ
unfolding decimal join_dots
display oid = join_dots (map decimal oid.components)

-- "Oid(", the text of `Display` and ")".
unfoldable pub debug : Oid → List ℕ
unfolding display
debug oid = (79 ∷ 105 ∷ 100 ∷ 40 ∷ []) ++ display oid ++ 41 ∷ []

-- What may follow the first byte of a character: how many bytes, and the range of the next one.
unfoldable pub utf8_lead : ℕ → Option (ℕ × ℕ × ℕ)
utf8_lead b =
    if leb b 0x7F
    then some (0, 0x80, 0xBF)
    else if leb 0xC2 b && leb b 0xDF
    then some (1, 0x80, 0xBF)
    else if b == 0xE0
    then some (2, 0xA0, 0xBF)
    else if b == 0xED
    then some (2, 0x80, 0x9F)
    else if leb 0xE1 b && leb b 0xEF
    then some (2, 0x80, 0xBF)
    else if b == 0xF0
    then some (3, 0x90, 0xBF)
    else if leb 0xF1 b && leb b 0xF3
    then some (3, 0x80, 0xBF)
    else if b == 0xF4
    then some (3, 0x80, 0x8F)
    else none

-- `std::str::from_utf8`, in the middle of a character that wants `left` more bytes.
unfoldable pub utf8_loop : ℕ → ℕ → ℕ → List ℕ → Bool
unfolding utf8_lead
utf8_loop zero low high [] = true
utf8_loop (suc left) low high [] = false
utf8_loop zero low high (b ∷ bytes) = elim (utf8_lead b) [
  | none ↦ false
  | some (left, low', high') ↦ utf8_loop left low' high' bytes
]
utf8_loop (suc left) low high (b ∷ bytes) =
    let rest = utf8_loop left 0x80 0xBF bytes in if leb low b && leb b high then rest else false

unfoldable pub as_str : Value → Option (List ℕ)
unfolding utf8_loop
as_str (octet_string b) = if utf8_loop 0 0x80 0xBF b then some b else none
as_str _ = none
