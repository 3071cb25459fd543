-- ===== src/Types/Text/Examples.antt =====
-- src/types.rs: the text functions on concrete texts.
use rusnmp.Prelude.{ℕ, suc, List, [], ◌∷◌, length, ◌≡◌, ◌↔◌, All, none, some, refl, arith}
use rusnmp.Types.{Oid, octet_string}
use rusnmp.Types.Text.{trim_start_dots, from_str, display, debug, as_str}
use rusnmp.Prelude.Int.{IsU32}
use rusnmp.Types.Text.Dotted.{dots, from_str-display, from_str-dots}
use rusnmp.Types.Text.Utf8Bytes.{IsUtf8, as_str-IsUtf8}

abbrev sys_descr : Oid
sys_descr = record { components = 1 ∷ 3 ∷ 6 ∷ 1 ∷ 2 ∷ 1 ∷ 1 ∷ 1 ∷ 0 ∷ [] }

from_str-display_example : from_str (46 ∷ display sys_descr) ≡ some sys_descr
from_str-display_example = from_str-display sys_descr 1 (λ e. cc) (ground arith)

-- ".1.+36".
abbrev text_taken : List ℕ
text_taken = 46 ∷ 49 ∷ 46 ∷ 43 ∷ 51 ∷ 54 ∷ []

from_str-dots_example :
    (length {A = ℕ} (1 ∷ 36 ∷ []) ≡ suc (dots (trim_start_dots text_taken)))
    × All IsU32 (1 ∷ 36 ∷ [])
from_str-dots_example =
    from_str-dots text_taken (record { components = 1 ∷ 36 ∷ [] }) (unfold from_str in refl)

-- "aé€" and a face of four bytes.
abbrev four_widths : List ℕ
four_widths = 97 ∷ 0xC3 ∷ 0xA9 ∷ 0xE2 ∷ 0x82 ∷ 0xAC ∷ 0xF0 ∷ 0x9F ∷ 0x98 ∷ 0x80 ∷ []

as_str-IsUtf8_example :
    (as_str (octet_string four_widths) ≡ some four_widths)
    ↔ ((four_widths ≡ four_widths) × IsUtf8 four_widths)
as_str-IsUtf8_example = as_str-IsUtf8 four_widths four_widths

as_str-four_widths : as_str (octet_string four_widths) ≡ some four_widths
unfolding as_str
as_str-four_widths = refl

-- An overlong slash and a surrogate.
as_str-overlong : as_str (octet_string (0xC0 ∷ 0xAF ∷ [])) ≡ none
unfolding as_str
as_str-overlong = refl

as_str-surrogate : as_str (octet_string (0xED ∷ 0xA0 ∷ 0x80 ∷ [])) ≡ none
unfolding as_str
as_str-surrogate = refl

display-sys_descr :
    display sys_descr
    ≡ 49 ∷ 46 ∷ 51 ∷ 46 ∷ 54 ∷ 46 ∷ 49 ∷ 46 ∷ 50 ∷ 46 ∷ 49 ∷ 46 ∷ 49 ∷ 46 ∷ 49 ∷ 46 ∷ 48 ∷ []
unfolding display
display-sys_descr = refl

debug-short :
    debug (record { components = 0 ∷ 4294967295 ∷ [] })
    ≡ 79 ∷ 105 ∷ 100 ∷ 40 ∷ 48 ∷ 46 ∷ 52 ∷ 50 ∷ 57 ∷ 52 ∷ 57 ∷ 54 ∷ 55 ∷ 50 ∷ 57 ∷ 53 ∷ 41 ∷ []
unfolding debug
debug-short = refl

-- The identifier without components prints as the empty text, which is not taken.
from_str-empty : from_str (display (record { components = [] })) ≡ none
unfolding from_str display
from_str-empty = refl

-- "4294967296", "1..3" and "1.".
from_str-overflow : from_str (52 ∷ 50 ∷ 57 ∷ 52 ∷ 57 ∷ 54 ∷ 55 ∷ 50 ∷ 57 ∷ 54 ∷ []) ≡ none
unfolding from_str
from_str-overflow = refl

from_str-two_dots : from_str (49 ∷ 46 ∷ 46 ∷ 51 ∷ []) ≡ none
unfolding from_str
from_str-two_dots = refl

from_str-last_dot : from_str (49 ∷ 46 ∷ []) ≡ none
unfolding from_str
from_str-last_dot = refl
