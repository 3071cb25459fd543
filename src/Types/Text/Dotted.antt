-- ===== src/Types/Text/Dotted.antt =====
-- src/types.rs: `Oid::from_str` and the `Display` of `Oid`.
use rusnmp.Prelude.{
  ℕ, zero, suc, ◌≡◌, ◌≢◌, ◌∙◌, refl, sym, ap, arith, List, [], ◌∷◌, ◌++◌, append-nil, subst, map,
  length, replicate, All, Option, none, some, ◌==◌, if◌then◌else◌,
}
use rusnmp.Prelude.Int.{IsU32}
use rusnmp.Types.{Oid}
use rusnmp.Types.Text.{
  dot, trim_start_dots, push_front, split_dots, parse_u32, parse_parts, from_str, decimal,
  join_dots, display,
}
use rusnmp.Types.Text.Decimal.{IsDigit, decimal-Digits, parse_u32-decimal, parse_u32-IsU32}

-- A part, and no dot in it.
abbrev NoDot : List ℕ → Type 0
NoDot = All (λ b. b ≢ dot)

digits-NoDot : (bytes : List ℕ) → All IsDigit bytes → NoDot bytes
digits-NoDot [] h = tt
digits-NoDot (b ∷ bytes) (d, h) = (λ e. omega arith, digits-NoDot bytes h)

-- A part in front of the first one.
abbrev prepend : List ℕ → List (List ℕ) → List (List ℕ)
prepend [] parts = parts
prepend (b ∷ bytes) parts = push_front b (prepend bytes parts)

prepend-cons :
    (bytes part : List ℕ) (parts : List (List ℕ))
    → prepend bytes (part ∷ parts) ≡ (bytes ++ part) ∷ parts
prepend-cons [] part parts = refl
prepend-cons (b ∷ bytes) part parts = ap (push_front b) (prepend-cons bytes part parts)

split_dots-append :
    (bytes s : List ℕ) → NoDot bytes → split_dots (bytes ++ s) ≡ prepend bytes (split_dots s)
unfolding split_dots
split_dots-append [] s h = refl
split_dots-append (b ∷ bytes) s (n, h) = ground (arith, split_dots-append bytes s h)

split_dots-dot : (s : List ℕ) → split_dots (dot ∷ s) ≡ [] ∷ split_dots s
unfolding split_dots
split_dots-dot s = ground arith

-- Splitting a join gives the parts back.
split_dots-join_dots :
    (part : List ℕ) (parts : List (List ℕ))
    → All NoDot (part ∷ parts)
    → split_dots (join_dots (part ∷ parts)) ≡ part ∷ parts
unfolding join_dots
split_dots-join_dots part [] (h, _) =
    ap split_dots (sym (append-nil part))
    ∙ split_dots-append part [] h
    ∙ unfold split_dots in prepend-cons part [] [] ∙ ap (λ t. t ∷ []) (append-nil part)
split_dots-join_dots part (next ∷ parts) (h, hs) =
    split_dots-append part (dot ∷ join_dots (next ∷ parts)) h
    ∙ ap (prepend part) (split_dots-dot (join_dots (next ∷ parts)))
    ∙ prepend-cons part [] (split_dots (join_dots (next ∷ parts)))
    ∙ ap (λ t. t ∷ split_dots (join_dots (next ∷ parts))) (append-nil part)
    ∙ ap (λ t. part ∷ t) (split_dots-join_dots next parts hs)

decimal-NoDot : (n : ℕ) → NoDot (decimal n)
decimal-NoDot n =
    let d = decimal-Digits n in
    let rest : NoDot (d.rest ++ []) = rw append-nil (digits-NoDot d.rest d.tail) in
    subst NoDot (sym d.whole) (λ e. omega (arith, d.head.1), rest)

decimals-NoDot : (ns : List ℕ) → All NoDot (map decimal ns)
decimals-NoDot [] = tt
decimals-NoDot (n ∷ ns) = (decimal-NoDot n, decimals-NoDot ns)

parse_parts_cons :
    (part : List ℕ) (parts : List (List ℕ)) (n : ℕ) (ns : List ℕ)
    → parse_u32 part ≡ some n
    → parse_parts parts ≡ some ns
    → parse_parts (part ∷ parts) ≡ some (n ∷ ns)
unfolding parse_parts
parse_parts_cons part parts n ns e f = ground arith

parse_parts-decimals : (ns : List ℕ) → All IsU32 ns → parse_parts (map decimal ns) ≡ some ns
parse_parts-decimals [] h = unfold parse_parts in refl
parse_parts-decimals (n ∷ ns) (h, hs) =
    parse_parts_cons (decimal n) (map decimal ns) n ns (parse_u32-decimal n h)
      (parse_parts-decimals ns hs)

trim_start_dots-append :
    (k : ℕ) (b : ℕ) (s : List ℕ) → b ≢ dot → trim_start_dots (replicate k dot ++ b ∷ s) ≡ b ∷ s
unfolding trim_start_dots
trim_start_dots-append zero b s h = ground arith
trim_start_dots-append (suc k) b s h = ground (arith, trim_start_dots-append k b s h)

-- A join of decimal texts begins with a digit.
join_dots-first :
    (n : ℕ) (parts : List (List ℕ))
    → (b : ℕ) × (s : List ℕ) × (join_dots (decimal n ∷ parts) ≡ b ∷ s) × (b ≢ dot)
unfolding join_dots
join_dots-first n [] =
    let d = decimal-Digits n in (d.first, d.rest ++ [], d.whole, λ e. omega (arith, d.head.1))
join_dots-first n (next ∷ parts) =
    let d = decimal-Digits n in
    let more = dot ∷ join_dots (next ∷ parts) in
    (d.first, (d.rest ++ []) ++ more, ap (λ t. t ++ more) d.whole, λ e. omega (arith, d.head.1))

from_str_lem :
    (s t : List ℕ) (parts : List (List ℕ)) (ns : List ℕ)
    → trim_start_dots s ≡ t
    → split_dots t ≡ parts
    → parse_parts parts ≡ some ns
    → from_str s ≡ some (record { components = ns })
unfolding from_str
from_str_lem s t parts ns e f g = ground arith

-- The text of an identifier that has a component, all of them u32, comes back from `from_str` as the
-- identifier, with any number of dots before the text.
pub from_str-display :
    (oid : Oid) (k : ℕ)
    → oid.components ≢ []
    → All IsU32 oid.components
    → from_str (replicate k dot ++ display oid) ≡ some oid
unfolding display
from_str-display oid k some_component h = go oid.components some_component h
  where
    go :
        (ns : List ℕ)
        → ns ≢ []
        → All IsU32 ns
        → from_str (replicate k dot ++ join_dots (map decimal ns))
          ≡ some (record { components = ns })
    go [] none_there w = absurd (none_there refl)
    go (n ∷ ns) _ w =
        let (b, s, first, no_dot) = join_dots-first n (map decimal ns) in
        let text = join_dots (map decimal (n ∷ ns)) in
        from_str_lem (replicate k dot ++ text) text (map decimal (n ∷ ns)) (n ∷ ns)
          (ap (λ t. trim_start_dots (replicate k dot ++ t)) first
            ∙ trim_start_dots-append k b s no_dot
            ∙ sym first)
          (split_dots-join_dots (decimal n) (map decimal ns) (decimal-NoDot n, decimals-NoDot ns))
          (parse_parts-decimals (n ∷ ns) w)

-- The dots of a text.
abbrev pub dots : List ℕ → ℕ
dots [] = 0
dots (b ∷ bytes) = let rest = dots bytes in if b == dot then suc rest else rest

length-push_front :
    (b : ℕ) (parts : List (List ℕ)) → parts ≢ [] → length (push_front b parts) ≡ length parts
length-push_front b [] h = absurd (h refl)
length-push_front b (part ∷ parts) h = refl

split_dots-dots : (s : List ℕ) → length (split_dots s) ≡ suc (dots s)
unfolding split_dots
split_dots-dots [] = refl
split_dots-dots (b ∷ s) = ground (arith, split_dots-dots s, length-push_front b (split_dots s))

parse_parts-kept :
    (parts : List (List ℕ)) (ns : List ℕ)
    → parse_parts parts ≡ some ns
    → (length ns ≡ length parts) × All IsU32 ns
unfolding parse_parts
parse_parts-kept [] ns e = ground arith
parse_parts-kept (part ∷ parts) ns e =
    go (parse_u32 part) (parse_parts parts) refl refl (parse_parts-kept parts)
  where
    go :
        (v : Option ℕ) (vs : Option (List ℕ))
        → parse_u32 part ≡ v
        → parse_parts parts ≡ vs
        → ((ms : List ℕ) → parse_parts parts ≡ some ms → (length ms ≡ length parts) × All IsU32 ms)
        → (length ns ≡ suc (length parts)) × All IsU32 ns
    go none vs f g ih = ground arith
    go (some n) none f g ih = ground arith
    go (some n) (some ms) f g ih = ground (arith, ih ms g, parse_u32-IsU32 part n f)

-- A text that `from_str` takes, once the dots before it are gone, has one component more than dots,
-- all of them u32; so the identifier that it gives has a component.
pub from_str-dots :
    (s : List ℕ) (oid : Oid)
    → from_str s ≡ some oid
    → (length oid.components ≡ suc (dots (trim_start_dots s))) × All IsU32 oid.components
unfolding from_str
from_str-dots s oid e = let parts = split_dots (trim_start_dots s) in go (parse_parts parts) refl
  where
    go :
        (ns : Option (List ℕ))
        → parse_parts (split_dots (trim_start_dots s)) ≡ ns
        → (length oid.components ≡ suc (dots (trim_start_dots s))) × All IsU32 oid.components
    go none f = ground arith
    go (some ns) f =
        let kept = parse_parts-kept (split_dots (trim_start_dots s)) ns f in
        ground (arith, kept, split_dots-dots (trim_start_dots s))
