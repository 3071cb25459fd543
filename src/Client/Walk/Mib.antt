-- ===== src/Client/Walk/Mib.antt =====
-- What `walk` is for: the entries of an agent, in the order of their identifiers, and the subtree.
use rusnmp.Prelude.{
  ℕ, ◌≡◌, refl, arith, List, [], ◌∷◌, Bool, true, false, not, ◌||◌, ◌&&◌, ltb, ◌==◌, if◌then◌else◌,
  All, Bool-cases, inl, inr,
}
use rusnmp.Types.{VarBind}

-- The lexicographic order.
abbrev pub oid_ltb : List ℕ → List ℕ → Bool
oid_ltb xs [] = false
oid_ltb [] (y ∷ ys) = true
oid_ltb (x ∷ xs) (y ∷ ys) = ltb x y || (x == y && oid_ltb xs ys)

-- An identifier that begins with the root and is longer.
abbrev pub is_below : List ℕ → List ℕ → Bool
is_below [] [] = false
is_below [] (x ∷ xs) = true
is_below (r ∷ root) [] = false
is_below (r ∷ root) (x ∷ xs) = r == x && is_below root xs

-- The entries after an identifier.
abbrev pub later : List ℕ → List VarBind → List VarBind
later current [] = []
later current (vb ∷ vbs) =
    let rest = later current vbs in if oid_ltb current vb.oid.components then vb ∷ rest else rest

-- The entries below the root.
abbrev pub subtree : List ℕ → List VarBind → List VarBind
subtree root [] = []
subtree root (vb ∷ vbs) =
    let rest = subtree root vbs in if is_below root vb.oid.components then vb ∷ rest else rest

-- Some entry is not below the root.
abbrev pub outside : List ℕ → List VarBind → Bool
outside root [] = false
outside root (vb ∷ vbs) = not (is_below root vb.oid.components) || outside root vbs

abbrev pub IsAfter : List ℕ → VarBind → Type 0
IsAfter current vb = oid_ltb current vb.oid.components ≡ true

-- Each entry stands before all that follow.
abbrev pub IsSorted : List VarBind → Type 0
IsSorted [] = Unit {0}
IsSorted (vb ∷ vbs) = All (IsAfter vb.oid.components) vbs × IsSorted vbs

pub oid_ltb_irrefl : (xs : List ℕ) → oid_ltb xs xs ≡ false
oid_ltb_irrefl [] = refl
oid_ltb_irrefl (x ∷ xs) = ground (arith, oid_ltb_irrefl xs)

pub oid_ltb_trans :
    (xs ys zs : List ℕ) → oid_ltb xs ys ≡ true → oid_ltb ys zs ≡ true → oid_ltb xs zs ≡ true
oid_ltb_trans xs ys [] h k = cc
oid_ltb_trans xs [] (z ∷ zs) h k = cc
oid_ltb_trans [] (y ∷ ys) (z ∷ zs) h k = refl
oid_ltb_trans (x ∷ xs) (y ∷ ys) (z ∷ zs) h k = ground (arith, oid_ltb_trans xs ys zs)

pub oid_ltb_asym : (xs ys : List ℕ) → oid_ltb xs ys ≡ true → oid_ltb ys xs ≡ false
oid_ltb_asym xs ys h = elim (Bool-cases (oid_ltb ys xs)) [
  | inl e ↦ absurd (cc (oid_ltb_trans xs ys xs h e, oid_ltb_irrefl xs))
  | inr e ↦ e
]

pub is_below-oid_ltb : (root xs : List ℕ) → is_below root xs ≡ true → oid_ltb root xs ≡ true
is_below-oid_ltb [] [] h = cc
is_below-oid_ltb [] (x ∷ xs) h = refl
is_below-oid_ltb (r ∷ root) [] h = cc
is_below-oid_ltb (r ∷ root) (x ∷ xs) h = ground (arith, is_below-oid_ltb root xs)

-- What follows an identifier after the root that is not below it is not below it either.
pub is_below-gap :
    (root xs ys : List ℕ)
    → oid_ltb root xs ≡ true
    → is_below root xs ≡ false
    → oid_ltb xs ys ≡ true
    → is_below root ys ≡ false
is_below-gap root [] ys h k l = cc
is_below-gap [] (x ∷ xs) ys h k l = cc
is_below-gap (r ∷ root) (x ∷ xs) [] h k l = refl
is_below-gap (r ∷ root) (x ∷ xs) (y ∷ ys) h k l = ground (arith, is_below-gap root xs ys)
