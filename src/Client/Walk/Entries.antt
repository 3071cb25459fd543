-- ===== src/Client/Walk/Entries.antt =====
-- The entries after an identifier, as a walk goes through them.
use rusnmp.Prelude.{
  ℕ, ◌≡◌, refl, sym, ap, ◌∙◌, arith, List, [], ◌∷◌, ◌++◌, true, false, All, Bool-cases, inl, inr,
  subst,
}
use rusnmp.Types.{VarBind}
use rusnmp.Client.Subtree.{is_exception}
use rusnmp.Client.Walk.Mib.{
  oid_ltb, later, IsAfter, IsSorted, oid_ltb_irrefl, oid_ltb_trans, oid_ltb_asym,
}

-- A value that an agent stores.
abbrev pub IsStored : VarBind → Type 0
IsStored vb = is_exception vb.value ≡ false

pub later-after :
    (current : List ℕ) (mib : List VarBind) → All (IsAfter current) (later current mib)
later-after current [] = tt
later-after current (vb ∷ mib) = elim (Bool-cases (oid_ltb current vb.oid.components)) [
  | inl e ↦ rw e (e, later-after current mib)
  | inr e ↦ rw e (later-after current mib)
]

pub later-All :
    (P : VarBind → Type 0) (current : List ℕ) (mib : List VarBind)
    → All P mib
    → All P (later current mib)
later-All P current [] h = tt
later-All P current (vb ∷ mib) h = elim (Bool-cases (oid_ltb current vb.oid.components)) [
  | inl e ↦ rw e (h.0, later-All P current mib h.1)
  | inr e ↦ rw e (later-All P current mib h.1)
]

pub later-IsSorted :
    (current : List ℕ) (mib : List VarBind) → IsSorted mib → IsSorted (later current mib)
later-IsSorted current [] h = tt
later-IsSorted current (vb ∷ mib) h = elim (Bool-cases (oid_ltb current vb.oid.components)) [
  | inl e ↦
      rw e (later-All (IsAfter vb.oid.components) current mib h.0, later-IsSorted current mib h.1)
  | inr e ↦ rw e (later-IsSorted current mib h.1)
]

-- All of what follows `y` follows what is before `y`.
IsAfter-All :
    (x y : List ℕ) (vbs : List VarBind)
    → oid_ltb x y ≡ true
    → All (IsAfter y) vbs
    → All (IsAfter x) vbs
IsAfter-All x y [] h k = tt
IsAfter-All x y (vb ∷ vbs) h k =
    (oid_ltb_trans x y vb.oid.components h k.0, IsAfter-All x y vbs h k.1)

later_all :
    (current : List ℕ) (vbs : List VarBind) → All (IsAfter current) vbs → later current vbs ≡ vbs
later_all current [] h = refl
later_all current (vb ∷ vbs) h = rw h.0 (ap (λ t. vb ∷ t) (later_all current vbs h.1))

All-at :
    (P : VarBind → Type 0) (xs : List VarBind) (y : VarBind) (ys : List VarBind)
    → All P (xs ++ y ∷ ys)
    → P y
All-at P [] y ys h = h.0
All-at P (x ∷ xs) y ys h = All-at P xs y ys h.1

later-head :
    (current : List ℕ) (x vb : VarBind) (mib more : List VarBind)
    → oid_ltb current x.oid.components ≡ true
    → All (IsAfter x.oid.components) mib
    → x ∷ later current mib ≡ vb ∷ more
    → later vb.oid.components (x ∷ mib) ≡ more
later-head current x vb mib more e h f =
    let same : x ≡ vb = cc in
    subst (λ y. later y.oid.components (x ∷ mib) ≡ more) same
      (rw (oid_ltb_irrefl x.oid.components) (
        later_all x.oid.components mib h
        ∙ sym (later_all current mib (IsAfter-All current x.oid.components mib e h))
        ∙ cc))

module _ (current : List ℕ) where
  later_skip :
      (x vb : VarBind) (mib front more : List VarBind)
      → All (IsAfter x.oid.components) mib
      → later current mib ≡ front ++ vb ∷ more
      → later vb.oid.components mib ≡ more
      → later vb.oid.components (x ∷ mib) ≡ more
  later_skip x vb mib front more h e ih =
      let after : IsAfter x.oid.components vb =
        All-at (IsAfter x.oid.components) front vb more
          (rw (← e) (later-All (IsAfter x.oid.components) current mib h)) in
      rw (oid_ltb_asym x.oid.components vb.oid.components after) ih

  -- The entries after an entry are those that follow it.
  pub later_from :
      (mib front : List VarBind) (vb : VarBind) (more : List VarBind)
      → IsSorted mib
      → later current mib ≡ front ++ vb ∷ more
      → later vb.oid.components mib ≡ more
  later_from [] [] vb more h e = cc
  later_from [] (x ∷ front) vb more h e = cc
  later_from (x ∷ mib) front vb more h e = elim (Bool-cases (oid_ltb current x.oid.components)) [
    | inl f ↦ starts front f (ground (arith, e, f)) λ rest. later_from mib rest vb more h.1
    | inr f ↦
        let g : later current mib ≡ front ++ vb ∷ more = ground (arith, e, f) in
        later_skip x vb mib front more h.0 g (later_from mib front vb more h.1 g)
  ]
    where
      starts :
          (front : List VarBind)
          → oid_ltb current x.oid.components ≡ true
          → x ∷ later current mib ≡ front ++ vb ∷ more
          → ((rest : List VarBind)
              → later current mib ≡ rest ++ vb ∷ more
              → later vb.oid.components mib ≡ more)
          → later vb.oid.components (x ∷ mib) ≡ more
      starts [] f g ih = later-head current x vb mib more f h.0 g
      starts (y ∷ front) f g ih =
          let next : later current mib ≡ front ++ vb ∷ more = cc in
          later_skip x vb mib front more h.0 next (ih front next)
