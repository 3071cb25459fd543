-- ===== src/Client/Walk/Scans.antt =====
-- src/client.rs: the scan of an answer that holds entries of a sorted agent.
use rusnmp.Prelude.{
  ℕ, ◌≡◌, refl, sym, ap, ◌∙◌, arith, List, [], ◌∷◌, ◌++◌, true, false, not, All, Bool-cases, inl,
  inr, append_assoc, append-nil, foldl, ◌||◌,
}
use rusnmp.Types.{Oid, VarBind, end_of_mib_view}
use rusnmp.Client.Subtree.{leaves_subtree, is_exception, scan, IsUnder, leaves_subtree-false}
use rusnmp.Client.Walk.Mib.{oid_ltb, is_below, subtree, outside, IsAfter, IsSorted, is_below-gap}
use rusnmp.Client.Walk.Entries.{IsStored}

is_below-IsUnder : (root xs : List ℕ) → is_below root xs ≡ true → IsUnder root xs
is_below-IsUnder [] xs h = (xs, refl)
is_below-IsUnder (r ∷ root) [] h = cc
is_below-IsUnder (r ∷ root) (x ∷ xs) h =
    let (rest, e) = is_below-IsUnder root xs (ground arith) in (rest, ground arith)

oid_ltb-is_below :
    (root rest : List ℕ) → oid_ltb root (root ++ rest) ≡ true → is_below root (root ++ rest) ≡ true
oid_ltb-is_below [] [] h = cc
oid_ltb-is_below [] (x ∷ rest) h = refl
oid_ltb-is_below (r ∷ root) rest h = ground (arith, oid_ltb-is_below root rest)

leaves_subtree-is_below :
    (root c : List ℕ) → oid_ltb root c ≡ true → leaves_subtree root c ≡ not (is_below root c)
leaves_subtree-is_below root c h = elim (Bool-cases (is_below root c)) [
  | inl e ↦ (leaves_subtree-false root c).1 (is_below-IsUnder root c e) ∙ ap not (sym e)
  | inr e ↦ elim (Bool-cases (leaves_subtree root c)) [
    | inl f ↦ f ∙ ap not (sym e)
    | inr f ↦
        let (rest, g) = (leaves_subtree-false root c).0 f in
        absurd (cc (e, g, oid_ltb-is_below root rest (ap (oid_ltb root) (sym g) ∙ h)))
  ]
]

-- The entries of an agent, in order, all of them after the root.
pub record Entries (root : List ℕ) (vbs : List VarBind) : Type 0 where
  pub after : All (IsAfter root) vbs
  pub sorted : IsSorted vbs
  pub stored : All IsStored vbs

Entries-tail :
    (root : List ℕ) (vb : VarBind) (vbs : List VarBind) → Entries root (vb ∷ vbs) → Entries root vbs
Entries-tail root vb vbs h = record { after = h.after.1; sorted = h.sorted.1; stored = h.stored.1 }

pub Entries-back :
    (root : List ℕ) (xs ys : List VarBind) → Entries root (xs ++ ys) → Entries root ys
Entries-back root [] ys h = h
Entries-back root (x ∷ xs) ys h = Entries-back root xs ys (Entries-tail root x (xs ++ ys) h)

All-front : (P : VarBind → Type 0) (xs ys : List VarBind) → All P (xs ++ ys) → All P xs
All-front P [] ys h = tt
All-front P (x ∷ xs) ys h = (h.0, All-front P xs ys h.1)

IsSorted-front : (xs ys : List VarBind) → IsSorted (xs ++ ys) → IsSorted xs
IsSorted-front [] ys h = tt
IsSorted-front (x ∷ xs) ys h = (All-front _ xs ys h.0, IsSorted-front xs ys h.1)

pub Entries-front :
    (root : List ℕ) (xs ys : List VarBind) → Entries root (xs ++ ys) → Entries root xs
Entries-front root xs ys h = record {
  after = All-front _ xs ys h.after;
  sorted = IsSorted-front xs ys h.sorted;
  stored = All-front _ xs ys h.stored;
}

module _ (root : List ℕ) where
  subtree_none :
      (vb : VarBind) (vbs : List VarBind)
      → IsAfter root vb
      → is_below root vb.oid.components ≡ false
      → All (IsAfter vb.oid.components) vbs
      → subtree root vbs ≡ []
  subtree_none vb [] h k l = refl
  subtree_none vb (x ∷ vbs) h k l =
      rw (is_below-gap root vb.oid.components x.oid.components h k l.0)
        (subtree_none vb vbs h k l.1)

  pub subtree_all : (vbs : List VarBind) → outside root vbs ≡ false → subtree root vbs ≡ vbs
  subtree_all [] h = refl
  subtree_all (vb ∷ vbs) h = elim (Bool-cases (is_below root vb.oid.components)) [
    | inl e ↦ rw e (ap (λ t. vb ∷ t) (subtree_all vbs (ground (arith, e))))
    | inr e ↦ absurd (ground (arith, e))
  ]

  pub subtree-append :
      (xs ys : List VarBind) → subtree root (xs ++ ys) ≡ subtree root xs ++ subtree root ys
  subtree-append [] ys = refl
  subtree-append (x ∷ xs) ys = elim (Bool-cases (is_below root x.oid.components)) [
    | inl e ↦ rw e (ap (λ t. x ∷ t) (subtree-append xs ys))
    | inr e ↦ rw e (subtree-append xs ys)
  ]

  pub outside-append :
      (xs ys : List VarBind) → outside root (xs ++ ys) ≡ (outside root xs || outside root ys)
  outside-append [] ys = refl
  outside-append (x ∷ xs) ys = ground (arith, outside-append xs ys)

  scan_step :
      (vb : VarBind) (vbs : List VarBind) (current : Oid) (results : List VarBind)
      → IsAfter root vb
      → IsStored vb
      → is_below root vb.oid.components ≡ true
      → scan root (vb ∷ vbs) current results ≡ scan root vbs vb.oid (results ++ vb ∷ [])
  unfolding scan
  scan_step vb vbs current results h k e =
      rw (leaves_subtree-is_below root vb.oid.components h, e, k) refl

  scan_stop :
      (vb : VarBind) (vbs : List VarBind) (current : Oid) (results : List VarBind)
      → IsAfter root vb
      → is_below root vb.oid.components ≡ false
      → scan root (vb ∷ vbs) current results
        ≡ record { done = true; current = current; results = results }
  unfolding scan
  scan_stop vb vbs current results h e =
      rw (leaves_subtree-is_below root vb.oid.components h, e) refl

  -- Entries below the root are taken, and the scan goes on behind them.
  pub scan_all :
      (vbs tail : List VarBind) (current : Oid) (results : List VarBind)
      → Entries root vbs
      → outside root vbs ≡ false
      → scan root (vbs ++ tail) current results
        ≡ scan root tail (foldl (λ at vb. vb.oid) current vbs) (results ++ vbs)
  scan_all [] tail current results h e = ap (scan root tail current) (sym (append-nil results))
  scan_all (vb ∷ vbs) tail current results h e =
      elim (Bool-cases (is_below root vb.oid.components)) [
        | inl f ↦
            scan_step vb (vbs ++ tail) current results h.after.0 h.stored.0 f
            ∙ scan_all vbs tail vb.oid (results ++ vb ∷ []) (Entries-tail root vb vbs h)
                (ground (arith, f))
            ∙ ap (scan root tail _) (append_assoc results (vb ∷ []) vbs)
        | inr f ↦ absurd (ground (arith, f))
      ]

  -- An entry that is not below the root ends the scan, and what is below the root stands before it.
  pub scan_some :
      (vbs tail : List VarBind) (current : Oid) (results : List VarBind)
      → Entries root vbs
      → outside root vbs ≡ true
      → let s = scan root (vbs ++ tail) current results in
        (s.done ≡ true) × (s.results ≡ results ++ subtree root vbs)
  scan_some [] tail current results h e = cc
  scan_some (vb ∷ vbs) tail current results h e =
      elim (Bool-cases (is_below root vb.oid.components)) [
        | inl f ↦
            let step = scan_step vb (vbs ++ tail) current results h.after.0 h.stored.0 f in
            let (done, taken) =
              scan_some vbs tail vb.oid (results ++ vb ∷ []) (Entries-tail root vb vbs h)
                (ground (arith, f)) in
            rw (step, f) (done, taken ∙ append_assoc results (vb ∷ []) (subtree root vbs))
        | inr f ↦
            let none = subtree_none vb vbs h.after.0 f h.sorted.0 in
            rw (scan_stop vb (vbs ++ tail) current results h.after.0 f, f, none)
              (refl, sym (append-nil results))
      ]

  pub scan_view :
      (vb : VarBind) (vbs : List VarBind) (current : Oid) (results : List VarBind)
      → vb.value ≡ end_of_mib_view
      → scan root (vb ∷ vbs) current results
        ≡ record { done = true; current = current; results = results }
  unfolding scan is_exception
  scan_view vb vbs current results e = elim (Bool-cases (leaves_subtree root vb.oid.components)) [
    | inl f ↦ rw f refl
    | inr f ↦ rw (f, e) refl
  ]

  pub subtree_past :
      (xs ys : List VarBind)
      → Entries root (xs ++ ys)
      → outside root xs ≡ true
      → subtree root (xs ++ ys) ≡ subtree root xs
  subtree_past [] ys h e = cc
  subtree_past (x ∷ xs) ys h e = elim (Bool-cases (is_below root x.oid.components)) [
    | inl f ↦ rw f (
        ap (λ t. x ∷ t) (subtree_past xs ys (Entries-tail root x (xs ++ ys) h) (ground (arith, f))))
    | inr f ↦ rw f (
        subtree_none x (xs ++ ys) h.after.0 f h.sorted.0
        ∙ sym (subtree_none x xs h.after.0 f (All-front _ xs ys h.sorted.0)))
  ]
