-- ===== src/Client/Subtree.antt =====
-- src/client.rs, lines 149 to 164: the scan of one answer in `walk`, which src/v3_client.rs repeats.
use rusnmp.Prelude.{
  ℕ, ◌≡◌, ◌↔◌, refl, sym, ap, ◌∙◌, append-nil, append_assoc, length-append, arith, List, [], ◌∷◌,
  ◌++◌, length, take, Bool, true, false, not, ◌||◌, ◌&&◌, ltb, ◌==◌, if◌then◌else◌, All, Bool-cases,
  inl, inr, ◌⊎◌, foldl,
}
use rusnmp.Types.{Oid, Value, VarBind, no_such_object, no_such_instance, end_of_mib_view}

-- Equality of u32 slices.
unfoldable pub same_components : List ℕ → List ℕ → Bool
same_components [] [] = true
same_components (x ∷ xs) (y ∷ ys) = x == y && same_components xs ys
same_components _ _ = false

unfoldable pub leaves_subtree : List ℕ → List ℕ → Bool
unfolding same_components
leaves_subtree root_prefix c =
    ltb (length c) (length root_prefix)
    || not (same_components (take (length root_prefix) c) root_prefix)

unfoldable pub is_exception : Value → Bool
is_exception no_such_object = true
is_exception no_such_instance = true
is_exception end_of_mib_view = true
is_exception _ = false

-- `done`, `current` and `results` after the loop over one answer.
pub record Scan : Type 0 where
  pub done : Bool
  pub current : Oid
  pub results : List VarBind

unfoldable pub scan : List ℕ → List VarBind → Oid → List VarBind → Scan
unfolding leaves_subtree is_exception
scan root_prefix [] current results = record { done = false; current = current; results = results }
scan root_prefix (vb ∷ vbs) current results =
    let stop : Scan = record { done = true; current = current; results = results } in
    if leaves_subtree root_prefix vb.oid.components
    then stop
    else if is_exception vb.value
    then stop
    else scan root_prefix vbs vb.oid (results ++ vb ∷ [])

-- A component list begins with the prefix.
abbrev pub IsUnder : List ℕ → List ℕ → Type 0
IsUnder root c = (rest : List ℕ) × (c ≡ root ++ rest)

abbrev pub IsException : Value → Type 0
IsException v = (v ≡ no_such_object) ⊎ (v ≡ no_such_instance) ⊎ (v ≡ end_of_mib_view)

-- What `walk` may return: under the root, and no exception value.
abbrev pub Belongs : List ℕ → VarBind → Type 0
Belongs root vb = IsUnder root vb.oid.components × (¬ IsException vb.value)

same_components-take :
    (root c : List ℕ) → same_components (take (length root) c) root ≡ true → IsUnder root c
unfolding same_components
same_components-take [] c h = (c, refl)
same_components-take (r ∷ root) [] h = cc
same_components-take (r ∷ root) (x ∷ c) h =
    let (rest, e) = same_components-take root c (ground arith) in (rest, ground arith)

take-same_components :
    (root rest : List ℕ) → same_components (take (length root) (root ++ rest)) root ≡ true
unfolding same_components
take-same_components [] rest = refl
take-same_components (r ∷ root) rest = ground (arith, take-same_components root rest)

-- The test of the code, with its two halves, is the test of a prefix.
pub leaves_subtree-false : (root c : List ℕ) → (leaves_subtree root c ≡ false) ↔ IsUnder root c
unfolding leaves_subtree
leaves_subtree-false root c = (
  λ h. same_components-take root c (ground arith),
  λ (rest, e). rw e (ground (arith, take-same_components root rest, length-append root rest)),
)

is_exception_iff : (v : Value) → (is_exception v ≡ true) ↔ IsException v
unfolding is_exception
is_exception_iff v = ground arith

-- The two parts of an answer and what the scan makes of them.
pub record Scanned (root : List ℕ) (vbs : List VarBind) (current : Oid) (results : List VarBind)
    (s : Scan) : Type 0 where
  pub taken : List VarBind
  pub left : List VarBind
  pub split : vbs ≡ taken ++ left
  pub appended : s.results ≡ results ++ taken
  pub belong : All (Belongs root) taken
  pub stopped :
      (s.done ≡ true)
      ↔ ((vb : VarBind) × (more : List VarBind) × (left ≡ vb ∷ more) × (¬ Belongs root vb))
  pub all_taken : s.done ≡ false → left ≡ []
  pub moved : s.current ≡ foldl (λ at vb. vb.oid) current taken

Scanned-stop :
    (root : List ℕ) (vb : VarBind) (vbs : List VarBind) (current : Oid) (results : List VarBind)
    → ¬ Belongs root vb
    → Scanned root
        (vb ∷ vbs)
        current
        results
        (record { done = true; current = current; results = results })
Scanned-stop root vb vbs current results out = record {
  taken = [];
  left = vb ∷ vbs;
  split = refl;
  appended = sym (append-nil results);
  belong = tt;
  stopped = (λ _. (vb, vbs, refl, out), λ _. refl);
  all_taken = λ e. cc;
  moved = refl;
}

Scanned-cons :
    (root : List ℕ) (vb : VarBind) (vbs : List VarBind) (current : Oid) (results : List VarBind)
    (s : Scan)
    → Belongs root vb
    → Scanned root vbs vb.oid (results ++ vb ∷ []) s
    → Scanned root (vb ∷ vbs) current results s
Scanned-cons root vb vbs current results s b h = record {
  taken = vb ∷ h.taken;
  left = h.left;
  split = ap (λ t. vb ∷ t) h.split;
  appended = h.appended ∙ append_assoc results (vb ∷ []) h.taken;
  belong = (b, h.belong);
  stopped = h.stopped;
  all_taken = h.all_taken;
  moved = h.moved;
}

-- The scan takes bindings off the front of the answer that are all under the root and no exception
-- values, appends them to the results in order and moves to the last of them. It is done exactly if a
-- binding follows that is not of that kind, and otherwise has taken the whole answer.
pub scan-Scanned :
    (root : List ℕ) (vbs : List VarBind) (current : Oid) (results : List VarBind)
    → Scanned root vbs current results (scan root vbs current results)
unfolding scan
scan-Scanned root [] current results = record {
  taken = [];
  left = [];
  split = refl;
  appended = sym (append-nil results);
  belong = tt;
  stopped = (λ e. cc, λ (vb, more, e, _). cc);
  all_taken = λ e. refl;
  moved = refl;
}
scan-Scanned root (vb ∷ vbs) current results =
    elim (Bool-cases (leaves_subtree root vb.oid.components)) [
      | inl e ↦ rw e (
          Scanned-stop root vb vbs current results
            λ b. cc (e, (leaves_subtree-false root vb.oid.components).1 b.0))
      | inr e ↦ rw e (elim (Bool-cases (is_exception vb.value)) [
        | inl f ↦
            rw f
              (Scanned-stop root vb vbs current results λ b. b.1 ((is_exception_iff vb.value).0 f))
        | inr f ↦ rw f (
            Scanned-cons root vb vbs current results _
              (
                (leaves_subtree-false root vb.oid.components).0 e,
                λ x. cc (f, (is_exception_iff vb.value).1 x),
              )
              (scan-Scanned root vbs vb.oid (results ++ vb ∷ [])))
      ])
    ]
