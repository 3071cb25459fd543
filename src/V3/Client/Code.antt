-- ===== src/V3/Client/Code.antt =====
-- src/v3_client.rs: `find_auth_placeholder`, and the lines of `send_request` that check the code
-- of a response.
use rusnmp.Prelude.{
  ℕ, zero, suc, ◌+◌, ◌≤◌, ◌≡◌, ◌↔◌, ◌⊎◌, ◌∙◌, inl, inr, refl, sym, ap, subst, arith, List, [], ◌∷◌,
  ◌++◌, length, take, drop, replicate, length-replicate, drop-drop, Option, none, some, Bool, true,
  false, ltb, if◌then◌else◌, Bool-cases,
}
use rusnmp.Error.{Outcome, ok, err, panicked, out_of_fuel, and_then, auth_failed}
use rusnmp.Client.Subtree.{same_components}
use rusnmp.V3.{AuthProtocol}
use rusnmp.V3.Crypto.{Crypto, compute_auth, verify_auth}
use rusnmp.V3.Crypto.Verify.{verify_auth-compute_auth}
use rusnmp.V3.Client.{find_window, find_auth_placeholder, overwrite, zero_code, check_code}

same_components-eq : (xs ys : List ℕ) → same_components xs ys ≡ true → xs ≡ ys
unfolding same_components
same_components-eq [] [] h = refl
same_components-eq [] (y ∷ ys) h = cc
same_components-eq (x ∷ xs) [] h = cc
same_components-eq (x ∷ xs) (y ∷ ys) h = ground (arith, same_components-eq xs ys)

-- A run of `len` zeros stands at `at`.
pub record IsRun (packet : List ℕ) (len at : ℕ) : Type 0 where
  pub fits : at + len ≤ length packet
  pub zeros : take len (drop at packet) ≡ replicate len 0

find_window-IsRun :
    (i : ℕ) (packet : List ℕ) (len p : ℕ)
    → find_window i packet len ≡ some p
    → (k : ℕ) × (p ≡ i + k) × IsRun packet len k
unfolding find_window
find_window-IsRun i [] len p e = cc
find_window-IsRun i (b ∷ rest) len p e = elim (Bool-cases (ltb (length (b ∷ rest)) len)) [
  | inl short ↦ absurd (ground arith)
  | inr long ↦ elim (Bool-cases (same_components (take len (b ∷ rest)) (replicate len 0))) [
    | inl same ↦ (
      0,
      ground arith,
      record {
        fits = ground arith;
        zeros = same_components-eq (take len (b ∷ rest)) (replicate len 0) same;
      },
    )
    | inr other ↦
        let (k, at, run) = find_window-IsRun (i + 1) rest len p (ground arith) in
        (suc k, omega arith, record { fits = omega (arith, run.fits); zeros = run.zeros })
  ]
]

take-append-drop : (n : ℕ) (xs : List ℕ) → take n xs ++ drop n xs ≡ xs
take-append-drop zero xs = refl
take-append-drop (suc n) [] = refl
take-append-drop (suc n) (x ∷ xs) = ap (λ t. x ∷ t) (take-append-drop n xs)

pub overwrite_parts :
    (at : ℕ) (part bytes : List ℕ)
    → take (length part) (drop at bytes) ≡ part
    → take at bytes ++ (part ++ drop (at + length part) bytes) ≡ bytes
overwrite_parts at part bytes same =
    let n = length part in
    ap (λ t. take at bytes ++ (t ++ drop (at + n) bytes)) (sym same)
    ∙ ap (λ t. take at bytes ++ (take n (drop at bytes) ++ t))
        (sym (drop-drop at n (at + n) bytes refl))
    ∙ ap (λ t. take at bytes ++ t) (take-append-drop n (drop at bytes))
    ∙ take-append-drop at bytes

-- To overwrite a part with itself changes nothing.
overwrite-same :
    (at : ℕ) (part bytes : List ℕ)
    → at + length part ≤ length bytes
    → take (length part) (drop at bytes) ≡ part
    → overwrite at part bytes ≡ ok bytes
unfolding overwrite
overwrite-same at part bytes fits same = ground (arith, overwrite_parts at part bytes same)

pub find_auth_placeholder-IsRun :
    (packet : List ℕ) (len at : ℕ)
    → find_auth_placeholder packet len ≡ some at
    → IsRun packet len at
unfolding find_auth_placeholder
find_auth_placeholder-IsRun packet len at e =
    let (k, same, run) = find_window-IsRun 0 packet len at (ground arith) in
    subst (IsRun packet len) (omega arith) run

pub zero_code-same : (resp_data : List ℕ) (len : ℕ) → zero_code resp_data len ≡ ok resp_data
unfolding zero_code
zero_code-same resp_data len = go (find_auth_placeholder resp_data len) refl
  where
    go :
        (r : Option ℕ)
        → find_auth_placeholder resp_data len ≡ r
        → elim r [ some at ↦ overwrite at (replicate len 0) resp_data | none ↦ ok resp_data ]
          ≡ ok resp_data
    go none e = refl
    go (some at) e =
        let run = find_auth_placeholder-IsRun resp_data len at e in
        let blank : List ℕ = replicate len 0 in
        let long : length blank ≡ len = length-replicate len 0 in
        overwrite-same at blank resp_data (omega (arith, long, run.fits)) (rw long run.zeros)

abbrev pub passed : Outcome (Unit {0})
passed = ok tt

accepts-true :
    (r : Outcome Bool)
    → (and_then r (λ good. if good then passed else err auth_failed) ≡ passed) ↔ (r ≡ ok true)
accepts-true (ok true) = (λ e. refl, λ e. refl)
accepts-true (ok false) = (λ e. cc, λ e. cc)
accepts-true (err e) = (λ x. cc, λ x. cc)
accepts-true panicked = (λ x. cc, λ x. cc)
accepts-true out_of_fuel = (λ x. cc, λ x. cc)

-- A response passes exactly if it carries no code at all, or if its code is the one of the response as it
-- came, with that code in it: the step that zeroes the code out has no effect.
pub check_code-compute_auth :
    (crypto : Crypto) (protocol : AuthProtocol) (auth_key resp_data auth_params : List ℕ)
    → (check_code crypto protocol auth_key resp_data auth_params ≡ passed)
      ↔ ((auth_params ≡ []) ⊎ (compute_auth crypto protocol auth_key resp_data ≡ ok auth_params))
unfolding check_code
check_code-compute_auth crypto protocol auth_key resp_data [] = (λ e. inl refl, λ e. refl)
check_code-compute_auth crypto protocol auth_key resp_data (b ∷ auth_params) =
    let code = b ∷ auth_params in
    let accepted = accepts-true (verify_auth crypto protocol auth_key resp_data code) in
    let verified = verify_auth-compute_auth crypto protocol auth_key resp_data code in
    rw (zero_code-same resp_data (length code)) (
      λ e. inr (verified.0 (accepted.0 e)),
      λ h. elim h [ inl empty ↦ cc | inr same ↦ accepted.1 (verified.1 same) ],
    )
