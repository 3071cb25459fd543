-- ===== src/V3/Crypto/Verify.antt =====
-- src/v3.rs: `verify_auth`.
use rusnmp.Prelude.{
  ℕ, ◌≡◌, ◌↔◌, refl, ap, arith, bit_or, bit_xor, List, [], ◌∷◌, length, true, bit_or-zero_both,
  bit_xor-zero, bit_xor-same,
}
use rusnmp.Error.{Outcome, ok, err, panicked, out_of_fuel, and_then}
use rusnmp.V3.{AuthProtocol}
use rusnmp.V3.Crypto.{Crypto, compute_auth, diff_loop, same_bytes, verify_auth}

diff_loop-zero :
    (diff : ℕ) (xs ys : List ℕ)
    → length xs ≡ length ys
    → diff_loop diff xs ys ≡ 0
    → (diff ≡ 0) × (xs ≡ ys)
unfolding diff_loop
diff_loop-zero diff [] [] l e = (e, refl)
diff_loop-zero diff [] (y ∷ ys) l e = absurd (omega arith)
diff_loop-zero diff (x ∷ xs) [] l e = absurd (omega arith)
diff_loop-zero diff (x ∷ xs) (y ∷ ys) l e =
    let (both, same) = diff_loop-zero (bit_or diff (bit_xor x y)) xs ys (omega arith) e in
    let (none_before, none_here) = bit_or-zero_both diff (bit_xor x y) both in
    (none_before, cc (bit_xor-zero x y none_here, same))

diff_loop-same : (xs : List ℕ) → diff_loop 0 xs xs ≡ 0
unfolding diff_loop
diff_loop-same [] = refl
diff_loop-same (x ∷ xs) = rw bit_xor-same (diff_loop-same xs)

same_bytes-true : (xs ys : List ℕ) → (same_bytes xs ys ≡ true) ↔ (xs ≡ ys)
unfolding same_bytes
same_bytes-true xs ys =
    (λ e. ground (arith, diff_loop-zero 0 xs ys), λ e. rw (← e) (ground (arith, diff_loop-same xs)))

and_then-ok :
    (r : Outcome (List ℕ)) (expected : List ℕ)
    → (and_then r (λ computed. ok (same_bytes computed expected)) ≡ ok true) ↔ (r ≡ ok expected)
and_then-ok (ok a) expected =
    let same = same_bytes-true a expected in
    (λ e. ap ok (same.0 (cc e)), λ e. ap ok (same.1 (cc e)))
and_then-ok (err e) expected = (λ x. cc, λ x. cc)
and_then-ok panicked expected = (λ x. cc, λ x. cc)
and_then-ok out_of_fuel expected = (λ x. cc, λ x. cc)

-- With any digests: `verify_auth` accepts exactly the code that `compute_auth` gives for the message.
pub verify_auth-compute_auth :
    (crypto : Crypto) (protocol : AuthProtocol) (key message expected : List ℕ)
    → (verify_auth crypto protocol key message expected ≡ ok true)
      ↔ (compute_auth crypto protocol key message ≡ ok expected)
unfolding verify_auth
verify_auth-compute_auth crypto protocol key message expected =
    and_then-ok (compute_auth crypto protocol key message) expected
