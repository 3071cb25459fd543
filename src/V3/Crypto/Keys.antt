-- ===== src/V3/Crypto/Keys.antt =====
-- src/v3.rs: the loops of `password_to_master_key`.
use rusnmp.Prelude.{
  ℕ, zero, suc, ◌+◌, ◌-◌, ◌%◌, ◌≤◌, ◌<◌, ◌≡◌, ◌∙◌, refl, sym, ap, subst, arith, List, [], ◌∷◌, ◌++◌,
  length, length-append, get_elem?, get_elem?-lt, some, Bool-cases, inl, inr, ltb, leb,
  if◌then◌else◌,
}
use rusnmp.Error.{ok}
use rusnmp.V3.{AuthProtocol}
use rusnmp.V3.Crypto.{Crypto, byte_at, chunk_loop, feed_loop, password_to_master_key}

get_elem?-append_left :
    (xs ys : List ℕ) (k : ℕ) → k < length xs → get_elem? (xs ++ ys) k ≡ get_elem? xs k
get_elem?-append_left [] ys k h = absurd (omega arith)
get_elem?-append_left (x ∷ xs) ys zero h = refl
get_elem?-append_left (x ∷ xs) ys (suc k) h = get_elem?-append_left xs ys k (omega arith)

get_elem?-append_right :
    (xs ys : List ℕ) (i k : ℕ) → i ≡ length xs + k → get_elem? (xs ++ ys) i ≡ get_elem? ys k
get_elem?-append_right [] ys i k e = ap (get_elem? ys) (omega arith)
get_elem?-append_right (x ∷ xs) ys zero k e = absurd (omega arith)
get_elem?-append_right (x ∷ xs) ys (suc i) k e = get_elem?-append_right xs ys i k (omega arith)

-- `bytes` is `count` bytes of the repeated password, from the `start`th on.
pub record Cycles (password : List ℕ) (start count : ℕ) (bytes : List ℕ) : Type 0 where
  pub long : length bytes ≡ count
  pub byte :
      (k : ℕ) → k < count → get_elem? bytes k ≡ get_elem? password ((start + k) % length password)

Cycles-append :
    (password : List ℕ) (start m n : ℕ) (xs ys : List ℕ)
    → Cycles password start m xs
    → Cycles password (start + m) n ys
    → Cycles password start (m + n) (xs ++ ys)
Cycles-append password start m n xs ys h g = record {
  long = omega (arith, h.long, g.long, length-append xs ys);
  byte = λ k lt. elim (Bool-cases (ltb k m)) [
    | inl e ↦ get_elem?-append_left xs ys k (ground (arith, h.long)) ∙ h.byte k (ground arith)
    | inr e ↦
        let at : k ≡ length xs + (k - m) = ground (arith, h.long) in
        get_elem?-append_right xs ys k (k - m) at
        ∙ g.byte (k - m) (ground arith)
        ∙ ap (λ t. get_elem? password (t % length password)) (ground arith)
  ];
}

Cycles-cons :
    (password : List ℕ) (start n b : ℕ) (bytes : List ℕ)
    → get_elem? password (start % length password) ≡ some b
    → Cycles password (start + 1) n bytes
    → Cycles password start (suc n) (b ∷ bytes)
Cycles-cons password start n b bytes e h = record { long = omega (arith, h.long); byte = at }
  where
    at :
        (k : ℕ)
        → k < suc n
        → get_elem? (b ∷ bytes) k ≡ get_elem? password ((start + k) % length password)
    at zero lt = sym e ∙ ap (λ t. get_elem? password (t % length password)) (omega arith)
    at (suc k) lt =
        h.byte k (omega arith) ∙ ap (λ t. get_elem? password (t % length password)) (omega arith)

module _ (password : List ℕ) (not_empty : 0 < length password) where
  byte_at-ok :
      (k : ℕ)
      → (b : ℕ) × (byte_at password (k % length password) ≡ ok b)
        × (get_elem? password (k % length password) ≡ some b)
  byte_at-ok k =
      let (b, e) = get_elem?-lt (k % length password) password (omega arith) in
      (b, ground (arith, e), e)

  chunk_loop-Cycles :
      (i n j : ℕ)
      → (buf : List ℕ) × (chunk_loop password i n j ≡ ok buf) × Cycles password (i + j) n buf
  unfolding chunk_loop
  chunk_loop-Cycles i zero j =
      ([], refl, record { long = refl; byte = λ k lt. absurd (omega arith) })
  chunk_loop-Cycles i (suc n) j =
      let (b, at, elem) = byte_at-ok (i + j) in
      let (buf, rest, cycles) = chunk_loop-Cycles i n (j + 1) in
      (
        b ∷ buf,
        ground (arith, at, rest),
        Cycles-cons password (i + j) n b buf elem
            (subst (λ t. Cycles password t n buf) (omega arith) cycles),
      )

  -- The loop feeds what is missing up to `count`.
  feed_loop-Cycles :
      (count fuel i : ℕ) (fed : List ℕ)
      → count ≤ i + fuel
      → i ≤ count
      → Cycles password 0 i fed
      → (out : List ℕ) × (feed_loop fuel password count i fed ≡ ok out)
        × Cycles password 0 count out
  unfolding feed_loop
  feed_loop-Cycles count zero i fed h le cycles =
      (fed, ground arith, subst (λ t. Cycles password 0 t fed) (omega arith) cycles)
  feed_loop-Cycles count (suc fuel) i fed h le cycles = elim (Bool-cases (ltb i count)) [
    | inr e ↦ (fed, ground arith, subst (λ t. Cycles password 0 t fed) (ground arith) cycles)
    | inl e ↦
        let chunk_len : ℕ = (if leb (i + 64) count then i + 64 else count) - i in
        let (buf, chunk, more) = chunk_loop-Cycles i chunk_len 0 in
        let (out, rest, all) =
          feed_loop-Cycles count fuel (i + chunk_len) (fed ++ buf) (ground arith) (ground arith) (
            Cycles-append password 0 i chunk_len fed buf cycles
              (subst (λ t. Cycles password t chunk_len buf) (omega arith) more)) in
        (out, ground (arith, chunk, rest), all)
  ]

-- For a password that is not empty, with any digests: `password_to_master_key` ends without a panic, and
-- digests 1048576 bytes whose `k`th is the byte of the password at `k` modulo its length.
pub password_to_master_key-Cycles :
    (crypto : Crypto) (protocol : AuthProtocol) (password : List ℕ)
    → 0 < length password
    → (fed : List ℕ) × (password_to_master_key crypto protocol password
        ≡ ok (crypto.digest protocol fed))
      × Cycles password 0 1048576 fed
unfolding password_to_master_key
password_to_master_key-Cycles crypto protocol [] h = absurd (omega arith)
password_to_master_key-Cycles crypto protocol (b ∷ password) h =
    let (fed, loop, cycles) =
      feed_loop-Cycles (b ∷ password) h 1048576 1048576 0 [] (omega arith) (omega arith)
        (record { long = refl; byte = λ k lt. absurd (omega arith) }) in
    (fed, rw loop refl, cycles)
