-- ===== src/V3/Client/Sign.antt =====
-- src/v3_client.rs: the lines of `send_request` that put the code into a packet.
use rusnmp.Prelude.{
  ℕ, ◌+◌, ◌≤◌, ◌≡◌, ◌∙◌, refl, sym, ap, subst, arith, List, ◌++◌, length, take, drop, replicate,
  length-replicate, length-take, length-drop, length-append, take-append, drop-append, drop-drop,
  some,
}
use rusnmp.Error.{ok}
use rusnmp.V3.{AuthProtocol, md5, sha1, sha256}
use rusnmp.V3.Crypto.{Crypto, compute_auth, digest_len}
use rusnmp.V3.Crypto.Ciphers.{CryptoLaws}
use rusnmp.V3.Client.{truncated_hmac_len_pub, find_auth_placeholder, overwrite, apply_code}
use rusnmp.V3.Client.Code.{find_auth_placeholder-IsRun, overwrite_parts}

-- What stands around a part that has been overwritten.
module _ (at : ℕ) (part bytes : List ℕ) (fits : at + length part ≤ length bytes) where
  abbrev after : List ℕ
  after = drop (at + length part) bytes

  abbrev pub written : List ℕ
  written = take at bytes ++ (part ++ after)

  front : length (take at bytes) ≡ at
  front = omega (arith, length-take at bytes)

  overwrite-written : overwrite at part bytes ≡ ok written
  unfolding overwrite
  overwrite-written = ground arith

  take-written : take at written ≡ take at bytes
  take-written =
      subst (λ n. take n written ≡ take at bytes) front
        (take-append (take at bytes) (part ++ after))

  drop-written : drop at written ≡ part ++ after
  drop-written =
      subst (λ n. drop n written ≡ part ++ after) front
        (drop-append (take at bytes) (part ++ after))

  part-written : take (length part) (drop at written) ≡ part
  part-written = ap (take (length part)) drop-written ∙ take-append part after

  after-written : drop (at + length part) written ≡ after
  after-written =
      sym (drop-drop at (length part) (at + length part) written refl)
      ∙ ap (drop (length part)) drop-written
      ∙ drop-append part after

  length-written : length written ≡ length bytes
  length-written = omega (
    arith,
    front,
    length-append (take at bytes) (part ++ after),
    length-append part after,
    length-drop (at + length part) bytes,
  )

  -- To overwrite the part once more brings the bytes back, if they held the new part there.
  overwrite-back :
      (old : List ℕ)
      → length old ≡ length part
      → take (length old) (drop at bytes) ≡ old
      → overwrite at old written ≡ ok bytes
  unfolding overwrite
  overwrite-back old same was =
      let whole : take at written ++ (old ++ drop (at + length old) written) ≡ bytes =
        ap (λ t. t ++ (old ++ drop (at + length old) written)) take-written
        ∙ ap (λ n. take at bytes ++ (old ++ drop (at + n) written)) same
        ∙ ap (λ t. take at bytes ++ (old ++ t)) after-written
        ∙ ap (λ n. take at bytes ++ (old ++ drop (at + n) bytes)) (sym same)
        ∙ overwrite_parts at old bytes was in
      ground (arith, whole, same, length-written)

-- A packet with its code at `at`.
pub record Signed (crypto : Crypto) (protocol : AuthProtocol) (auth_key packet : List ℕ) (at : ℕ)
    (signed : List ℕ) : Type 0 where
  pub blanked : overwrite at (replicate (truncated_hmac_len_pub protocol) 0) signed ≡ ok packet
  pub code :
      compute_auth crypto protocol auth_key packet
      ≡ ok (take (truncated_hmac_len_pub protocol) (drop at signed))

pub compute_auth-ok :
    (crypto : Crypto) (laws : CryptoLaws crypto) (protocol : AuthProtocol) (key message : List ℕ)
    → (mac : List ℕ) × (compute_auth crypto protocol key message ≡ ok mac)
      × (length mac ≡ truncated_hmac_len_pub protocol)
unfolding compute_auth truncated_hmac_len_pub digest_len
compute_auth-ok crypto laws md5 key message =
    let mac = crypto.hmac md5 key message in
    let long = laws.hmac_length md5 key message in
    (take 12 mac, ground (arith, long), omega (arith, long, length-take 12 mac))
compute_auth-ok crypto laws sha1 key message =
    let mac = crypto.hmac sha1 key message in
    let long = laws.hmac_length sha1 key message in
    (take 12 mac, ground (arith, long), omega (arith, long, length-take 12 mac))
compute_auth-ok crypto laws sha256 key message =
    let mac = crypto.hmac sha256 key message in
    let long = laws.hmac_length sha256 key message in
    (take 24 mac, ground (arith, long), omega (arith, long, length-take 24 mac))

-- With MACs as long as their digests and a placeholder found at `at`, the packet that the client
-- sends holds at `at` the code that `compute_auth` gives for the packet before, and becomes the
-- packet before when that code is replaced by zeros.
pub apply_code-Signed :
    (crypto : Crypto) (laws : CryptoLaws crypto) (protocol : AuthProtocol)
    (auth_key packet : List ℕ) (at : ℕ)
    → find_auth_placeholder packet (truncated_hmac_len_pub protocol) ≡ some at
    → (signed : List ℕ) × (apply_code crypto protocol auth_key packet
          (truncated_hmac_len_pub protocol)
        ≡ ok signed)
      × Signed crypto protocol auth_key packet at signed
unfolding apply_code
apply_code-Signed crypto laws protocol auth_key packet at found =
    let len = truncated_hmac_len_pub protocol in
    let run = find_auth_placeholder-IsRun packet len at found in
    let (mac, made, long) = compute_auth-ok crypto laws protocol auth_key packet in
    let fits : at + length mac ≤ length packet = omega (arith, long, run.fits) in
    let blank : List ℕ = replicate len 0 in
    let zeros : length blank ≡ len = length-replicate len 0 in
    (
      written at mac packet fits,
      rw (made, found) (overwrite-written at mac packet fits),
      record {
        blanked = overwrite-back at mac packet fits blank (zeros ∙ sym long) (rw zeros run.zeros);
        code =
            made
            ∙ ap ok (
                sym (
                  subst (λ n. take n (drop at (written at mac packet fits)) ≡ mac) long
                    (part-written at mac packet fits)));
      },
    )
