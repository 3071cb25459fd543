-- ===== src/V3/Client/Keys.antt =====
-- src/v3_client.rs: `new` and `derive_keys`, and what every request keeps of a client.
use rusnmp.Prelude.{
  ℕ, ◌≤◌, ◌≡◌, ◌∙◌, refl, ap, subst, arith, List, ◌++◌, Option, none, some, length,
}
use rusnmp.Error.{and_then-ok, Outcome, ok, and_then}
use rusnmp.Run.{continue-ok}
use rusnmp.V3.{AuthProtocol, md5, sha1, sha256, PrivProtocol, UsmCredentials}
use rusnmp.V3.Crypto.{Crypto, password_to_key, password_to_master_key, localize_key, digest_len}
use rusnmp.V3.Client.Requests.Packets.{IsEquipped}
use rusnmp.V3.Client.State.{SnmpV3Client, derive_priv_key, derive_auth_key, derive_keys}

abbrev pub Keys : Type 0
Keys = Option (List ℕ) × Option (List ℕ)

module _ (crypto : Crypto) (engine_id : List ℕ) where
  -- Both keys come from the hash of the authentication protocol.
  abbrev pub priv_key_of :
      AuthProtocol → Option PrivProtocol → Option (List ℕ) → Outcome (Option (List ℕ))
  priv_key_of protocol (some _) (some priv_pass) =
      and_then (password_to_key crypto protocol priv_pass engine_id) λ key. ok (some key)
  priv_key_of protocol (some _) none = ok none
  priv_key_of protocol none _ = ok none

  abbrev pub keys_from :
      Option AuthProtocol → Option (List ℕ) → Option PrivProtocol → Option (List ℕ) → Outcome Keys
  keys_from (some protocol) (some pass) priv priv_pass =
      and_then (password_to_key crypto protocol pass engine_id) λ auth_key.
        and_then (priv_key_of protocol priv priv_pass) λ priv_key. ok (some auth_key, priv_key)
  keys_from (some protocol) none priv priv_pass = ok (none, none)
  keys_from none _ priv priv_pass = ok (none, none)

-- The keys that credentials give for an engine.
abbrev pub keys_of : Crypto → List ℕ → UsmCredentials → Outcome Keys
keys_of crypto engine_id cr =
    keys_from crypto engine_id cr.auth_protocol cr.auth_password cr.priv_protocol cr.priv_password

abbrev pub with_keys : SnmpV3Client → Keys → SnmpV3Client
with_keys c (auth_key, priv_key) = record c { auth_key = auth_key; priv_key = priv_key }

derive_priv_key_lem :
    (crypto : Crypto) (protocol : AuthProtocol) (priv : Option PrivProtocol)
    (priv_pass : Option (List ℕ)) (c : SnmpV3Client)
    → c.priv_key ≡ none
    → (derive_priv_key crypto protocol priv priv_pass c).0 ≡ ok tt
    → (key : Option (List ℕ)) × (priv_key_of crypto c.engine.engine_id protocol priv priv_pass
        ≡ ok key)
      × (derive_priv_key crypto protocol priv priv_pass c ≡ (ok tt, record c { priv_key = key }))
unfolding derive_priv_key
derive_priv_key_lem crypto protocol (some p) (some pass) c n e =
    let (key, made, _) =
      continue-ok (password_to_key crypto protocol pass c.engine.engine_id) _ _ tt e in
    (some key, rw made refl, rw made refl)
derive_priv_key_lem crypto protocol (some p) none c n e =
    (none, refl, ap (λ t. (ok tt, record c { priv_key = t })) n)
derive_priv_key_lem crypto protocol none priv_pass c n e =
    (none, refl, ap (λ t. (ok tt, record c { priv_key = t })) n)

without_keys :
    (c : SnmpV3Client) → c.auth_key ≡ none → c.priv_key ≡ none → c ≡ with_keys c (none, none)
without_keys c m n =
    ap (λ t. record c { auth_key = t }) m ∙ ap (λ t. record c { auth_key = none; priv_key = t }) n

derive_auth_key_lem :
    (crypto : Crypto) (auth : Option AuthProtocol) (pass : Option (List ℕ)) (c : SnmpV3Client)
    → c.auth_key ≡ none
    → c.priv_key ≡ none
    → (derive_auth_key crypto auth pass c).0 ≡ ok tt
    → (keys : Keys) × (keys_from crypto c.engine.engine_id auth pass c.credentials.priv_protocol
          c.credentials.priv_password
        ≡ ok keys)
      × (derive_auth_key crypto auth pass c ≡ (ok tt, with_keys c keys))
unfolding derive_auth_key
derive_auth_key_lem crypto (some protocol) (some pass) c m n e =
    let (key, made, more) =
      continue-ok (password_to_key crypto protocol pass c.engine.engine_id) _ _ tt e in
    let (priv_key, priv_made, whole) =
      derive_priv_key_lem crypto protocol c.credentials.priv_protocol c.credentials.priv_password
        (record c { auth_key = some key }) n more in
    ((some key, priv_key), rw (made, priv_made) refl, rw made whole)
derive_auth_key_lem crypto (some protocol) none c m n e =
    ((none, none), refl, ap (λ t. (ok tt, t)) (without_keys c m n))
derive_auth_key_lem crypto none pass c m n e =
    ((none, none), refl, ap (λ t. (ok tt, t)) (without_keys c m n))

-- From a client without keys, a derivation that succeeds leaves the keys that the credentials give.
pub derive_keys_lem :
    (crypto : Crypto) (c : SnmpV3Client)
    → c.auth_key ≡ none
    → c.priv_key ≡ none
    → (derive_keys crypto c).0 ≡ ok tt
    → (keys : Keys) × (keys_of crypto c.engine.engine_id c.credentials ≡ ok keys)
      × (derive_keys crypto c ≡ (ok tt, with_keys c keys))
unfolding derive_keys
derive_keys_lem crypto c m n e =
    derive_auth_key_lem crypto c.credentials.auth_protocol c.credentials.auth_password c m n e

-- What the crates document: a digest is as long as its algorithm says.
pub record DigestLaws (crypto : Crypto) : Type 0 where
  pub digest_length :
      (protocol : AuthProtocol) (m : List ℕ)
      → length (crypto.digest protocol m) ≡ digest_len protocol

password_to_key-long :
    (crypto : Crypto) (laws : DigestLaws crypto) (protocol : AuthProtocol)
    (pass engine_id key : List ℕ)
    → password_to_key crypto protocol pass engine_id ≡ ok key
    → 16 ≤ length key
unfolding password_to_key localize_key digest_len
password_to_key-long crypto laws protocol pass engine_id key e =
    let (master_key, _, made) =
      and_then-ok (password_to_master_key crypto protocol pass)
        (λ m. ok (localize_key crypto protocol m engine_id)) key e in
    long protocol (laws.digest_length protocol (master_key ++ engine_id ++ master_key)) made
  where
    long :
        (p : AuthProtocol) {bytes : List ℕ}
        → length bytes ≡ digest_len p
        → ok bytes ≡ ok key
        → 16 ≤ length key
    long md5 l e = ground (arith, l)
    long sha1 l e = ground (arith, l)
    long sha256 l e = ground (arith, l)

-- Credentials with which a client that encrypts can derive its key.
pub record IsComplete (cr : UsmCredentials) : Type 0 where
  pub auth_protocol : AuthProtocol
  pub has_auth : cr.auth_protocol ≡ some auth_protocol
  pub auth_password : List ℕ
  pub has_auth_password : cr.auth_password ≡ some auth_password
  pub priv_password : List ℕ
  pub has_priv_password : cr.priv_password ≡ some priv_password

priv_key_of-IsEquipped :
    (crypto : Crypto) (laws : DigestLaws crypto) (protocol : AuthProtocol)
    (priv : Option PrivProtocol) (pass engine_id : List ℕ) (key : Option (List ℕ))
    → priv_key_of crypto engine_id protocol priv (some pass) ≡ ok key
    → IsEquipped priv key
priv_key_of-IsEquipped crypto laws protocol none pass engine_id key e = tt
priv_key_of-IsEquipped crypto laws protocol (some p) pass engine_id key e =
    let (k, made, same) =
      and_then-ok (password_to_key crypto protocol pass engine_id) (λ t. ok (some t)) key e in
    let some_key : some k ≡ key = cc same in
    subst (IsEquipped (some p)) some_key
      (password_to_key-long crypto laws protocol pass engine_id k made)

-- Complete credentials give a client that encrypts a key of 16 bytes or more.
pub keys_of-IsEquipped :
    (crypto : Crypto) (laws : DigestLaws crypto) (engine_id : List ℕ) (cr : UsmCredentials)
    (keys : Keys)
    → IsComplete cr
    → keys_of crypto engine_id cr ≡ ok keys
    → IsEquipped cr.priv_protocol keys.1
keys_of-IsEquipped crypto laws engine_id cr keys h e =
    let e' = rw (h.has_auth, h.has_auth_password, h.has_priv_password) at e in
    let (auth_key, _, more) =
      and_then-ok (password_to_key crypto h.auth_protocol h.auth_password engine_id)
        (λ k.
          and_then
            (priv_key_of crypto engine_id h.auth_protocol cr.priv_protocol (some h.priv_password))
            λ p. ok (some k, p))
        keys e' in
    let (priv_key, made, same) =
      and_then-ok
        (priv_key_of crypto engine_id h.auth_protocol cr.priv_protocol (some h.priv_password))
        (λ p. ok (some auth_key, p)) keys more in
    let pair : (some auth_key, priv_key) ≡ keys = cc same in
    subst (λ t. IsEquipped cr.priv_protocol t.1) pair
      (priv_key_of-IsEquipped crypto laws h.auth_protocol cr.priv_protocol h.priv_password engine_id
        priv_key made)
