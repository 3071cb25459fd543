-- ===== src/V3/Crypto/Ciphers.antt =====
-- src/v3.rs: `encrypt` and `decrypt`.
use rusnmp.Prelude.{
  ℕ, ◌-◌, ◌%◌, ◌^◌, ◌≤◌, ◌≡◌, refl, arith, List, [], ◌∷◌, ◌++◌, length, take, drop, length-append,
  length-take, length-drop, length-replicate, replicate, some,
}
use rusnmp.Error.{ok}
use rusnmp.Codec.Encoder.{to_be_bytes}
use rusnmp.Codec.Integers.{length-to_be_bytes}
use rusnmp.V3.{AuthProtocol, PrivProtocol, des, aes128}
use rusnmp.V3.Crypto.{Crypto, range, digest_len, xor_bytes, encrypt, decrypt}

-- What the crates document: a MAC is as long as its digest, and each cipher has an inverse under the
-- same key and initial vector, for DES in whole blocks.
pub record CryptoLaws (crypto : Crypto) : Type 0 where
  pub hmac_length :
      (protocol : AuthProtocol) (key message : List ℕ)
      → length (crypto.hmac protocol key message) ≡ digest_len protocol
  pub des_inverse :
      (key iv bytes : List ℕ)
      → length key ≡ 8
      → length iv ≡ 8
      → length bytes % 8 ≡ 0
      → crypto.des_decrypt key iv (crypto.des_encrypt key iv bytes) ≡ some bytes
  pub aes_inverse :
      (key iv bytes : List ℕ)
      → length key ≡ 16
      → length iv ≡ 16
      → crypto.aes_decrypt key iv (crypto.aes_encrypt key iv bytes) ≡ bytes

-- What comes back: DES fills up the last block with zeros.
abbrev pub padded : PrivProtocol → List ℕ → List ℕ
padded des bytes = bytes ++ replicate ((8 - length bytes % 8) % 8) 0
padded aes128 bytes = bytes

abbrev pub Recovers : Crypto → PrivProtocol → List ℕ → ℕ → ℕ → ℕ → List ℕ → Type 0
Recovers crypto protocol priv_key boots time salt bytes =
    (encrypted : List ℕ) × (priv_params : List ℕ) × (encrypt crypto protocol priv_key boots time
        salt bytes
      ≡ ok (encrypted, priv_params))
    × (length priv_params ≡ 8)
    × (decrypt crypto protocol priv_key boots time priv_params encrypted
        ≡ ok (padded protocol bytes))

length-xor_bytes : (xs ys : List ℕ) → length xs ≡ length ys → length (xor_bytes xs ys) ≡ length xs
unfolding xor_bytes
length-xor_bytes [] ys h = refl
length-xor_bytes (x ∷ xs) [] h = absurd (omega arith)
length-xor_bytes (x ∷ xs) (y ∷ ys) h = omega (arith, length-xor_bytes xs ys)

range-ok :
    (from to : ℕ) (bytes : List ℕ)
    → from ≤ to
    → to ≤ length bytes
    → range from to bytes ≡ ok (take (to - from) (drop from bytes))
range-ok from to bytes h k = ground arith

module _ (crypto : Crypto) (laws : CryptoLaws crypto) (priv_key : List ℕ) (boots time salt : ℕ)
    (bytes : List ℕ) (long : 16 ≤ length priv_key) where
  -- The parts of the key, the vector and the parameters.
  abbrev des_key : List ℕ
  des_key = take 8 priv_key

  abbrev pre_iv : List ℕ
  pre_iv = take 8 (drop 8 priv_key)

  abbrev des_params : List ℕ
  des_params = to_be_bytes 4 boots ++ to_be_bytes 4 (salt % 2 ^ 32)

  abbrev aes_key : List ℕ
  aes_key = take 16 priv_key

  abbrev aes_iv : List ℕ
  aes_iv = to_be_bytes 4 boots ++ to_be_bytes 4 time ++ to_be_bytes 8 salt

  first : range 0 8 priv_key ≡ ok des_key
  first = range-ok 0 8 priv_key (omega arith) (omega arith)

  second : range 8 16 priv_key ≡ ok pre_iv
  second = range-ok 8 16 priv_key (omega arith) long

  all_of : range 0 16 priv_key ≡ ok aes_key
  all_of = range-ok 0 16 priv_key (omega arith) long

  length-des_params : length des_params ≡ 8
  length-des_params = omega (
    arith,
    length-append (to_be_bytes 4 boots) (to_be_bytes 4 (salt % 2 ^ 32)),
    length-to_be_bytes 4 boots,
    length-to_be_bytes 4 (salt % 2 ^ 32),
  )

  length-des_key : length des_key ≡ 8
  length-des_key = omega (arith, length-take 8 priv_key)

  length-pre_iv : length pre_iv ≡ 8
  length-pre_iv = omega (arith, length-take 8 (drop 8 priv_key), length-drop 8 priv_key)

  length-aes_key : length aes_key ≡ 16
  length-aes_key = omega (arith, length-take 16 priv_key)

  length-aes_iv : length aes_iv ≡ 16
  length-aes_iv = omega (
    arith,
    length-append (to_be_bytes 4 boots ++ to_be_bytes 4 time) (to_be_bytes 8 salt),
    length-append (to_be_bytes 4 boots) (to_be_bytes 4 time),
    length-to_be_bytes 4 boots,
    length-to_be_bytes 4 time,
    length-to_be_bytes 8 salt,
  )

  whole_blocks : length (padded des bytes) % 8 ≡ 0
  whole_blocks = omega (
    arith,
    length-append bytes (replicate ((8 - length bytes % 8) % 8) 0),
    length-replicate {A = ℕ} ((8 - length bytes % 8) % 8) 0,
  )

  des_back :
      crypto.des_decrypt des_key
        (xor_bytes pre_iv des_params)
        (crypto.des_encrypt des_key (xor_bytes pre_iv des_params) (padded des bytes))
      ≡ some (padded des bytes)
  des_back =
      laws.des_inverse des_key (xor_bytes pre_iv des_params) (padded des bytes) length-des_key
        (omega (arith, length-xor_bytes pre_iv des_params, length-pre_iv, length-des_params))
        whole_blocks

  decrypt-encrypt_des : Recovers crypto des priv_key boots time salt bytes
  unfolding encrypt decrypt
  decrypt-encrypt_des = (
    crypto.des_encrypt des_key (xor_bytes pre_iv des_params) (padded des bytes),
    des_params,
    rw (first, second) refl,
    length-des_params,
    ground (arith, first, second, length-des_params, des_back),
  )

  decrypt-encrypt_aes128 : Recovers crypto aes128 priv_key boots time salt bytes
  unfolding encrypt decrypt
  decrypt-encrypt_aes128 =
      let eight = length-to_be_bytes 8 salt in
      let back = laws.aes_inverse aes_key aes_iv bytes length-aes_key length-aes_iv in
      (
        crypto.aes_encrypt aes_key aes_iv bytes,
        to_be_bytes 8 salt,
        rw all_of refl,
        eight,
        ground (arith, all_of, eight, back),
      )

-- What is encrypted for a key of 16 bytes or more comes with 8 bytes of parameters, and `decrypt` under
-- the same key, boots and time recovers it, filled up with zeros to a whole block for DES.
pub decrypt-encrypt :
    (crypto : Crypto) (laws : CryptoLaws crypto) (protocol : PrivProtocol) (priv_key : List ℕ)
    (boots time salt : ℕ) (bytes : List ℕ)
    → 16 ≤ length priv_key
    → Recovers crypto protocol priv_key boots time salt bytes
decrypt-encrypt crypto laws des priv_key boots time salt bytes h =
    decrypt-encrypt_des crypto laws priv_key boots time salt bytes h
decrypt-encrypt crypto laws aes128 priv_key boots time salt bytes h =
    decrypt-encrypt_aes128 crypto laws priv_key boots time salt bytes h
