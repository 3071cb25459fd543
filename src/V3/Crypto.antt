-- ===== src/V3/Crypto.antt =====
-- src/v3.rs, lines 96 to 373: keys, authentication and encryption. The digests and ciphers are those of
-- other crates: a record of parameters.
pub mod Verify
pub mod Ciphers
pub mod Transport
pub mod Keys
use rusnmp.Prelude.{
  ℕ, zero, suc, ◌+◌, ◌-◌, ◌/◌, ◌%◌, ◌^◌, bit_or, bit_xor, List, [], ◌∷◌, ◌++◌, length, take, drop,
  replicate, get_elem?, Bool, true, false, ltb, leb, ◌==◌, ◌||◌, if◌then◌else◌, Option, none, some,
}
use rusnmp.Error.{Outcome, ok, err, panicked, out_of_fuel, and_then, decrypt_failed}
use rusnmp.Codec.Encoder.{to_be_bytes}
use rusnmp.V3.{AuthProtocol, md5, sha1, sha256, PrivProtocol, des, aes128}

-- A hasher that was fed `m` gives `digest p m`, a MAC under `key` that was fed `m` gives
-- `hmac p key m`. The ciphers take a key, an initial vector and the data; CBC without padding takes
-- whole blocks only.
pub record Crypto : Type 0 where
  pub digest : AuthProtocol → List ℕ → List ℕ
  pub hmac : AuthProtocol → List ℕ → List ℕ → List ℕ
  pub des_encrypt : List ℕ → List ℕ → List ℕ → List ℕ
  pub des_decrypt : List ℕ → List ℕ → List ℕ → Option (List ℕ)
  pub aes_encrypt : List ℕ → List ℕ → List ℕ → List ℕ
  pub aes_decrypt : List ℕ → List ℕ → List ℕ → List ℕ

-- `&bytes[from..to]`.
abbrev pub range : ℕ → ℕ → List ℕ → Outcome (List ℕ)
range from to bytes =
    if ltb to from || ltb (length bytes) to
    then panicked
    else ok (take (to - from) (drop from bytes))

-- `bytes[i]`.
abbrev pub byte_at : List ℕ → ℕ → Outcome ℕ
byte_at bytes i = elim (get_elem? bytes i) [ some b ↦ ok b | none ↦ panicked ]

unfoldable pub digest_len : AuthProtocol → ℕ
digest_len md5 = 16
digest_len sha1 = 20
digest_len sha256 = 32

unfoldable pub truncated_hmac_len : AuthProtocol → ℕ
truncated_hmac_len md5 = 12
truncated_hmac_len sha1 = 12
truncated_hmac_len sha256 = 24

-- `for j in 0..chunk_len { buf[j] = password[(i + j) % pass_len]; }`, from `j` on.
unfoldable pub chunk_loop : List ℕ → ℕ → ℕ → ℕ → Outcome (List ℕ)
chunk_loop password i zero j = ok []
chunk_loop password i (suc left) j =
    and_then (byte_at password ((i + j) % length password))
      λ b. and_then (chunk_loop password i left (j + 1)) λ rest. ok (b ∷ rest)

-- `while i < count`, with what the hasher was fed so far.
unfoldable pub feed_loop : ℕ → List ℕ → ℕ → ℕ → List ℕ → Outcome (List ℕ)
unfolding chunk_loop
feed_loop zero password count i fed = if ltb i count then out_of_fuel else ok fed
feed_loop (suc fuel) password count i fed =
    let chunk_end = if leb (i + 64) count then i + 64 else count in
    let chunk_len = chunk_end - i in
    let next =
      and_then (chunk_loop password i chunk_len 0)
        (λ buf. feed_loop fuel password count (i + chunk_len) (fed ++ buf)) in
    if ltb i count then next else ok fed

module _ (crypto : Crypto) where
  unfoldable pub password_to_master_key : AuthProtocol → List ℕ → Outcome (List ℕ)
  unfolding feed_loop digest_len
  password_to_master_key protocol [] = ok (replicate (digest_len protocol) 0)
  password_to_master_key protocol (b ∷ password) =
      and_then (feed_loop 1048576 (b ∷ password) 1048576 0 [])
        λ fed. ok (crypto.digest protocol fed)

  unfoldable pub localize_key : AuthProtocol → List ℕ → List ℕ → List ℕ
  localize_key protocol master_key engine_id =
      crypto.digest protocol (master_key ++ engine_id ++ master_key)

  unfoldable pub password_to_key : AuthProtocol → List ℕ → List ℕ → Outcome (List ℕ)
  unfolding password_to_master_key localize_key
  password_to_key protocol password engine_id =
      and_then (password_to_master_key protocol password)
        λ master_key. ok (localize_key protocol master_key engine_id)

  -- `mac[..trunc_len]`.
  unfoldable pub compute_auth : AuthProtocol → List ℕ → List ℕ → Outcome (List ℕ)
  unfolding truncated_hmac_len
  compute_auth protocol key message =
      range 0 (truncated_hmac_len protocol) (crypto.hmac protocol key message)

-- `for (a, b) in computed.iter().zip(expected.iter()) { diff |= a ^ b; }`.
unfoldable pub diff_loop : ℕ → List ℕ → List ℕ → ℕ
diff_loop diff (a ∷ computed) (b ∷ expected) =
    diff_loop (bit_or diff (bit_xor a b)) computed expected
diff_loop diff _ _ = diff

unfoldable pub same_bytes : List ℕ → List ℕ → Bool
unfolding diff_loop
same_bytes computed expected =
    if length computed == length expected then diff_loop 0 computed expected == 0 else false

-- `iv[i] = pre_iv[i] ^ salt_bytes[i]`, on two lists of the same length.
unfoldable pub xor_bytes : List ℕ → List ℕ → List ℕ
xor_bytes (a ∷ xs) (b ∷ ys) = bit_xor a b ∷ xor_bytes xs ys
xor_bytes _ _ = []

module _ (crypto : Crypto) where
  unfoldable pub verify_auth : AuthProtocol → List ℕ → List ℕ → List ℕ → Outcome Bool
  unfolding compute_auth same_bytes
  verify_auth protocol key message expected =
      and_then (compute_auth crypto protocol key message)
        λ computed. ok (same_bytes computed expected)

  unfoldable pub encrypt_des : List ℕ → ℕ → ℕ → List ℕ → Outcome (List ℕ × List ℕ)
  unfolding xor_bytes
  encrypt_des priv_key engine_boots salt bytes = and_then (range 0 8 priv_key) λ des_key.
      and_then (range 8 16 priv_key) λ pre_iv.
        let salt_bytes = to_be_bytes 4 engine_boots ++ to_be_bytes 4 salt in
        let iv = xor_bytes pre_iv salt_bytes in
        let padded = bytes ++ replicate ((8 - length bytes % 8) % 8) 0 in
        ok (crypto.des_encrypt des_key iv padded, salt_bytes)

  abbrev pub or_decrypt_failed : Option (List ℕ) → Outcome (List ℕ)
  or_decrypt_failed (some bytes) = ok bytes
  or_decrypt_failed none = err decrypt_failed

  unfoldable pub decrypt_des : List ℕ → List ℕ → List ℕ → Outcome (List ℕ)
  unfolding xor_bytes
  decrypt_des priv_key priv_params bytes =
      if length priv_params == 8
      then (and_then (range 0 8 priv_key) λ des_key. and_then (range 8 16 priv_key) λ pre_iv.
          or_decrypt_failed (crypto.des_decrypt des_key (xor_bytes pre_iv priv_params) bytes))
      else err decrypt_failed

  unfoldable pub encrypt_aes128 : List ℕ → ℕ → ℕ → ℕ → List ℕ → Outcome (List ℕ × List ℕ)
  encrypt_aes128 priv_key engine_boots engine_time salt bytes =
      and_then (range 0 16 priv_key) λ aes_key.
        let iv = to_be_bytes 4 engine_boots ++ to_be_bytes 4 engine_time ++ to_be_bytes 8 salt in
        ok (crypto.aes_encrypt aes_key iv bytes, to_be_bytes 8 salt)

  unfoldable pub decrypt_aes128 : List ℕ → ℕ → ℕ → List ℕ → List ℕ → Outcome (List ℕ)
  decrypt_aes128 priv_key engine_boots engine_time priv_params bytes =
      if length priv_params == 8
      then (and_then (range 0 16 priv_key) λ aes_key.
          let iv = to_be_bytes 4 engine_boots ++ to_be_bytes 4 engine_time ++ priv_params in
          ok (crypto.aes_decrypt aes_key iv bytes))
      else err decrypt_failed

  -- `salt as u32` for DES.
  unfoldable pub encrypt : PrivProtocol → List ℕ → ℕ → ℕ → ℕ → List ℕ → Outcome (List ℕ × List ℕ)
  unfolding encrypt_des encrypt_aes128
  encrypt des priv_key engine_boots engine_time salt bytes =
      encrypt_des priv_key engine_boots (salt % 2 ^ 32) bytes
  encrypt aes128 priv_key engine_boots engine_time salt bytes =
      encrypt_aes128 priv_key engine_boots engine_time salt bytes

  unfoldable pub decrypt : PrivProtocol → List ℕ → ℕ → ℕ → List ℕ → List ℕ → Outcome (List ℕ)
  unfolding decrypt_des decrypt_aes128
  decrypt des priv_key engine_boots engine_time priv_params bytes =
      decrypt_des priv_key priv_params bytes
  decrypt aes128 priv_key engine_boots engine_time priv_params bytes =
      decrypt_aes128 priv_key engine_boots engine_time priv_params bytes
