-- ===== src/V3/Client.antt =====
-- src/v3_client.rs, lines 165 to 214 and 402 to 417: the authentication code of requests and responses.
pub mod Code
pub mod Sign
pub mod State
pub mod Panics
pub mod Ready
pub mod Discovery
pub mod Keys
pub mod Requests
pub mod Walk
mod Examples
use rusnmp.Prelude.{
  ℕ, zero, suc, ◌+◌, ◌≤◌, List, [], ◌∷◌, ◌++◌, length, take, drop, replicate, Option, none, some,
  ltb, ◌==◌, if◌then◌else◌,
}
use rusnmp.Error.{Outcome, ok, err, panicked, and_then, auth_failed}
use rusnmp.Client.Subtree.{same_components}
use rusnmp.V3.{AuthProtocol, md5, sha1, sha256}
use rusnmp.V3.Crypto.{Crypto, compute_auth, verify_auth}

unfoldable pub truncated_hmac_len_pub : AuthProtocol → ℕ
truncated_hmac_len_pub md5 = 12
truncated_hmac_len_pub sha1 = 12
truncated_hmac_len_pub sha256 = 24

-- `packet.windows(len).position(…)`, with `i` for the index of the first window.
unfoldable pub find_window : ℕ → List ℕ → ℕ → Option ℕ
find_window i [] len = none
find_window i (b ∷ rest) len =
    let later = find_window (i + 1) rest len in
    if ltb (length (b ∷ rest)) len
    then none
    else if same_components (take len (b ∷ rest)) (replicate len 0)
    then some i
    else later

unfoldable pub find_auth_placeholder : List ℕ → ℕ → Option ℕ
unfolding find_window
find_auth_placeholder packet len = if len == 0 then none else find_window 0 packet len

-- `packet[at..at + part.len()].copy_from_slice(&part)`.
unfoldable pub overwrite : ℕ → List ℕ → List ℕ → Outcome (List ℕ)
overwrite at part bytes =
    if ltb (length bytes) (at + length part)
    then panicked
    else ok (take at bytes ++ (part ++ drop (at + length part) bytes))

-- The lines that zero out the code of a response of `len` bytes.
unfoldable pub zero_code : List ℕ → ℕ → Outcome (List ℕ)
unfolding find_auth_placeholder overwrite
zero_code resp_data len = elim (find_auth_placeholder resp_data len) [
  | some at ↦ overwrite at (replicate len 0) resp_data
  | none ↦ ok resp_data
]

module _ (crypto : Crypto) where
  -- The lines that put the code into a request.
  unfoldable pub apply_code : AuthProtocol → List ℕ → List ℕ → ℕ → Outcome (List ℕ)
  unfolding find_auth_placeholder overwrite
  apply_code protocol auth_key packet placeholder_len =
      and_then (compute_auth crypto protocol auth_key packet) λ mac.
        elim (find_auth_placeholder packet placeholder_len) [
          | some at ↦ overwrite at mac packet
          | none ↦ ok packet
        ]

  -- `if !msg.auth_params.is_empty() { … }` of `send_request`.
  unfoldable pub check_code : AuthProtocol → List ℕ → List ℕ → List ℕ → Outcome (Unit {0})
  unfolding zero_code
  check_code protocol auth_key resp_data [] = ok tt
  check_code protocol auth_key resp_data (b ∷ auth_params) =
      and_then (zero_code resp_data (length (b ∷ auth_params))) λ verify_data.
        and_then (verify_auth crypto protocol auth_key verify_data (b ∷ auth_params))
          λ good. if good then ok tt else err auth_failed
