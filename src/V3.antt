-- ===== src/V3.antt =====
-- src/v3.rs: the security model of v3. This module has its protocols, credentials and engine state.
pub mod Messages
pub mod Crypto
pub mod Client
mod Examples
use rusnmp.Prelude.{ℕ, bit_or, List, Bool, true, false, Option, none, some, if◌then◌else◌}

pub data AuthProtocol : Type 0 where
  md5 sha1 sha256 : AuthProtocol

pub data PrivProtocol : Type 0 where
  des aes128 : PrivProtocol

-- A text is its UTF-8 bytes.
pub record UsmCredentials : Type 0 where
  pub username : List ℕ
  pub auth_protocol : Option AuthProtocol
  pub auth_password : Option (List ℕ)
  pub priv_protocol : Option PrivProtocol
  pub priv_password : Option (List ℕ)

unfoldable pub no_auth : List ℕ → UsmCredentials
no_auth username = record {
  username = username;
  auth_protocol = none;
  auth_password = none;
  priv_protocol = none;
  priv_password = none;
}

unfoldable pub auth_only : List ℕ → AuthProtocol → List ℕ → UsmCredentials
auth_only username protocol password = record {
  username = username;
  auth_protocol = some protocol;
  auth_password = some password;
  priv_protocol = none;
  priv_password = none;
}

unfoldable pub auth_priv : List ℕ → AuthProtocol → List ℕ → PrivProtocol → List ℕ → UsmCredentials
auth_priv username auth_protocol auth_password priv_protocol priv_password = record {
  username = username;
  auth_protocol = some auth_protocol;
  auth_password = some auth_password;
  priv_protocol = some priv_protocol;
  priv_password = some priv_password;
}

abbrev pub is_some : {A : Type 0} → Option A → Bool
is_some none = false
is_some (some a) = true

unfoldable pub security_level : UsmCredentials → ℕ
security_level c =
    let flags = if is_some c.auth_protocol then bit_or 0 0x01 else 0 in
    if is_some c.priv_protocol then bit_or flags 0x02 else flags

pub record EngineState : Type 0 where
  pub engine_id : List ℕ
  pub engine_boots : ℕ
  pub engine_time : ℕ
