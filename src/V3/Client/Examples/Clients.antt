-- ===== src/V3/Client/Examples/Clients.antt =====
-- src/v3_client.rs: concrete clients.
use rusnmp.Prelude.{
  ℕ, ◌≡◌, refl, arith, List, [], ◌∷◌, take, replicate, length-replicate, some, none,
}
use rusnmp.Prelude.Int.{pos}
use rusnmp.Error.{ok}
use rusnmp.Client.{Exchange, reply}
use rusnmp.V3.{UsmCredentials, md5, aes128}
use rusnmp.V3.Crypto.{
  Crypto, digest_len, password_to_master_key, password_to_key, localize_key, compute_auth, encrypt,
}
use rusnmp.V3.Crypto.Keys.{password_to_master_key-Cycles}
use rusnmp.V3.Client.State.{SnmpV3Client}
use rusnmp.V3.Client.Keys.{DigestLaws, keys_of}
use rusnmp.V3.Client.Ready.{IsReady}
use rusnmp.V3.Client.Requests.Answered.{Answers, HasKeys}
use rusnmp.V3.Client.Requests.Ended.{NeverLengthens}
use rusnmp.V3.Client.Examples.Messages.{
  crypto, engine_id, user, bindings, bindings-IsWireVarBind, scoped-small, plain_reply,
  sealed_reply, sealed_message, sealed-decoded,
}

abbrev pub client : UsmCredentials → List Exchange → SnmpV3Client
client credentials network = record {
  credentials = credentials;
  engine = record { engine_id = engine_id; engine_boots = 3; engine_time = 4000 };
  timeout_secs = 5;
  msg_id = pos 1;
  request_id = pos 6;
  salt = 8;
  auth_key = none;
  priv_key = none;
  network = network;
  sent = [];
}

-- Without authentication, with a response to come.
abbrev pub open_client : SnmpV3Client
open_client =
    client
      (record {
        username = user;
        auth_protocol = none;
        auth_password = none;
        priv_protocol = none;
        priv_password = none;
      })
      (reply plain_reply ∷ [])

pub open_client-IsReady : IsReady crypto open_client
open_client-IsReady = record {
  msg_id = omega arith;
  request_id = omega arith;
  salt = omega arith;
  boots = omega arith;
  time = omega arith;
  named = λ e. cc;
  keyed = refl;
}

-- A privacy protocol without an authentication protocol.
abbrev pub broken_client : SnmpV3Client
broken_client =
    client
      (record {
        username = user;
        auth_protocol = none;
        auth_password = none;
        priv_protocol = some aes128;
        priv_password = some user;
      })
      (reply plain_reply ∷ [])

pub broken_client-IsReady : IsReady crypto broken_client
broken_client-IsReady = record {
  msg_id = omega arith;
  request_id = omega arith;
  salt = omega arith;
  boots = omega arith;
  time = omega arith;
  named = λ e. cc;
  keyed = refl;
}

-- With both protocols and both keys.
abbrev pub full_client : SnmpV3Client
full_client =
    record (client
      (record {
        username = user;
        auth_protocol = some md5;
        auth_password = some user;
        priv_protocol = some aes128;
        priv_password = some user;
      })
      (reply sealed_reply ∷ [])) {
        auth_key = some (replicate 16 7);
        priv_key = some (replicate 16 7);
      }

pub key_made :
    (c : Crypto) (pass m : List ℕ)
    → password_to_master_key c md5 pass ≡ ok m
    → password_to_key c md5 pass engine_id ≡ ok (localize_key c md5 m engine_id)
unfolding password_to_key
key_made c pass m e = rw e refl

pub user-key : password_to_key crypto md5 user engine_id ≡ ok (replicate 16 7)
unfolding localize_key digest_len
user-key =
    let (fed, e, _) = password_to_master_key-Cycles crypto md5 user (omega arith) in
    key_made crypto user (crypto.digest md5 fed) e

pub keys_made :
    password_to_key crypto md5 user engine_id ≡ ok (replicate 16 7)
    → keys_of crypto engine_id full_client.credentials
      ≡ ok (some (replicate 16 7), some (replicate 16 7))
keys_made e = rw e refl

pub full_client-IsReady : IsReady crypto full_client
full_client-IsReady = record {
  msg_id = omega arith;
  request_id = omega arith;
  salt = omega arith;
  boots = omega arith;
  time = omega arith;
  named = λ e. cc;
  keyed = keys_made user-key;
}

pub digests : DigestLaws crypto
digests = record { digest_length = λ p m. length-replicate (digest_len p) 7 }

pub full_client-HasKeys : HasKeys full_client md5 (replicate 16 7) aes128 (replicate 16 7)
full_client-HasKeys = record {
  auth_protocol = refl;
  auth_key_kept = refl;
  priv_protocol = refl;
  priv_key_kept = refl;
  long = omega arith;
}

pub sealed-Answers : Answers crypto aes128 (replicate 16 7) sealed_reply sealed_message bindings
unfolding digest_len encrypt
sealed-Answers = record {
  engine_id = engine_id;
  context_name = [];
  pdu_type = 0xA2;
  rid = pos 7;
  ei = pos 0;
  salt = 9;
  decodes = sealed-decoded;
  flagged = refl;
  sealed = refl;
  rid_small = omega arith;
  ei_small = omega arith;
  wire = bindings-IsWireVarBind;
  fits = omega (arith, scoped-small);
}

pub sealed-code :
    compute_auth crypto md5 (replicate 16 7) (take 65535 sealed_reply) ≡ ok (replicate 12 5)
unfolding compute_auth digest_len
sealed-code = refl

pub never : NeverLengthens crypto
never = record {
  des_length = λ k iv bytes out e. ground arith;
  aes_length = λ k iv bytes. omega arith;
}
