-- ===== src/V3/Client/State.antt =====
-- src/v3_client.rs, lines 16 to 129: the state of `SnmpV3Client`, its counters and keys, the exchange
-- with the network and the discovery of the engine.
use rusnmp.Prelude.{
  ℕ, ◌+◌, ◌%◌, ◌^◌, List, [], ◌∷◌, ◌++◌, take, Option, none, some, false, if◌then◌else◌,
}
use rusnmp.Prelude.Int.{ℤ, pos, wrapping_suc32, is_negative}
use rusnmp.Error.{Outcome, ok, err, and_then, io, timeout, discovery_failed}
use rusnmp.Run.{Run, pure, fail, lift, gets, modify, ◌>>=◌, ◌>>◌}
use rusnmp.Client.{Exchange, reply, send_failed, silent, recv_failed, wrapping_abs32}
use rusnmp.V3.{AuthProtocol, PrivProtocol, UsmCredentials, EngineState}
use rusnmp.V3.Crypto.{Crypto, password_to_key}
use rusnmp.V3.Messages.{
  V3Message, encode_usm_params, encode_v3_message, encode_scoped_pdu, decode_v3_message,
}

-- The socket is what the network does at each exchange still to come, and the log of what was sent.
pub record SnmpV3Client : Type 0 where
  pub credentials : UsmCredentials
  pub engine : EngineState
  pub timeout_secs : ℕ
  pub msg_id : ℤ
  pub request_id : ℤ
  pub salt : ℕ
  pub auth_key : Option (List ℕ)
  pub priv_key : Option (List ℕ)
  pub network : List Exchange
  pub sent : List (List ℕ)

abbrev pub V3Action : Type 0 → Type 0
V3Action A = Run SnmpV3Client A

abbrev pub v3_pdu_get : ℕ
v3_pdu_get = 0xA0

abbrev pub v3_pdu_getnext : ℕ
v3_pdu_getnext = 0xA1

abbrev pub v3_pdu_set : ℕ
v3_pdu_set = 0xA3

abbrev pub v3_pdu_getbulk : ℕ
v3_pdu_getbulk = 0xA5

-- The client before its discovery.
unfoldable pub unknown_engine : List Exchange → UsmCredentials → ℤ → ℤ → ℕ → SnmpV3Client
unknown_engine network credentials random_msg random_request random_salt = record {
  credentials = credentials;
  engine = record { engine_id = []; engine_boots = 0; engine_time = 0 };
  timeout_secs = 5;
  msg_id = wrapping_abs32 random_msg;
  request_id = wrapping_abs32 random_request;
  salt = random_salt;
  auth_key = none;
  priv_key = none;
  network = network;
  sent = [];
}

unfoldable pub set_timeout : ℕ → SnmpV3Client → SnmpV3Client
set_timeout secs c = record c { timeout_secs = secs }

unfoldable pub next_msg_id : V3Action ℤ
next_msg_id c =
    let next = wrapping_suc32 c.msg_id in
    let id = if is_negative next then pos 1 else next in (ok id, record c { msg_id = id })

unfoldable pub next_request_id : V3Action ℤ
next_request_id c =
    let next = wrapping_suc32 c.request_id in
    let id = if is_negative next then pos 1 else next in (ok id, record c { request_id = id })

-- `wrapping_add` on u64.
unfoldable pub next_salt : V3Action ℕ
next_salt c = let next = (c.salt + 1) % 2 ^ 64 in (ok next, record c { salt = next })

-- With no exchange left nothing comes any more.
unfoldable pub exchange : List Exchange → List ℕ → V3Action (List ℕ)
exchange [] packet c = (err timeout, record c { sent = c.sent ++ packet ∷ [] })
exchange (send_failed ∷ rest) packet c = (err io, record c { network = rest })
exchange (silent ∷ rest) packet c =
    (err timeout, record c { network = rest; sent = c.sent ++ packet ∷ [] })
exchange (recv_failed ∷ rest) packet c =
    (err io, record c { network = rest; sent = c.sent ++ packet ∷ [] })
exchange (reply bytes ∷ rest) packet c =
    (ok (take 65535 bytes), record c { network = rest; sent = c.sent ++ packet ∷ [] })

unfoldable pub send_and_recv : List ℕ → V3Action (List ℕ)
unfolding exchange
send_and_recv packet c = exchange c.network packet c

unfoldable pub encode_empty_varbinds : List ℕ
encode_empty_varbinds = []

-- The packet of `discover_engine`.
unfoldable pub discovery_packet : ℤ → List ℕ
unfolding encode_empty_varbinds
discovery_packet msg_id =
    let scoped_pdu =
      encode_scoped_pdu [] [] v3_pdu_get (pos 0) (pos 0) (pos 0) encode_empty_varbinds in
    encode_v3_message msg_id (pos 65507) 0x04 (pos 3) (encode_usm_params [] 0 0 [] [] []) scoped_pdu
      false

-- What `discover_engine` does with the message that answers.
unfoldable pub keep_engine : List ℕ → V3Message → V3Action (Unit {0})
keep_engine [] msg = fail discovery_failed
keep_engine (b ∷ engine_id) msg = modify λ c. record c {
  engine = record {
    engine_id = b ∷ engine_id;
    engine_boots = msg.engine_boots;
    engine_time = msg.engine_time;
  };
}

unfoldable pub discover_engine : V3Action (Unit {0})
unfolding next_msg_id send_and_recv discovery_packet keep_engine
discover_engine = do
  msg_id ← next_msg_id
  resp_data ← send_and_recv (discovery_packet msg_id)
  msg ← lift (decode_v3_message resp_data)
  keep_engine msg.engine_id msg

module _ (crypto : Crypto) where
  -- The inner `if let` of `derive_keys`.
  unfoldable pub derive_priv_key :
      AuthProtocol → Option PrivProtocol → Option (List ℕ) → V3Action (Unit {0})
  derive_priv_key protocol (some _) (some priv_pass) = do
    engine ← gets (λ c. c.engine)
    key ← lift (password_to_key crypto protocol priv_pass engine.engine_id)
    modify (λ c. record c { priv_key = some key })
  derive_priv_key protocol _ _ = pure tt

  -- The outer one.
  unfoldable pub derive_auth_key : Option AuthProtocol → Option (List ℕ) → V3Action (Unit {0})
  unfolding derive_priv_key
  derive_auth_key (some protocol) (some pass) = do
    engine ← gets (λ c. c.engine)
    key ← lift (password_to_key crypto protocol pass engine.engine_id)
    modify (λ c. record c { auth_key = some key })
    credentials ← gets (λ c. c.credentials)
    derive_priv_key protocol credentials.priv_protocol credentials.priv_password
  derive_auth_key _ _ = pure tt

  unfoldable pub derive_keys : V3Action (Unit {0})
  unfolding derive_auth_key
  derive_keys c = derive_auth_key c.credentials.auth_protocol c.credentials.auth_password c

  -- The last two calls of `new`.
  unfoldable pub start_up : V3Action (Unit {0})
  unfolding discover_engine derive_keys
  start_up = do discover_engine; derive_keys

  -- `socket` is what becomes of the address and of the socket bound to it, the other arguments are what
  -- `rand` draws.
  unfoldable pub new : Outcome (List Exchange) → UsmCredentials → ℤ → ℤ → ℕ → Outcome SnmpV3Client
  unfolding start_up
  new socket credentials random_msg random_request random_salt = and_then socket λ network.
      let client = unknown_engine network credentials random_msg random_request random_salt in
      let (done, made) = start_up client in and_then done λ _. ok made
