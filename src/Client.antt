-- ===== src/Client.antt =====
-- src/client.rs: `SnmpClient`. The socket is what the network does at each exchange that is still to
-- come, and the log of what was sent.
pub mod Requests
pub mod Replies
pub mod Subtree
pub mod Walk
mod Examples
use rusnmp.Prelude.{ℕ, ◌+◌, ◌%◌, ◌^◌, List, [], ◌∷◌, ◌++◌, take, Bool, ◌==◌, if◌then◌else◌}
use rusnmp.Prelude.Int.{ℤ, pos, negsuc, signed32, wrapping_suc32, is_negative}
use rusnmp.Error.{Outcome, and_then, ok, err, io, timeout, decode, empty_response, snmp}
use rusnmp.Run.{Run, pure, fail, lift, gets, ◌>>=◌, ◌>>◌}
use rusnmp.Types.{Oid, VarBind, Version, v2c}
use rusnmp.Codec.Pdu.{
  encode_get_request, encode_getnext_request, encode_getbulk_request, encode_set_request,
}
use rusnmp.Codec.Response.{SnmpResponse, decode_response}

-- One `send_to` and the `recv` after it: the send fails; nothing comes within the timeout; the
-- receive fails; a datagram comes.
pub data Exchange : Type 0 where
  send_failed silent recv_failed : Exchange
  reply : List ℕ → Exchange

pub record SnmpClient : Type 0 where
  pub community : List ℕ
  pub version : Version
  pub timeout_secs : ℕ
  pub request_id : ℤ
  pub network : List Exchange
  pub sent : List (List ℕ)

abbrev pub Action : Type 0 → Type 0
Action A = Run SnmpClient A

-- `abs` on i32 in a release build, which leaves the least one as it is.
abbrev pub wrapping_abs32 : ℤ → ℤ
wrapping_abs32 (pos n) = pos n
wrapping_abs32 (negsuc n) = signed32 ((n + 1) % 2 ^ 32)

-- `socket` is what becomes of the address and of the socket bound to it, `random` is what `rand` draws.
unfoldable pub with_version : Outcome (List Exchange) → List ℕ → Version → ℤ → Outcome SnmpClient
with_version socket community version random = and_then socket λ network. ok (record {
  community = community;
  version = version;
  timeout_secs = 5;
  request_id = wrapping_abs32 random;
  network = network;
  sent = [];
})

unfoldable pub new : Outcome (List Exchange) → List ℕ → ℤ → Outcome SnmpClient
unfolding with_version
new socket community random = with_version socket community v2c random

unfoldable pub set_timeout : ℕ → SnmpClient → SnmpClient
set_timeout secs c = record c { timeout_secs = secs }

unfoldable pub next_request_id : Action ℤ
next_request_id c =
    let next = wrapping_suc32 c.request_id in
    let id = if is_negative next then pos 1 else next in (ok id, record c { request_id = id })

-- With no exchange left nothing comes any more.
unfoldable pub exchange : List Exchange → List ℕ → Action (List ℕ)
exchange [] packet c = (err timeout, record c { sent = c.sent ++ packet ∷ [] })
exchange (send_failed ∷ rest) packet c = (err io, record c { network = rest })
exchange (silent ∷ rest) packet c =
    (err timeout, record c { network = rest; sent = c.sent ++ packet ∷ [] })
exchange (recv_failed ∷ rest) packet c =
    (err io, record c { network = rest; sent = c.sent ++ packet ∷ [] })
exchange (reply bytes ∷ rest) packet c =
    (ok (take 65535 bytes), record c { network = rest; sent = c.sent ++ packet ∷ [] })

unfoldable pub send_and_recv : List ℕ → Action (List ℕ)
unfolding exchange
send_and_recv packet c = exchange c.network packet c

-- `if resp.error_status != 0 { return Err(…) } Ok(resp.varbinds)`
unfoldable pub varbinds_or_error : SnmpResponse → Action (List VarBind)
varbinds_or_error resp =
    if resp.error_status == 0
    then pure resp.varbinds
    else fail (snmp resp.error_status resp.error_index)

-- What every request does with its packet.
unfoldable pub perform : List ℕ → Action (List VarBind)
unfolding send_and_recv varbinds_or_error
perform packet = do
  resp_data ← send_and_recv packet
  resp ← lift (decode_response resp_data)
  varbinds_or_error resp

unfoldable pub get : List Oid → Action (List VarBind)
unfolding next_request_id perform
get oids = do
  req_id ← next_request_id
  packet ← gets (λ c. encode_get_request c.version c.community req_id oids)
  perform packet

unfoldable pub first_or_empty : List VarBind → Action VarBind
first_or_empty [] = fail (decode empty_response)
first_or_empty (vb ∷ _) = pure vb

unfoldable pub get_one : Oid → Action VarBind
unfolding get first_or_empty
get_one oid = do results ← get (oid ∷ []); first_or_empty results

unfoldable pub get_next : List Oid → Action (List VarBind)
unfolding next_request_id perform
get_next oids = do
  req_id ← next_request_id
  packet ← gets (λ c. encode_getnext_request c.version c.community req_id oids)
  perform packet

unfoldable pub get_bulk : List Oid → ℤ → ℤ → Action (List VarBind)
unfolding next_request_id perform
get_bulk oids non_repeaters max_repetitions = do
  req_id ← next_request_id
  packet ←
      gets (λ c.
        encode_getbulk_request c.version c.community req_id non_repeaters max_repetitions oids)
  perform packet

unfoldable pub set : List VarBind → Action (List VarBind)
unfolding next_request_id perform
set varbinds = do
  req_id ← next_request_id
  packet ← gets (λ c. encode_set_request c.version c.community req_id varbinds)
  perform packet
