-- ===== src/V3/Client/Ready/Start.antt =====
-- src/v3_client.rs: the invariant of a client that `new` returns.
use rusnmp.Prelude.{
  ℕ, ◌^◌, ◌<◌, ◌≡◌, refl, sym, ap, subst, arith, List, none, take, length, length-take,
}
use rusnmp.Prelude.Int.{ℤ, IsI32, IsU64}
use rusnmp.Error.{Outcome, ok, and_then-ok}
use rusnmp.Run.{continue-ok}
use rusnmp.Client.{Exchange}
use rusnmp.Client.Requests.{wrapping_abs32-IsI32}
use rusnmp.V3.{UsmCredentials}
use rusnmp.V3.Crypto.{Crypto}
use rusnmp.V3.Messages.Ends.{decode_v3_message-IsRead}
use rusnmp.V3.Client.State.{
  SnmpV3Client, derive_keys, discover_engine, start_up, unknown_engine, new,
}
use rusnmp.V3.Client.Keys.{Keys, keys_of, with_keys, derive_keys_lem}
use rusnmp.V3.Client.Discovery.{discovered, Discovered, discover_engine-Discovered}
use rusnmp.V3.Client.Ready.{IsReady, next_id-IsI32}

-- What a client that starts up successfully has become.
record Started (crypto : Crypto) (c : SnmpV3Client) : Type 0 where
  found : Discovered c
  keys : Keys
  derived : keys_of crypto found.msg.engine_id c.credentials ≡ ok keys
  whole : (start_up crypto c).1 ≡ with_keys (discovered c found.rest found.msg) keys

start_up-Started :
    (crypto : Crypto) (c : SnmpV3Client)
    → c.auth_key ≡ none
    → c.priv_key ≡ none
    → (start_up crypto c).0 ≡ ok tt
    → Started crypto c
unfolding start_up
start_up-Started crypto c m n e =
    let (_, done, more) =
      continue-ok (discover_engine c).0 (λ _. derive_keys crypto) (discover_engine c).1 tt e in
    let found = discover_engine-Discovered c done in
    let after = discovered c found.rest found.msg in
    let more' : (derive_keys crypto after).0 ≡ ok tt = rw found.whole at more in
    let (keys, derived, whole) = derive_keys_lem crypto after m n more' in
    record {
      found = found;
      keys = keys;
      derived = derived;
      whole = rw found.whole (ap (λ r. r.1) whole);
    }

Started-IsReady :
    (crypto : Crypto) (c : SnmpV3Client)
    → IsI32 c.msg_id
    → IsI32 c.request_id
    → IsU64 c.salt
    → Started crypto c
    → IsReady crypto (start_up crypto c).1
Started-IsReady crypto c hm hr hs s =
    let bytes = take 65535 s.found.bytes in
    let short : length bytes < 2 ^ 63 = omega (arith, length-take 65535 s.found.bytes) in
    let range = decode_v3_message-IsRead bytes s.found.msg short s.found.decodes in
    subst (IsReady crypto) (sym s.whole) (record {
      msg_id = next_id-IsI32 c.msg_id hm;
      request_id = hr;
      salt = hs;
      boots = range.boots;
      time = range.time;
      named = s.found.named;
      keyed = s.derived;
    })

-- A client that `new` returns, from i32 and u64 draws, satisfies the invariant, whatever the network
-- did.
pub new-IsReady :
    (crypto : Crypto) (socket : Outcome (List Exchange)) (credentials : UsmCredentials)
    (random_msg random_request : ℤ) (random_salt : ℕ) (c : SnmpV3Client)
    → IsI32 random_msg
    → IsI32 random_request
    → IsU64 random_salt
    → new crypto socket credentials random_msg random_request random_salt ≡ ok c
    → IsReady crypto c
unfolding new unknown_engine
new-IsReady crypto socket credentials random_msg random_request random_salt c hm hr hs e =
    let (network, _, started) = and_then-ok socket _ c e in
    let first = unknown_engine network credentials random_msg random_request random_salt in
    let (_, done, made) =
      and_then-ok (start_up crypto first).0 (λ _. ok (start_up crypto first).1) c started in
    let same : (start_up crypto first).1 ≡ c = cc made in
    subst (IsReady crypto) same (
      Started-IsReady crypto first (wrapping_abs32-IsI32 random_msg hm)
        (wrapping_abs32-IsI32 random_request hr) hs (start_up-Started crypto first refl refl done))
