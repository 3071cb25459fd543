-- ===== src/V3/Client/Ready.antt =====
-- src/v3_client.rs: the invariant of a client, and what a request makes of it.
pub mod Start
use rusnmp.Prelude.{
  ℕ, ◌+◌, ◌%◌, ◌^◌, ◌<◌, ◌≡◌, ◌≢◌, ◌∙◌, refl, sym, ap, subst, arith, List, [], Option, none, some,
  take, length, length-take,
}
use rusnmp.Prelude.Int.{ℤ, pos, IsI32, IsU32, IsU64}
use rusnmp.Error.{SnmpError, Outcome, ok, err, panicked, out_of_fuel, and_then, and_then-ok}
use rusnmp.Run.{Run, continue, continue-ok}
use rusnmp.Types.{Oid, VarBind}
use rusnmp.Client.{Exchange, wrapping_abs32}
use rusnmp.Client.Requests.{id_after, id_after_fresh, next_id-id_after, wrapping_abs32-IsI32}
use rusnmp.V3.{PrivProtocol, UsmCredentials}
use rusnmp.V3.Crypto.{Crypto}
use rusnmp.V3.Messages.{V3Message}
use rusnmp.V3.Messages.Ends.{decode_v3_message-IsRead}
use rusnmp.V3.Client.State.{
  SnmpV3Client, derive_keys, discover_engine, start_up, unknown_engine, new,
}
use rusnmp.V3.Client.Requests.{
  checked, unchecked, verify, transact, request, send_request, get, get_one, get_next, get_bulk,
  set,
}
use rusnmp.V3.Client.Requests.Steps.{
  next_id, numbered, salt_after, salted, packet_of, answered, scoped_pdu_of, request_lem,
}
use rusnmp.V3.Client.Requests.Course.{Course, transact-Course, failed, refused, broken, opened}
use rusnmp.V3.Client.Keys.{Keys, keys_of, with_keys, derive_keys_lem}
use rusnmp.V3.Client.Discovery.{discovered, Discovered, discover_engine-Discovered}

-- A client in range that knows its engine and has the keys that its credentials give for it.
pub record IsReady (crypto : Crypto) (c : SnmpV3Client) : Type 0 where
  pub msg_id : IsI32 c.msg_id
  pub request_id : IsI32 c.request_id
  pub salt : IsU64 c.salt
  pub boots : IsU32 c.engine.engine_boots
  pub time : IsU32 c.engine.engine_time
  pub named : c.engine.engine_id ≢ []
  pub keyed : keys_of crypto c.engine.engine_id c.credentials ≡ ok (c.auth_key, c.priv_key)

pub next_id-IsI32 : (v : ℤ) → IsI32 v → IsI32 (next_id v)
next_id-IsI32 v h =
    let (small, _) = id_after_fresh v h in subst IsI32 (sym (next_id-id_after v h)) small

salt_after-IsU64 :
    (priv : Option PrivProtocol) (priv_key : Option (List ℕ)) (salt : ℕ)
    → IsU64 salt
    → IsU64 (salt_after priv priv_key salt)
salt_after-IsU64 none priv_key salt h = h
salt_after-IsU64 (some p) none salt h = h
salt_after-IsU64 (some p) (some k) salt h = omega arith

module _ (crypto : Crypto) where
  salted-IsReady : (c : SnmpV3Client) → IsReady crypto c → IsReady crypto (salted (numbered c))
  salted-IsReady c h = record {
    msg_id = next_id-IsI32 c.msg_id h.msg_id;
    request_id = next_id-IsI32 c.request_id h.request_id;
    salt = salt_after-IsU64 c.credentials.priv_protocol c.priv_key c.salt h.salt;
    boots = h.boots;
    time = h.time;
    named = h.named;
    keyed = h.keyed;
  }

  elsewhere-IsReady :
      (c : SnmpV3Client) (n : List Exchange) (s : List (List ℕ))
      → IsReady crypto c
      → IsReady crypto (record c { network = n; sent = s })
  elsewhere-IsReady c n s h = record {
    msg_id = h.msg_id;
    request_id = h.request_id;
    salt = h.salt;
    boots = h.boots;
    time = h.time;
    named = h.named;
    keyed = h.keyed;
  }

  module _ (check : SnmpV3Client → List ℕ → V3Message → Outcome (Unit {0})) where
    Course-IsReady :
        (packet : List ℕ) (c : SnmpV3Client) (r : Outcome (List VarBind) × SnmpV3Client)
        → Course crypto check packet c r
        → IsReady crypto c
        → IsReady crypto r.1
    Course-IsReady packet c _ (failed x n s) h = elsewhere-IsReady c n s h
    Course-IsReady packet c _ (refused bytes rest x front d) h = elsewhere-IsReady c _ _ h
    Course-IsReady packet c _ (broken bytes rest front d) h = elsewhere-IsReady c _ _ h
    Course-IsReady packet c _ (opened bytes rest msg front d) h =
        let short : length (take 65535 bytes) < 2 ^ 63 = omega (arith, length-take 65535 bytes) in
        let range = decode_v3_message-IsRead (take 65535 bytes) msg short d in
        record {
          msg_id = h.msg_id;
          request_id = h.request_id;
          salt = h.salt;
          boots = range.boots;
          time = range.time;
          named = h.named;
          keyed = h.keyed;
        }

    continue-IsReady :
        {A B : Type 0} (o : Outcome A) (f : A → Run SnmpV3Client B) (c : SnmpV3Client)
        → IsReady crypto c
        → ((a : A) → IsReady crypto (f a c).1)
        → IsReady crypto (continue o f c).1
    continue-IsReady (ok a) f c h k = k a
    continue-IsReady (err e) f c h k = h
    continue-IsReady panicked f c h k = h
    continue-IsReady out_of_fuel f c h k = h

    pub request-IsReady :
        (pdu_type : ℕ) (second third : ℤ) (varbind_data : List ℕ) (c : SnmpV3Client)
        → IsReady crypto c
        → IsReady crypto (request crypto check pdu_type second third varbind_data c).1
    request-IsReady pdu_type second third varbind_data c h =
        let c1 = salted (numbered c) in
        let scoped = scoped_pdu_of crypto check pdu_type second third varbind_data c in
        let h1 = salted-IsReady c h in
        rw (request_lem crypto check pdu_type second third varbind_data c) (
          continue-IsReady (packet_of crypto (next_id c.msg_id) scoped (numbered c))
            (transact crypto check) c1 h1
            λ packet. Course-IsReady packet c1 _ (transact-Course crypto check packet c1) h1)

-- Every request keeps the invariant of the client, whatever the network does and whether the request
-- succeeds, fails or panics: identifiers, salt, boots and time in range, an engine that is known,
-- and the keys that the credentials give for that engine.
pub requests-IsReady :
    (crypto : Crypto) (c : SnmpV3Client) (oids : List Oid) (vbs : List VarBind)
    (non_repeaters max_repetitions : ℤ)
    → IsReady crypto c
    → IsReady crypto (get crypto oids c).1
      × IsReady crypto (get_next crypto oids c).1
      × IsReady crypto (get_bulk crypto oids non_repeaters max_repetitions c).1
      × IsReady crypto (set crypto vbs c).1
unfolding get get_next get_bulk set send_request
requests-IsReady crypto c oids vbs nr mr h = (
  request-IsReady crypto (checked crypto) _ _ _ _ c h,
  request-IsReady crypto (checked crypto) _ _ _ _ c h,
  request-IsReady crypto (unchecked crypto) _ _ _ _ c h,
  request-IsReady crypto (checked crypto) _ _ _ _ c h,
)
