-- ===== src/Client/Requests.antt =====
-- src/client.rs: request identifiers, and what one request does with the network.
use rusnmp.Prelude.{
  ℕ, zero, suc, ◌+◌, ◌^◌, ◌<◌, ◌≡◌, ◌≢◌, refl, sym, ap, subst, arith, List, [], ◌∷◌, ◌++◌, ◌-◌,
  if◌then◌else◌, length, length-take, take, ◌⊎◌, inl, inr, ◌==◌,
}
use rusnmp.Prelude.Int.{ℤ, pos, negsuc, IsI32, wrapping_suc32, is_negative}
use rusnmp.Error.{SnmpError, Outcome, ok, err, panicked, out_of_fuel}
use rusnmp.Run.{continue}
use rusnmp.Types.{Oid, VarBind, Version}
use rusnmp.Codec.Response.{SnmpResponse, decode_response}
use rusnmp.Codec.Response.Ends.{decode_response-ends}
use rusnmp.Client.{
  Exchange, SnmpClient, reply, send_failed, silent, recv_failed, next_request_id, exchange,
  varbinds_or_error, perform, get, get_next, get_bulk, set, with_version, wrapping_abs32,
}

-- The identifier after a given one: the next number, 1 after the largest, and 0 or 1 after a
-- negative one.
abbrev pub id_after : ℤ → ℕ
id_after (pos n) = if n == 2 ^ 31 - 1 then 1 else n + 1
id_after (negsuc zero) = 0
id_after (negsuc (suc n)) = 1

pub next_id-id_after :
    (v : ℤ)
    → IsI32 v
    → (if is_negative (wrapping_suc32 v) then pos 1 else wrapping_suc32 v) ≡ pos (id_after v)
next_id-id_after (pos n) h = ground arith
next_id-id_after (negsuc zero) h = refl
next_id-id_after (negsuc (suc n)) h = ground arith

pub id_after_fresh : (v : ℤ) → IsI32 v → (id_after v < 2 ^ 31) × (pos (id_after v) ≢ v)
id_after_fresh (pos n) h = ground arith
id_after_fresh (negsuc zero) h = (omega arith, λ e. cc)
id_after_fresh (negsuc (suc n)) h = (omega arith, λ e. cc)

-- From an i32 the next identifier is an i32 that is not negative, it is stored, nothing else of the
-- client changes, and it differs from the one before.
pub next_request_id-fresh :
    (c : SnmpClient)
    → IsI32 c.request_id
    → let n = id_after c.request_id in
      (next_request_id c ≡ (ok (pos n), record c { request_id = pos n }))
      × (n < 2 ^ 31)
      × (pos n ≢ c.request_id)
unfolding next_request_id
next_request_id-fresh c h =
    let (small, new_one) = id_after_fresh c.request_id h in
    (
      ap (λ t. (ok t, record c { request_id = t })) (next_id-id_after c.request_id h),
      small,
      new_one,
    )

-- An exchange fails, or it uses up a datagram and hands on at most 65535 bytes of it.
pub exchange_cases :
    (network : List Exchange) (packet : List ℕ) (c : SnmpClient)
    → ((e : SnmpError) × (c' : SnmpClient) × (exchange network packet c ≡ (err e, c')))
      ⊎ ((bytes : List ℕ) × (rest : List Exchange) × (network ≡ reply bytes ∷ rest)
          × (exchange network packet c
              ≡ (ok (take 65535 bytes), record c { network = rest; sent = c.sent ++ packet ∷ [] })))
unfolding exchange
exchange_cases [] packet c = inl (_, _, refl)
exchange_cases (send_failed ∷ rest) packet c = inl (_, _, refl)
exchange_cases (silent ∷ rest) packet c = inl (_, _, refl)
exchange_cases (recv_failed ∷ rest) packet c = inl (_, _, refl)
exchange_cases (reply bytes ∷ rest) packet c = inr (bytes, rest, refl, refl)

-- A request ends, and a successful one has used up one of the exchanges that `left` counts.
pub record Ended {S : Type 0} (left : S → ℕ) (c : S) (r : Outcome (List VarBind) × S) : Type 0 where
  pub ends : r.0 ≢ out_of_fuel
  pub uses : (vbs : List VarBind) → r.0 ≡ ok vbs → suc (left r.1) ≡ left c

abbrev pub pending : SnmpClient → ℕ
pending c = length c.network

settled :
    (c c' : SnmpClient) (o : Outcome SnmpResponse)
    → o ≢ out_of_fuel
    → suc (length c'.network) ≡ length c.network
    → Ended pending c (continue o varbinds_or_error c')
unfolding varbinds_or_error
settled c c' (ok resp) h e = record { ends = ground arith; uses = λ vbs d. ground arith }
settled c c' (err x) h e = record { ends = λ z. cc; uses = λ vbs d. cc }
settled c c' panicked h e = record { ends = λ z. cc; uses = λ vbs d. cc }
settled c c' out_of_fuel h e = absurd (h refl)

perform-Ended : (packet : List ℕ) (c : SnmpClient) → Ended pending c (perform packet c)
unfolding perform
perform-Ended packet c = elim (exchange_cases c.network packet c) [
  | inl (e, c', failed) ↦ rw failed (record { ends = λ z. cc; uses = λ vbs d. cc })
  | inr (bytes, rest, front, came) ↦ rw came (
      settled c _ (decode_response (take 65535 bytes))
        (decode_response-ends (take 65535 bytes) (omega (arith, length-take 65535 bytes)))
        (sym (ap (λ t. length t) front)))
]

pub get-Ended : (oids : List Oid) (c : SnmpClient) → Ended pending c (get oids c)
unfolding get next_request_id
get-Ended oids c =
    let r = perform-Ended _ (next_request_id c).1 in record { ends = r.ends; uses = r.uses }

pub get_next-Ended : (oids : List Oid) (c : SnmpClient) → Ended pending c (get_next oids c)
unfolding get_next next_request_id
get_next-Ended oids c =
    let r = perform-Ended _ (next_request_id c).1 in record { ends = r.ends; uses = r.uses }

pub get_bulk-Ended :
    (oids : List Oid) (non_repeaters max_repetitions : ℤ) (c : SnmpClient)
    → Ended pending c (get_bulk oids non_repeaters max_repetitions c)
unfolding get_bulk next_request_id
get_bulk-Ended oids non_repeaters max_repetitions c =
    let r = perform-Ended _ (next_request_id c).1 in record { ends = r.ends; uses = r.uses }

pub set-Ended : (vbs : List VarBind) (c : SnmpClient) → Ended pending c (set vbs c)
unfolding set next_request_id
set-Ended vbs c =
    let r = perform-Ended _ (next_request_id c).1 in record { ends = r.ends; uses = r.uses }

pub wrapping_abs32-IsI32 : (v : ℤ) → IsI32 v → IsI32 (wrapping_abs32 v)
wrapping_abs32-IsI32 (pos n) h = h
wrapping_abs32-IsI32 (negsuc n) h = ground arith

-- A client that `with_version` makes from an i32 that is drawn starts with an i32 as its request
-- identifier, which `next_request_id` needs.
pub with_version-IsI32 :
    (socket : Outcome (List Exchange)) (community : List ℕ) (version : Version) (random : ℤ)
    (c : SnmpClient)
    → IsI32 random
    → with_version socket community version random ≡ ok c
    → IsI32 c.request_id
unfolding with_version
with_version-IsI32 (ok network) community version random c h e =
    let made : SnmpClient = record {
      community = community;
      version = version;
      timeout_secs = 5;
      request_id = wrapping_abs32 random;
      network = network;
      sent = [];
    } in
    let same : made ≡ c = cc e in
    subst (λ t. IsI32 t.request_id) same (wrapping_abs32-IsI32 random h)
with_version-IsI32 (err x) community version random c h e = cc
with_version-IsI32 panicked community version random c h e = cc
with_version-IsI32 out_of_fuel community version random c h e = cc
