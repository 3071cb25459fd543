-- ===== src/Client/Walk/Refinement.antt =====
-- src/client.rs: `walk` against the entries of an agent.
use rusnmp.Prelude.{
  ℕ, suc, ◌≤◌, ◌<◌, ◌+◌, ◌≡◌, refl, sym, ap, ◌∙◌, List, [], ◌∷◌, ◌++◌, take, length, All, Option,
  ◌==◌, if◌then◌else◌, Bool-cases, inl, inr,
}
use rusnmp.Prelude.Int.{ℤ, pos, wrapping_suc32, is_negative}
use rusnmp.Error.{Outcome, SnmpError, ok, err, panicked, out_of_fuel}
use rusnmp.Run.{eval}
use rusnmp.Types.{Oid, VarBind}
use rusnmp.Codec.Tags.{pdu_getnext, pdu_getbulk}
use rusnmp.Codec.Varbinds.{null_varbind}
use rusnmp.Codec.Response.{SnmpResponse, decode_response}
use rusnmp.Codec.Requests.{request, encode_requests-request}
use rusnmp.Client.{
  Exchange, SnmpClient, reply, exchange, next_request_id, varbinds_or_error, perform, get_next,
  get_bulk,
}
use rusnmp.Client.Walk.{is_v1, fetch, walk_loop, walk}
use rusnmp.Client.Walk.Mib.{later, IsSorted}
use rusnmp.Client.Walk.Entries.{IsStored}
use rusnmp.Client.Walk.Conversation.{Walker, Talk, Serves, Walked}
use rusnmp.Client.Walk.Loop.{walk_result, walk_loop-walk_result, walk_loop-entries, length-sent}

-- The identifier of the next request.
abbrev next_id : SnmpClient → ℤ
next_id c = if is_negative (wrapping_suc32 c.request_id) then pos 1 else wrapping_suc32 c.request_id

-- The bytes that ask for what follows an identifier: GETNEXT in v1, else GETBULK of up to 20 bindings.
abbrev pub next_packet : Oid → SnmpClient → List ℕ
next_packet current c =
    if is_v1 c.version
    then request c.version c.community pdu_getnext (next_id c) (pos 0) (pos 0)
        (null_varbind current ∷ [])
    else request c.version c.community pdu_getbulk (next_id c) (pos 0) (pos 20)
        (null_varbind current ∷ [])

-- The client after it has sent a packet and a datagram has come.
abbrev received : SnmpClient → List ℕ → List Exchange → SnmpClient
received c packet coming = record c { network = coming; sent = c.sent ++ packet ∷ [] }

perform-received :
    (packet : List ℕ) (c : SnmpClient) (bytes : List ℕ) (coming : List Exchange)
    → c.network ≡ reply bytes ∷ coming
    → (perform packet c).1 ≡ received c packet coming
unfolding perform exchange varbinds_or_error
perform-received packet c bytes coming e = go (decode_response (take 65535 bytes)) refl
  where
    go :
        (r : Outcome SnmpResponse)
        → decode_response (take 65535 bytes) ≡ r
        → (perform packet c).1 ≡ received c packet coming
    go (ok resp) f =
        rw (e, f)
          (elim (Bool-cases (resp.error_status == 0)) [ inl g ↦ rw g refl | inr g ↦ rw g refl ])
    go (err x) f = rw (e, f) refl
    go panicked f = rw (e, f) refl
    go out_of_fuel f = rw (e, f) refl

fetch-received :
    (current : Oid) (c : SnmpClient) (bytes : List ℕ) (coming : List Exchange)
    → c.network ≡ reply bytes ∷ coming
    → (fetch current c).1
      ≡ received (record c { request_id = next_id c }) (next_packet current c) coming
unfolding fetch get_next get_bulk next_request_id
fetch-received current c bytes coming e =
    let numbered = record c { request_id = next_id c } in
    let layout =
      encode_requests-request c.version c.community (next_id c) (pos 0) (pos 20) (current ∷ [])
        [] in
    elim (Bool-cases (is_v1 c.version)) [
      | inl v ↦ rw (v, sym layout.1) (perform-received _ numbered bytes coming e)
      | inr v ↦ rw (v, sym layout.2) (perform-received _ numbered bytes coming e)
    ]

pub fetch-sends :
    (current : Oid) (c : SnmpClient) (p bytes : List ℕ) (coming : List Exchange)
    → ok (next_packet current c) ≡ ok p
    → c.network ≡ reply bytes ∷ coming
    → ((fetch current c).1.sent ≡ c.sent ++ p ∷ []) × ((fetch current c).1.network ≡ coming)
fetch-sends current c p bytes coming e f =
    let after = fetch-received current c bytes coming f in
    let same : next_packet current c ≡ p = cc in
    (ap (λ t. t.sent) after ∙ ap (λ t. c.sent ++ t ∷ []) same, ap (λ t. t.network) after)

abbrev pub client_walker : Walker SnmpClient
client_walker = record {
  ask = fetch;
  network = λ c. c.network;
  sent = λ c. c.sent;
  packet = λ current c. ok (next_packet current c);
  sends = fetch-sends;
}

-- An agent keeps stored values under identifiers in lexicographic order and holds a conversation
-- with the walk out of them: each packet of it asks for what follows the identifier reached, byte
-- for byte, and is answered with the next entries after it, and at last with an end-of-view value,
-- with nothing or with a refusal. Then `walk` sends the first packets of this conversation, in
-- order and no others, uses up just their answers, and returns exactly the entries below the root,
-- in order, if the agent does not refuse or has an entry after the root that is not below it. In
-- the other case, the refusal behind the last entry, it returns that error and no entry.
pub walk-walk_result :
    (root : Oid) (mib : List VarBind) (refusal : Option SnmpError) (talk : Talk) (c : SnmpClient)
    → IsSorted mib
    → All IsStored mib
    → Serves client_walker mib refusal talk root c
    → Walked client_walker c talk (walk root c) (walk_result root.components mib refusal)
unfolding walk
walk-walk_result root mib refusal talk c m h s =
    walk_loop-walk_result client_walker root mib refusal talk c m h s

-- An agent keeps stored values under identifiers in lexicographic order and answers each packet of
-- the walk out of them, as `Serves` says. Then `walk` ends by itself, whatever else the network
-- still holds: any number of rounds above the number of entries after the root is enough for the
-- loop to return its result, and `walk` sends at most one packet more than there are such entries.
pub walk-later :
    (root : Oid) (mib : List VarBind) (refusal : Option SnmpError) (talk : Talk) (c : SnmpClient)
    (rounds : ℕ)
    → IsSorted mib
    → All IsStored mib
    → Serves client_walker mib refusal talk root c
    → length (later root.components mib) < rounds
    → (eval (walk_loop fetch rounds root.components root []) c
        ≡ walk_result root.components mib refusal)
      × (length (walk root c).1.sent ≤ length c.sent + suc (length (later root.components mib)))
walk-later root mib refusal talk c rounds m h s f = (
  (walk_loop-entries client_walker root mib refusal talk c m h s rounds f).returns,
  length-sent client_walker root mib refusal talk c m h s (walk root c)
      (walk_result root.components mib refusal) (walk-walk_result root mib refusal talk c m h s),
)
