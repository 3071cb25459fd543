-- ===== src/Client/Walk/Repeats.antt =====
-- src/client.rs: `walk` with an agent that repeats an answer.
use rusnmp.Prelude.{
  ℕ, zero, suc, ◌+◌, ◌<◌, ◌≡◌, ◌≢◌, refl, ap, arith, List, [], ◌∷◌, ◌++◌, length, length-append,
  replicate, length-replicate, All, take, false, if◌then◌else◌, Bool-cases, inl, inr,
}
use rusnmp.Prelude.Int.{ℤ, pos, IsI32, is_negative, wrapping_suc32}
use rusnmp.Error.{Outcome, ok, err, timeout}
use rusnmp.Types.{Oid, VarBind}
use rusnmp.Codec.Response.{SnmpResponse, decode_response}
use rusnmp.Client.{Exchange, SnmpClient, Action, reply, exchange, perform, get_next, get_bulk}
use rusnmp.Client.Requests.{id_after, id_after_fresh}
use rusnmp.Client.Replies.{after, requests-reply}
use rusnmp.Codec.Pdu.{encode_getnext_request, encode_getbulk_request}
use rusnmp.Client.Subtree.{scan, Belongs, scan-Scanned}
use rusnmp.Client.Walk.{is_v1, fetch, after_fetch, walk_loop, walk}

All-middle :
    {A : Type 0} (P : A → Type 0) (xs : List A) (y : A) (ys : List A) → All P (xs ++ y ∷ ys) → P y
All-middle P [] y ys h = h.0
All-middle P (x ∷ xs) y ys h = All-middle P xs y ys h.1

-- An answer that belongs throughout does not end the scan.
scan-done :
    (root : List ℕ) (vbs : List VarBind) (current : Oid) (results : List VarBind)
    → All (Belongs root) vbs
    → (scan root vbs current results).done ≡ false
scan-done root vbs current results h =
    let s = scan-Scanned root vbs current results in
    elim (Bool-cases (scan root vbs current results).done) [
      | inl e ↦
          let (vb, more, left, out) = s.stopped.0 e in
          absurd (out (All-middle (Belongs root) s.taken vb more (rw (← left, ← s.split) h)))
      | inr e ↦ e
    ]

-- The client after a round: an i32 identifier, the rest of the network, one more packet.
record Round (c c' : SnmpClient) (rest : List Exchange) : Type 0 where
  id : IsI32 c'.request_id
  network : c'.network ≡ rest
  sent : length c'.sent ≡ suc (length c.sent)

-- The packet that a round sends.
pub fetch_packet : SnmpClient → ℤ → Oid → List ℕ
fetch_packet c id current =
    if is_v1 c.version
    then encode_getnext_request c.version c.community id (current ∷ [])
    else encode_getbulk_request c.version c.community id (pos 0) (pos 20) (current ∷ [])

pub fetch-reply :
    (current : Oid) (c : SnmpClient) (bytes : List ℕ) (resp : SnmpResponse) (rest : List Exchange)
    → IsI32 c.request_id
    → c.network ≡ reply bytes ∷ rest
    → decode_response (take 65535 bytes) ≡ ok resp
    → resp.error_status ≡ 0
    → let id = pos (id_after c.request_id) in
      fetch current c ≡ (ok resp.varbinds, after c id (fetch_packet c id current) rest)
unfolding fetch fetch_packet
fetch-reply current c bytes resp rest h e d zero_status =
    ground (
      arith,
      requests-reply c bytes resp rest (current ∷ []) [] (pos 0) (pos 20) h e d,
      zero_status,
    )

after-Round :
    (c : SnmpClient) (packet : List ℕ) (rest : List Exchange)
    → IsI32 c.request_id
    → Round c (after c (pos (id_after c.request_id)) packet rest) rest
after-Round c packet rest h = record {
  id = (id_after_fresh c.request_id h).0;
  network = refl;
  sent = omega (arith, length-append c.sent (packet ∷ []));
}

after_fetch-next :
    (root : List ℕ) (current : Oid) (results vbs : List VarBind)
    (next : Oid → List VarBind → Action (List VarBind))
    → vbs ≢ []
    → All (Belongs root) vbs
    → let s = scan root vbs current results in
      after_fetch root current results vbs next ≡ next s.current s.results
unfolding after_fetch
after_fetch-next root current results [] next some h = absurd (some refl)
after_fetch-next root current results (vb ∷ vbs) next some h =
    rw (scan-done root (vb ∷ vbs) current results h)

-- What a walk that ran into the timeout leaves.
abbrev pub TimedOut : SnmpClient → ℕ → Outcome (List VarBind) × SnmpClient → Type 0
TimedOut c n r = (r.0 ≡ err timeout) × (length r.1.sent ≡ length c.sent + n + 1)

perform-silence :
    (packet : List ℕ) (c : SnmpClient)
    → c.network ≡ []
    → perform packet c ≡ (err timeout, record c { sent = c.sent ++ packet ∷ [] })
unfolding perform exchange
perform-silence packet c e = ground arith

fetch-silence :
    (current : Oid) (c : SnmpClient)
    → c.network ≡ []
    → (c' : SnmpClient) × (fetch current c ≡ (err timeout, c'))
      × (length c'.sent ≡ suc (length c.sent))
unfolding fetch fetch_packet get_next get_bulk
fetch-silence current c e =
    let id =
      if is_negative (wrapping_suc32 c.request_id) then pos 1 else wrapping_suc32 c.request_id in
    let packet = fetch_packet c id current in
    let numbered = record c { request_id = id } in
    (
      record numbered { sent = c.sent ++ packet ∷ [] },
      ground (arith, perform-silence packet numbered e),
      omega (arith, length-append c.sent (packet ∷ [])),
    )

module _ (bytes : List ℕ) (resp : SnmpResponse) (root : List ℕ)
    (decodes : decode_response (take 65535 bytes) ≡ ok resp) (no_error : resp.error_status ≡ 0)
    (not_empty : resp.varbinds ≢ []) (belong : All (Belongs root) resp.varbinds) where
  walk_loop-step :
      (fuel : ℕ) (current : Oid) (results : List VarBind) (c : SnmpClient) (rest : List Exchange)
      → IsI32 c.request_id
      → c.network ≡ reply bytes ∷ rest
      → let s = scan root resp.varbinds current results in
        let id = pos (id_after c.request_id) in
        walk_loop fetch (suc fuel) root current results c
        ≡ walk_loop fetch fuel root s.current s.results
            (after c id (fetch_packet c id current) rest)
  unfolding walk_loop
  walk_loop-step fuel current results c rest h e =
      let id = pos (id_after c.request_id) in
      rw (fetch-reply current c bytes resp rest h e decodes no_error) (
        ap (λ t. t (after c id (fetch_packet c id current) rest))
          (after_fetch-next root current results resp.varbinds (walk_loop fetch fuel root) not_empty
            belong))

  walk_loop-repeats :
      (n fuel : ℕ) (current : Oid) (results : List VarBind) (c : SnmpClient)
      → n < fuel
      → IsI32 c.request_id
      → c.network ≡ replicate n (reply bytes)
      → TimedOut c n (walk_loop fetch fuel root current results c)
  walk_loop-repeats n zero current results c f h e = absurd (omega arith)
  walk_loop-repeats zero (suc fuel) current results c f h e =
      let (c', silence, sent) = fetch-silence current c e in
      unfold walk_loop in ground (arith, silence, sent)
  walk_loop-repeats (suc n) (suc fuel) current results c f h e =
      let rest = replicate n (reply bytes) in
      let id = pos (id_after c.request_id) in
      let c' = after c id (fetch_packet c id current) rest in
      let round = after-Round c (fetch_packet c id current) rest h in
      let s = scan root resp.varbinds current results in
      let next = walk_loop-repeats n fuel s.current s.results c' (omega arith) round.id refl in
      rw (walk_loop-step fuel current results c rest h e)
        (next.0, omega (arith, next.1, round.sent))

-- An agent that repeats one error-free answer, not empty and all of it under the root with no
-- exception values, keeps `walk` asking for as long as it answers: after `n` answers the walk has
-- sent `n + 1` requests, ends with the timeout that follows, and returns none of the bindings.
-- The request identifier at the start is an i32.
pub walk-repeats :
    (root : Oid) (c : SnmpClient) (bytes : List ℕ) (resp : SnmpResponse) (n : ℕ)
    → IsI32 c.request_id
    → c.network ≡ replicate n (reply bytes)
    → decode_response (take 65535 bytes) ≡ ok resp
    → resp.error_status ≡ 0
    → resp.varbinds ≢ []
    → All (Belongs root.components) resp.varbinds
    → TimedOut c n (walk root c)
unfolding walk
walk-repeats root c bytes resp n h e d no_error not_empty belong =
    walk_loop-repeats bytes resp root.components d no_error not_empty belong n
      (suc (length c.network)) root [] c (rw e (rw length-replicate (omega arith))) h e
