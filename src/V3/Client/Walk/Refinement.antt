-- ===== src/V3/Client/Walk/Refinement.antt =====
-- src/v3_client.rs: `walk` against the entries of an agent.
use rusnmp.Prelude.{
  ℕ, suc, ◌≤◌, ◌<◌, ◌+◌, ◌≡◌, refl, sym, ap, ◌∙◌, List, [], ◌∷◌, ◌++◌, take, length, append-nil,
  All, Option,
}
use rusnmp.Prelude.Int.{pos}
use rusnmp.Error.{Outcome, SnmpError, ok, err, panicked, out_of_fuel}
use rusnmp.Run.{eval, continue}
use rusnmp.Types.{Oid, VarBind}
use rusnmp.Codec.Encoder.Appends.{appends}
use rusnmp.Codec.Varbinds.{null_varbind, varbinds_bytes}
use rusnmp.Client.{Exchange, reply}
use rusnmp.Client.Walk.{walk_loop}
use rusnmp.Client.Walk.Mib.{later, IsSorted}
use rusnmp.Client.Walk.Entries.{IsStored}
use rusnmp.Client.Walk.Conversation.{Walker, Talk, Serves, Walked}
use rusnmp.Client.Walk.Loop.{walk_result, walk_loop-walk_result, walk_loop-entries, length-sent}
use rusnmp.V3.Crypto.{Crypto}
use rusnmp.V3.Messages.{V3Message, decode_v3_message}
use rusnmp.V3.Client.State.{SnmpV3Client, v3_pdu_getbulk, exchange}
use rusnmp.V3.Client.Requests.{encode_null_varbinds, unchecked, transact, get_bulk}
use rusnmp.V3.Client.Requests.Steps.{numbered, salted, request_lem, transact-reply}
use rusnmp.V3.Client.Requests.Replies.{request_packet}
use rusnmp.V3.Client.Walk.{fetch, walk}

-- One identifier with a null value.
encode_null_varbinds-one :
    (oid : Oid) → encode_null_varbinds (oid ∷ []) ≡ varbinds_bytes (null_varbind oid ∷ [])
unfolding encode_null_varbinds
encode_null_varbinds-one oid = simp appends (sym (append-nil _))

module _ (crypto : Crypto) where
  -- The packet that asks for what follows an identifier: a GETBULK of up to 20 bindings.
  abbrev pub next_packet : Oid → SnmpV3Client → Outcome (List ℕ)
  next_packet current c =
      request_packet crypto v3_pdu_getbulk (pos 0) (pos 20)
        (varbinds_bytes (null_varbind current ∷ [])) c

  transact-sent :
      (packet : List ℕ) (c : SnmpV3Client) (bytes : List ℕ) (coming : List Exchange)
      → c.network ≡ reply bytes ∷ coming
      → let after = (transact crypto (unchecked crypto) packet c).1 in
        (after.sent ≡ c.sent ++ packet ∷ []) × (after.network ≡ coming)
  transact-sent packet c bytes coming e = go (decode_v3_message (take 65535 bytes)) refl
    where
      go :
          (r : Outcome V3Message)
          → decode_v3_message (take 65535 bytes) ≡ r
          → let after = (transact crypto (unchecked crypto) packet c).1 in
            (after.sent ≡ c.sent ++ packet ∷ []) × (after.network ≡ coming)
      go (ok msg) f =
          let done =
            ap (λ t. t.1)
              (transact-reply crypto (unchecked crypto) packet c bytes coming msg e f) in
          (ap (λ t. t.sent) done, ap (λ t. t.network) done)
      go (err x) f = unfold transact exchange in rw (e, f) (refl, refl)
      go panicked f = unfold transact exchange in rw (e, f) (refl, refl)
      go out_of_fuel f = unfold transact exchange in rw (e, f) (refl, refl)

  pub fetch-next_packet :
      (current : Oid) (c : SnmpV3Client) (p : List ℕ)
      → next_packet current c ≡ ok p
      → fetch crypto current c ≡ transact crypto (unchecked crypto) p (salted (numbered c))
  unfolding fetch get_bulk
  fetch-next_packet current c p e =
      request_lem crypto (unchecked crypto) v3_pdu_getbulk (pos 0) (pos 20)
        (encode_null_varbinds (current ∷ [])) c
      ∙ rw encode_null_varbinds-one
          (ap (λ t. continue t (transact crypto (unchecked crypto)) (salted (numbered c))) e)

  pub fetch-sends :
      (current : Oid) (c : SnmpV3Client) (p bytes : List ℕ) (coming : List Exchange)
      → next_packet current c ≡ ok p
      → c.network ≡ reply bytes ∷ coming
      → ((fetch crypto current c).1.sent ≡ c.sent ++ p ∷ [])
        × ((fetch crypto current c).1.network ≡ coming)
  fetch-sends current c p bytes coming e f =
      let after = ap (λ t. t.1) (fetch-next_packet current c p e) in
      let done = transact-sent p (salted (numbered c)) bytes coming f in
      (ap (λ t. t.sent) after ∙ done.0, ap (λ t. t.network) after ∙ done.1)

  abbrev pub v3_walker : Walker SnmpV3Client
  v3_walker = record {
    ask = fetch crypto;
    network = λ c. c.network;
    sent = λ c. c.sent;
    packet = next_packet;
    sends = fetch-sends;
  }

  -- An agent keeps stored values under identifiers in lexicographic order and holds a conversation
  -- with the walk of the v3 client out of them: each packet of it asks for what follows the
  -- identifier reached, under the next identifiers and as the engine, the keys and the salt want
  -- it, and is answered with the next entries after it, and at last with an end-of-view value, with
  -- nothing or with an error. Then `walk` sends the first packets of this conversation, in order
  -- and no others, uses up just their answers, and returns exactly the entries below the root, in
  -- order, if the agent does not end with an error or has an entry after the root that is not below
  -- it. In the other case, the error behind the last entry, it returns that error and no entry.
  pub walk_lem :
      (root : Oid) (mib : List VarBind) (refusal : Option SnmpError) (talk : Talk)
      (c : SnmpV3Client)
      → IsSorted mib
      → All IsStored mib
      → Serves v3_walker mib refusal talk root c
      → Walked v3_walker c talk (walk crypto root c) (walk_result root.components mib refusal)
  unfolding walk
  walk_lem root mib refusal talk c m h s =
      walk_loop-walk_result v3_walker root mib refusal talk c m h s

  -- An agent keeps stored values under identifiers in lexicographic order and answers each packet
  -- of the walk out of them, as `Serves` says. Then `walk` of the v3 client ends by itself,
  -- whatever else the network still holds: any number of rounds above the number of entries after
  -- the root is enough for the loop to return its result, and `walk` sends at most one packet more
  -- than there are such entries.
  pub walk_loop-later :
      (root : Oid) (mib : List VarBind) (refusal : Option SnmpError) (talk : Talk)
      (c : SnmpV3Client) (rounds : ℕ)
      → IsSorted mib
      → All IsStored mib
      → Serves v3_walker mib refusal talk root c
      → length (later root.components mib) < rounds
      → (eval (walk_loop (fetch crypto) rounds root.components root []) c
          ≡ walk_result root.components mib refusal)
        × (length (walk crypto root c).1.sent
            ≤ length c.sent + suc (length (later root.components mib)))
  walk_loop-later root mib refusal talk c rounds m h s f = (
    (walk_loop-entries v3_walker root mib refusal talk c m h s rounds f).returns,
    length-sent v3_walker root mib refusal talk c m h s (walk crypto root c)
        (walk_result root.components mib refusal) (walk_lem root mib refusal talk c m h s),
  )
