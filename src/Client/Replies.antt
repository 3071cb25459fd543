-- ===== src/Client/Replies.antt =====
-- src/client.rs: a request that is answered by a response, state and result together.
use rusnmp.Prelude.{ℕ, ◌≡◌, arith, List, [], ◌∷◌, ◌++◌, take, ◌==◌, if◌then◌else◌}
use rusnmp.Prelude.Int.{ℤ, pos, IsI32}
use rusnmp.Error.{Outcome, ok, err, snmp}
use rusnmp.Types.{Oid, VarBind}
use rusnmp.Codec.Pdu.{
  encode_get_request, encode_getnext_request, encode_getbulk_request, encode_set_request,
}
use rusnmp.Codec.Response.{SnmpResponse, decode_response}
use rusnmp.Client.{
  Exchange, SnmpClient, reply, exchange, varbinds_or_error, perform, get, get_next, get_bulk, set,
}
use rusnmp.Client.Requests.{id_after, next_id-id_after}

-- What a request returns for a decoded response.
abbrev pub result_of : SnmpResponse → Outcome (List VarBind)
result_of resp =
    if resp.error_status == 0
    then ok resp.varbinds
    else err (snmp resp.error_status resp.error_index)

-- The client after it has sent `packet` under the identifier `id`, with `rest` still to come.
abbrev pub after : SnmpClient → ℤ → List ℕ → List Exchange → SnmpClient
after c id packet rest = record c { request_id = id; network = rest; sent = c.sent ++ packet ∷ [] }

module _ (bytes : List ℕ) (resp : SnmpResponse) (rest : List Exchange)
    (decodes : decode_response (take 65535 bytes) ≡ ok resp) where
  perform-reply :
      (packet : List ℕ) (c : SnmpClient)
      → c.network ≡ reply bytes ∷ rest
      → perform packet c
        ≡ (result_of resp, record c { network = rest; sent = c.sent ++ packet ∷ [] })
  unfolding perform exchange varbinds_or_error
  perform-reply packet c e = ground (arith, decodes)

-- For a client whose request identifier is an i32 and a datagram that decodes to a response,
-- whatever its version, community and request identifier: each of the four requests sends exactly
-- its own packet under the next identifier, uses up the datagram, and returns the bindings of the
-- response, or its error if the error status is not 0.
pub requests-reply :
    (c : SnmpClient) (bytes : List ℕ) (resp : SnmpResponse) (rest : List Exchange) (oids : List Oid)
    (vbs : List VarBind) (non_repeaters max_repetitions : ℤ)
    → IsI32 c.request_id
    → c.network ≡ reply bytes ∷ rest
    → decode_response (take 65535 bytes) ≡ ok resp
    → let id = pos (id_after c.request_id) in
      (get oids c
        ≡ (result_of resp, after c id (encode_get_request c.version c.community id oids) rest))
      × (get_next oids c ≡ (
        result_of resp,
        after c id (encode_getnext_request c.version c.community id oids) rest,
      ))
      × (get_bulk oids non_repeaters max_repetitions c ≡ (
        result_of resp,
        after c id
            (encode_getbulk_request c.version c.community id non_repeaters max_repetitions oids)
            rest,
      ))
      × (set vbs c
          ≡ (result_of resp, after c id (encode_set_request c.version c.community id vbs) rest))
unfolding get get_next get_bulk set
requests-reply c bytes resp rest oids vbs non_repeaters max_repetitions h e d =
    let next = next_id-id_after c.request_id h in
    let sends = perform-reply bytes resp rest d in
    (rw next (sends _ _ e), rw next (sends _ _ e), rw next (sends _ _ e), rw next (sends _ _ e))
