-- ===== src/V3/Client/Examples/States.antt =====
-- src/v3_client.rs: concrete packets, and the states of concrete clients.
use rusnmp.Prelude.{ℕ, ◌≡◌, refl, arith, List, [], ◌∷◌, inl}
use rusnmp.Prelude.Int.{pos}
use rusnmp.Error.{ok, panicked}
use rusnmp.Client.{reply}
use rusnmp.V3.{no_auth, md5, aes128}
use rusnmp.V3.Client.State.{
  SnmpV3Client, v3_pdu_get, new, discover_engine, derive_keys, unknown_engine, send_and_recv,
}
use rusnmp.V3.Client.Discovery.{discovered}
use rusnmp.V3.Client.Ready.{IsReady, requests-IsReady}
use rusnmp.V3.Client.Ready.Start.{new-IsReady}
use rusnmp.V3.Client.Requests.{send_request, get, get_next, get_bulk, set, make_packet}
use rusnmp.V3.Client.Requests.Steps.{numbered, salted}
use rusnmp.V3.Client.Panics.{requests-LacksKey, packet_of-IsReady}
use rusnmp.V3.Client.Examples.Messages.{
  crypto, laws, user, root, bindings, scoped, plain_reply, plain_message, plain-decoded,
}
use rusnmp.V3.Client.Examples.Clients.{
  open_client, open_client-IsReady, broken_client, broken_client-IsReady, full_client,
  full_client-IsReady, digests,
}

requests-IsReady_example :
    let oids = root ∷ [] in
    IsReady crypto (get crypto oids open_client).1
    × IsReady crypto (get_next crypto oids open_client).1
    × IsReady crypto (get_bulk crypto oids (pos 0) (pos 20) open_client).1
    × IsReady crypto (set crypto bindings open_client).1
requests-IsReady_example =
    requests-IsReady crypto open_client (root ∷ []) bindings (pos 0) (pos 20) open_client-IsReady

requests-LacksKey_example :
    (send_request crypto v3_pdu_get [] broken_client ≡ (panicked, numbered broken_client))
    × (get_bulk crypto [] (pos 0) (pos 20) broken_client ≡ (panicked, numbered broken_client))
requests-LacksKey_example =
    requests-LacksKey crypto broken_client v3_pdu_get [] [] (pos 0) (pos 20) broken_client-IsReady
      (record { protocol = aes128; encrypts = refl; lacks = inl refl })

packet_of-IsReady_example :
    (packet : List ℕ) × (make_packet crypto (pos 1) scoped full_client
      ≡ (ok packet, salted full_client))
packet_of-IsReady_example =
    packet_of-IsReady crypto laws digests full_client (pos 1) scoped full_client-IsReady (record {
      auth_protocol = md5;
      has_auth = refl;
      auth_password = user;
      has_auth_password = refl;
      priv_password = user;
      has_priv_password = refl;
    })

-- A client whose discovery has been answered.
abbrev new_client : SnmpV3Client
new_client =
    discovered (unknown_engine (reply plain_reply ∷ []) (no_auth user) (pos 1) (pos 6) 8) []
      plain_message

new_client-made :
    new crypto (ok (reply plain_reply ∷ [])) (no_auth user) (pos 1) (pos 6) 8 ≡ ok new_client
unfolding new discover_engine derive_keys unknown_engine no_auth send_and_recv
new_client-made = rw plain-decoded refl

new-IsReady_example : IsReady crypto new_client
new-IsReady_example =
    new-IsReady crypto (ok (reply plain_reply ∷ [])) (no_auth user) (pos 1) (pos 6) 8 new_client
      (omega arith) (omega arith) (omega arith) new_client-made
