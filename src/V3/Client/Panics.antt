-- ===== src/V3/Client/Panics.antt =====
-- src/v3_client.rs: `unwrap` on the privacy key of a client.
use rusnmp.Prelude.{ℕ, ◌≡◌, ◌⊎◌, inl, inr, refl, ap, sym, ◌∙◌, List, Option, none, some}
use rusnmp.Prelude.Int.{ℤ}
use rusnmp.Error.{ok, panicked, and_then, and_then-ok}
use rusnmp.Types.{Oid}
use rusnmp.V3.{AuthProtocol, PrivProtocol, UsmCredentials}
use rusnmp.V3.Crypto.{Crypto, password_to_key}
use rusnmp.V3.Crypto.Ciphers.{CryptoLaws}
use rusnmp.V3.Client.State.{SnmpV3Client}
use rusnmp.V3.Client.Requests.{make_packet, send_request, get_bulk}
use rusnmp.V3.Client.Requests.Steps.{numbered, salted, make_packet_lem, request_lem}
use rusnmp.V3.Client.Requests.Packets.{packet_of-ok}
use rusnmp.V3.Client.Keys.{Keys, keys_from, keys_of, DigestLaws, IsComplete, keys_of-IsEquipped}
use rusnmp.V3.Client.Ready.{IsReady}

-- Credentials that name a cipher but lack what its key is derived from.
pub record LacksKey (cr : UsmCredentials) : Type 0 where
  pub protocol : PrivProtocol
  pub encrypts : cr.priv_protocol ≡ some protocol
  pub lacks : (cr.auth_protocol ≡ none) ⊎ (cr.auth_password ≡ none) ⊎ (cr.priv_password ≡ none)

no_second :
    (a : Option (List ℕ)) (keys : Keys)
    → and_then (ok a) (λ t. ok (t, none)) ≡ ok keys
    → keys.1 ≡ none
no_second a keys e = let same : (a, none) ≡ keys = cc e in ap (λ (t : Keys). t.1) (sym same)

keys_from-no_password :
    (crypto : Crypto) (engine_id : List ℕ) (auth : Option AuthProtocol) (pass : Option (List ℕ))
    (priv : Option PrivProtocol) (keys : Keys)
    → keys_from crypto engine_id auth pass priv none ≡ ok keys
    → keys.1 ≡ none
keys_from-no_password crypto engine_id (some p) (some pass) (some q) keys e =
    let (k, _, same) =
      and_then-ok (password_to_key crypto p pass engine_id) (λ k. ok (some k, none)) keys e in
    no_second (some k) keys same
keys_from-no_password crypto engine_id (some p) (some pass) none keys e =
    let (k, _, same) =
      and_then-ok (password_to_key crypto p pass engine_id) (λ k. ok (some k, none)) keys e in
    no_second (some k) keys same
keys_from-no_password crypto engine_id (some p) none priv keys e = no_second none keys e
keys_from-no_password crypto engine_id none pass priv keys e = no_second none keys e

keys_from-no_auth :
    (crypto : Crypto) (engine_id : List ℕ) (auth : Option AuthProtocol) (pass : Option (List ℕ))
    (priv : Option PrivProtocol) (priv_pass : Option (List ℕ)) (keys : Keys)
    → (auth ≡ none) ⊎ (pass ≡ none)
    → keys_from crypto engine_id auth pass priv priv_pass ≡ ok keys
    → keys.1 ≡ none
keys_from-no_auth crypto engine_id none pass priv priv_pass keys h e = no_second none keys e
keys_from-no_auth crypto engine_id (some p) none priv priv_pass keys h e = no_second none keys e
keys_from-no_auth crypto engine_id (some p) (some q) priv priv_pass keys (inl h) e = cc
keys_from-no_auth crypto engine_id (some p) (some q) priv priv_pass keys (inr h) e = cc

LacksKey-none :
    (crypto : Crypto) (engine_id : List ℕ) (cr : UsmCredentials) (keys : Keys)
    → (cr.auth_protocol ≡ none) ⊎ (cr.auth_password ≡ none) ⊎ (cr.priv_password ≡ none)
    → keys_of crypto engine_id cr ≡ ok keys
    → keys.1 ≡ none
LacksKey-none crypto engine_id cr keys (inl h) e =
    keys_from-no_auth crypto engine_id cr.auth_protocol cr.auth_password cr.priv_protocol
      cr.priv_password keys (inl h) e
LacksKey-none crypto engine_id cr keys (inr (inl h)) e =
    keys_from-no_auth crypto engine_id cr.auth_protocol cr.auth_password cr.priv_protocol
      cr.priv_password keys (inr h) e
LacksKey-none crypto engine_id cr keys (inr (inr h)) e =
    keys_from-no_password crypto engine_id cr.auth_protocol cr.auth_password cr.priv_protocol keys
      (rw h at e)

-- A ready client whose credentials name a privacy protocol, but lack the authentication protocol or one
-- of the two passwords: every `send_request` and every `get_bulk` panics, whatever the network does,
-- and sends nothing.
pub requests-LacksKey :
    (crypto : Crypto) (c : SnmpV3Client) (pdu_type : ℕ) (varbind_data : List ℕ) (oids : List Oid)
    (non_repeaters max_repetitions : ℤ)
    → IsReady crypto c
    → LacksKey c.credentials
    → (send_request crypto pdu_type varbind_data c ≡ (panicked, numbered c))
      × (get_bulk crypto oids non_repeaters max_repetitions c ≡ (panicked, numbered c))
unfolding send_request get_bulk
requests-LacksKey crypto c pdu_type varbind_data oids nr mr h lack =
    let no_key : c.priv_key ≡ none =
      LacksKey-none crypto c.engine.engine_id c.credentials (c.auth_key, c.priv_key) lack.lacks
        h.keyed in
    (rw (request_lem, lack.encrypts, no_key) refl, rw (request_lem, lack.encrypts, no_key) refl)

-- A ready client whose credentials are complete, with crates that keep their laws, makes a packet for
-- every PDU: nothing panics before the packet is sent.
pub packet_of-IsReady :
    (crypto : Crypto) (laws : CryptoLaws crypto) (digests : DigestLaws crypto) (c : SnmpV3Client)
    (msg_id : ℤ) (scoped_pdu : List ℕ)
    → IsReady crypto c
    → IsComplete c.credentials
    → (packet : List ℕ) × (make_packet crypto msg_id scoped_pdu c ≡ (ok packet, salted c))
packet_of-IsReady crypto laws digests c msg_id scoped_pdu h full =
    let equipped =
      keys_of-IsEquipped crypto digests c.engine.engine_id c.credentials (c.auth_key, c.priv_key)
        full h.keyed in
    let (packet, made) = packet_of-ok crypto laws msg_id scoped_pdu c equipped in
    (packet, make_packet_lem crypto msg_id scoped_pdu c ∙ ap (λ t. (t, salted c)) made)
