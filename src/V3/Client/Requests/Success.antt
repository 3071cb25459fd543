-- ===== src/V3/Client/Requests/Success.antt =====
-- src/v3_client.rs: what a request that succeeds tells of the network and of the response.
use rusnmp.Prelude.{ℕ, ◌≡◌, ◌⊎◌, ◌∙◌, refl, sym, ap, List, [], ◌∷◌, take, some}
use rusnmp.Prelude.Int.{ℤ, pos}
use rusnmp.Error.{and_then-ok, Outcome, ok}
use rusnmp.Run.{continue-ok, eval}
use rusnmp.Types.{VarBind}
use rusnmp.Client.{Exchange, reply}
use rusnmp.V3.{AuthProtocol}
use rusnmp.V3.Crypto.{Crypto, compute_auth}
use rusnmp.V3.Messages.{V3Message, decode_v3_message}
use rusnmp.V3.Client.Code.{passed, check_code-compute_auth}
use rusnmp.V3.Client.{check_code}
use rusnmp.V3.Client.State.{SnmpV3Client}
use rusnmp.V3.Client.Requests.{checked, verify, open_pdu, transact, request, send_request}
use rusnmp.V3.Client.Requests.Course.{Course, transact-Course, failed, refused, broken, opened}
use rusnmp.V3.Client.Requests.Steps.{numbered, salted, answered, request_lem}

-- The message that answered, from the client `c` that sent `packet`.
pub record Answer (crypto : Crypto) (check : SnmpV3Client → List ℕ → V3Message → Outcome (Unit {0}))
    (c : SnmpV3Client) (packet : List ℕ) (vbs : List VarBind) : Type 0 where
  pub bytes : List ℕ
  pub rest : List Exchange
  pub msg : V3Message
  pub front : c.network ≡ reply bytes ∷ rest
  pub decodes : decode_v3_message (take 65535 bytes) ≡ ok msg
  pub passes : check (answered crypto c packet rest msg) (take 65535 bytes) msg ≡ passed
  pub opens : open_pdu crypto (answered crypto c packet rest msg) msg ≡ ok vbs

module _ (crypto : Crypto) (check : SnmpV3Client → List ℕ → V3Message → Outcome (Unit {0})) where
  Course-Answer :
      (packet : List ℕ) (c : SnmpV3Client) (vbs : List VarBind)
      (r : Outcome (List VarBind) × SnmpV3Client)
      → Course crypto check packet c r
      → r.0 ≡ ok vbs
      → Answer crypto check c packet vbs
  Course-Answer packet c vbs _ (failed x n s) e = cc
  Course-Answer packet c vbs _ (refused bytes rest x front d) e = cc
  Course-Answer packet c vbs _ (broken bytes rest front d) e = cc
  Course-Answer packet c vbs _ (opened bytes rest msg front d) e =
      let c' = answered crypto c packet rest msg in
      let (_, passes, opens) =
        and_then-ok (check c' (take 65535 bytes) msg) (λ _. open_pdu crypto c' msg) vbs e in
      record {
        bytes = bytes;
        rest = rest;
        msg = msg;
        front = front;
        decodes = d;
        passes = passes;
        opens = opens;
      }

  pub request-Answer :
      (pdu_type : ℕ) (second third : ℤ) (varbind_data : List ℕ) (c : SnmpV3Client)
      (vbs : List VarBind)
      → eval (request crypto check pdu_type second third varbind_data) c ≡ ok vbs
      → (packet : List ℕ) × Answer crypto check (salted (numbered c)) packet vbs
  request-Answer pdu_type second third varbind_data c vbs e =
      let whole = request_lem crypto check pdu_type second third varbind_data c in
      let (packet, _, sent) =
        continue-ok _ (transact crypto check) (salted (numbered c)) vbs
          (ap (λ r. r.0) (sym whole) ∙ e) in
      (
        packet,
        Course-Answer packet (salted (numbered c)) vbs _
            (transact-Course crypto check packet (salted (numbered c))) sent,
      )

pub verify_lem :
    (crypto : Crypto) (protocol : AuthProtocol) (auth_key resp_data : List ℕ) (msg : V3Message)
    → verify crypto (some protocol) (some auth_key) resp_data msg
      ≡ check_code crypto protocol auth_key resp_data msg.auth_params
unfolding verify
verify_lem crypto protocol auth_key resp_data msg = refl

-- What the agent did for a request to succeed: it sent a message that has no code, or whose code is
-- that of the whole datagram under the key.
abbrev pub Authentic : Crypto → AuthProtocol → List ℕ → List Exchange → Type 0
Authentic crypto protocol auth_key network =
    (bytes : List ℕ) × (rest : List Exchange) × (msg : V3Message) × (network ≡ reply bytes ∷ rest)
    × (decode_v3_message (take 65535 bytes) ≡ ok msg)
    × ((msg.auth_params ≡ [])
        ⊎ (compute_auth crypto protocol auth_key (take 65535 bytes) ≡ ok msg.auth_params))

-- For a client that has an authentication protocol and a key for it: if `send_request` succeeds, the
-- next datagram of the network decodes to a message whose code is what `compute_auth` gives for the
-- datagram under that key, or which carries no code at all.
pub send_request-Authentic :
    (crypto : Crypto) (protocol : AuthProtocol) (auth_key : List ℕ) (c : SnmpV3Client)
    (pdu_type : ℕ) (varbind_data : List ℕ) (vbs : List VarBind)
    → c.credentials.auth_protocol ≡ some protocol
    → c.auth_key ≡ some auth_key
    → eval (send_request crypto pdu_type varbind_data) c ≡ ok vbs
    → Authentic crypto protocol auth_key c.network
unfolding send_request
send_request-Authentic crypto protocol auth_key c pdu_type varbind_data vbs p k e =
    let check = checked crypto in
    let (packet, a) = request-Answer crypto check pdu_type (pos 0) (pos 0) varbind_data c vbs e in
    let code =
      check_code-compute_auth crypto protocol auth_key (take 65535 a.bytes) a.msg.auth_params in
    (a.bytes, a.rest, a.msg, a.front, a.decodes, code.0 (rw (p, k, verify_lem) at a.passes))
