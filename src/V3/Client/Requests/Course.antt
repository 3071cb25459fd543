-- ===== src/V3/Client/Requests/Course.antt =====
-- src/v3_client.rs: the courses that a request can take from the sending of its packet on.
use rusnmp.Prelude.{
  ℕ, ◌≡◌, refl, subst, sym, arith, inl, inr, List, [], ◌∷◌, ◌++◌, take, length-take,
}
use rusnmp.Error.{SnmpError, Outcome, ok, err, panicked, out_of_fuel}
use rusnmp.Types.{VarBind}
use rusnmp.Client.{Exchange, reply}
use rusnmp.V3.Crypto.{Crypto}
use rusnmp.V3.Messages.{V3Message, decode_v3_message}
use rusnmp.V3.Messages.Ends.{decode_v3_message-ends}
use rusnmp.V3.Client.State.{SnmpV3Client, exchange, send_and_recv}
use rusnmp.V3.Client.Requests.{transact}
use rusnmp.V3.Client.Requests.Steps.{answer_of, answered, exchange_cases, transact-reply}

module _ (crypto : Crypto) (check : SnmpV3Client → List ℕ → V3Message → Outcome (Unit {0}))
    (packet : List ℕ) (c : SnmpV3Client) where
  -- The client once a datagram has come.
  abbrev pub received : List Exchange → SnmpV3Client
  received rest = record c { network = rest; sent = c.sent ++ packet ∷ [] }

  -- No datagram comes; one comes that is refused, or panics the decoder; or it is a message.
  pub data Course : Outcome (List VarBind) × SnmpV3Client → Type 0 where
    failed :
        (x : SnmpError) (n : List Exchange) (s : List (List ℕ))
        → Course (err x, record c { network = n; sent = s })
    refused :
        (bytes : List ℕ) (rest : List Exchange) (x : SnmpError)
        → c.network ≡ reply bytes ∷ rest
        → decode_v3_message (take 65535 bytes) ≡ err x
        → Course (err x, received rest)
    broken :
        (bytes : List ℕ) (rest : List Exchange)
        → c.network ≡ reply bytes ∷ rest
        → decode_v3_message (take 65535 bytes) ≡ panicked
        → Course (panicked, received rest)
    opened :
        (bytes : List ℕ) (rest : List Exchange) (msg : V3Message)
        → c.network ≡ reply bytes ∷ rest
        → decode_v3_message (take 65535 bytes) ≡ ok msg
        → Course (
          answer_of crypto check (answered crypto c packet rest msg) (take 65535 bytes) msg,
          answered crypto c packet rest msg,
        )

  transact-failed :
      (x : SnmpError) (c' : SnmpV3Client)
      → exchange c.network packet c ≡ (err x, c')
      → c' ≡ record c { network = c'.network; sent = c'.sent }
      → Course (transact crypto check packet c)
  unfolding transact send_and_recv
  transact-failed x c' e same =
      rw e (subst (λ t. Course (err x, t)) (sym same) (failed x c'.network c'.sent))

  transact-came :
      (bytes : List ℕ) (rest : List Exchange) (o : Outcome V3Message)
      → c.network ≡ reply bytes ∷ rest
      → exchange c.network packet c ≡ (ok (take 65535 bytes), received rest)
      → decode_v3_message (take 65535 bytes) ≡ o
      → Course (transact crypto check packet c)
  transact-came bytes rest (ok msg) front came d =
      rw (transact-reply crypto check packet c bytes rest msg front d)
        (opened bytes rest msg front d)
  transact-came bytes rest (err x) front came d =
      unfold transact send_and_recv in rw (came, d) (refused bytes rest x front d)
  transact-came bytes rest panicked front came d =
      unfold transact send_and_recv in rw (came, d) (broken bytes rest front d)
  transact-came bytes rest out_of_fuel front came d =
      absurd (decode_v3_message-ends (take 65535 bytes) (omega (arith, length-take 65535 bytes)) d)

  pub transact-Course : Course (transact crypto check packet c)
  transact-Course = elim (exchange_cases c.network packet c) [
    | inl (x, c', e, same) ↦ transact-failed x c' e same
    | inr (bytes, rest, front, came) ↦
        transact-came bytes rest (decode_v3_message (take 65535 bytes)) front came refl
  ]
