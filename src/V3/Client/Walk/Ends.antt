-- ===== src/V3/Client/Walk/Ends.antt =====
-- src/v3_client.rs: the rounds of `walk`, its fuel and what it returns.
use rusnmp.Prelude.{
  ℕ, suc, ◌≡◌, ◌≢◌, ◌<◌, ◌^◌, refl, sym, ap, arith, List, [], ◌∷◌, take, length, length-take, All,
}
use rusnmp.Prelude.Int.{ℤ, pos}
use rusnmp.Error.{Outcome, ok, err, panicked, out_of_fuel}
use rusnmp.Run.{continue, eval}
use rusnmp.Types.{Oid, VarBind}
use rusnmp.Client.Requests.{Ended}
use rusnmp.Client.Subtree.{Belongs}
use rusnmp.Client.Walk.Ends.{walk_loop-ends}
use rusnmp.Client.Walk.Results.{walk_loop-Yields}
use rusnmp.V3.Crypto.{Crypto}
use rusnmp.V3.Messages.{V3Message}
use rusnmp.V3.Messages.Ends.{decode_v3_message-IsRead}
use rusnmp.V3.Client.State.{SnmpV3Client, V3Action, v3_pdu_getbulk}
use rusnmp.V3.Client.Requests.{
  checked, unchecked, open_pdu, encode_null_varbinds, transact, request, send_request, get_bulk,
}
use rusnmp.V3.Client.Requests.Steps.{
  next_id, numbered, salted, packet_of, answered, scoped_pdu_of, request_lem,
}
use rusnmp.V3.Client.Requests.Course.{Course, transact-Course, failed, refused, broken, opened}
use rusnmp.V3.Client.Requests.Ended.{
  NeverLengthens, and_then-ends, packet_of-ends, verify-ends, open_pdu-ends,
}
use rusnmp.V3.Client.Walk.{fetch, walk}

abbrev pending : SnmpV3Client → ℕ
pending c = length c.network

continue-Ended :
    {A : Type 0} (c c' : SnmpV3Client) (o : Outcome A) (f : A → V3Action (List VarBind))
    → pending c' ≡ pending c
    → o ≢ out_of_fuel
    → ((a : A) → Ended pending c' (f a c'))
    → Ended pending c (continue o f c')
continue-Ended c c' (ok a) f e h k = record {
  ends = (k a).ends;
  uses = λ vbs d. omega (arith, (k a).uses vbs d);
}
continue-Ended c c' (err x) f e h k = record { ends = λ z. cc; uses = λ vbs d. cc }
continue-Ended c c' panicked f e h k = record { ends = λ z. cc; uses = λ vbs d. cc }
continue-Ended c c' out_of_fuel f e h k = absurd (h refl)

module _ (crypto : Crypto) (h : NeverLengthens crypto)
    (check : SnmpV3Client → List ℕ → V3Message → Outcome (Unit {0}))
    (checks : (c : SnmpV3Client) (d : List ℕ) (m : V3Message) → check c d m ≢ out_of_fuel) where
  Course-Ended :
      (packet : List ℕ) (c : SnmpV3Client) (r : Outcome (List VarBind) × SnmpV3Client)
      → Course crypto check packet c r
      → Ended pending c r
  Course-Ended packet c _ (failed x n s) = record { ends = λ z. cc; uses = λ vbs d. cc }
  Course-Ended packet c _ (refused bytes rest x front d) = record {
    ends = λ z. cc;
    uses = λ vbs e. cc;
  }
  Course-Ended packet c _ (broken bytes rest front d) = record {
    ends = λ z. cc;
    uses = λ vbs e. cc;
  }
  Course-Ended packet c _ (opened bytes rest msg front d) =
      let short : length (take 65535 bytes) < 2 ^ 63 = omega (arith, length-take 65535 bytes) in
      let range = decode_v3_message-IsRead (take 65535 bytes) msg short d in
      let c' = answered crypto c packet rest msg in
      record {
        ends =
            and_then-ends (check c' (take 65535 bytes) msg) (λ _. open_pdu crypto c' msg)
              (checks c' (take 65535 bytes) msg) λ _ _. open_pdu-ends crypto h c' msg range.raw;
        uses = λ vbs _. ap (λ t. length t) (sym front);
      }

  request-Ended :
      (pdu_type : ℕ) (second third : ℤ) (varbind_data : List ℕ) (c : SnmpV3Client)
      → Ended pending c (request crypto check pdu_type second third varbind_data c)
  request-Ended pdu_type second third varbind_data c =
      let scoped = scoped_pdu_of crypto check pdu_type second third varbind_data c in
      rw (request_lem crypto check pdu_type second third varbind_data c) (
        continue-Ended c (salted (numbered c))
          (packet_of crypto (next_id c.msg_id) scoped (numbered c)) (transact crypto check) refl
          (packet_of-ends crypto (next_id c.msg_id) scoped (numbered c))
          λ packet.
            Course-Ended packet (salted (numbered c)) _
              (transact-Course crypto check packet (salted (numbered c))))

fetch-Ended :
    (crypto : Crypto) (h : NeverLengthens crypto) (current : Oid) (c : SnmpV3Client)
    → Ended pending c (fetch crypto current c)
unfolding fetch get_bulk
fetch-Ended crypto h current c =
    request-Ended crypto h (unchecked crypto) (λ s d m e. cc) v3_pdu_getbulk (pos 0) (pos 20)
      (encode_null_varbinds (current ∷ [])) c

-- With ciphers that never lengthen what they decrypt, `send_request` of the v3 client ends.
pub send_request-ends :
    (crypto : Crypto) (h : NeverLengthens crypto) (pdu_type : ℕ) (varbind_data : List ℕ)
    (c : SnmpV3Client)
    → eval (send_request crypto pdu_type varbind_data) c ≢ out_of_fuel
unfolding send_request
send_request-ends crypto h pdu_type varbind_data c =
    let check = checked crypto in
    let done =
      request-Ended crypto h check (λ s. verify-ends crypto s.credentials.auth_protocol s.auth_key)
        pdu_type (pos 0) (pos 0) varbind_data c in
    done.ends

-- The fuel of the model is enough: on a finite course of the network `walk` of the v3 client never
-- outruns it, with ciphers that never lengthen what they decrypt.
walk-terminates :
    (crypto : Crypto) (h : NeverLengthens crypto) (root : Oid) (c : SnmpV3Client)
    → eval (walk crypto root) c ≢ out_of_fuel
unfolding walk
walk-terminates crypto h root c =
    walk_loop-ends pending (fetch crypto) (fetch-Ended crypto h) (suc (pending c)) root.components
      root [] c (omega arith)

-- Whatever the agent answers, if `walk` of the v3 client succeeds, every binding that it returns is
-- under the root and carries no exception value.
pub walk-AllBelong :
    (crypto : Crypto) (root : Oid) (c : SnmpV3Client) (out : List VarBind)
    → eval (walk crypto root) c ≡ ok out
    → All (Belongs root.components) out
unfolding walk
walk-AllBelong crypto root c =
    walk_loop-Yields root.components (fetch crypto) (suc (pending c)) root [] c tt
