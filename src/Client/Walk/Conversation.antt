-- ===== src/Client/Walk/Conversation.antt =====
-- src/client.rs and src/v3_client.rs: the conversation of a walk with an agent, packet by packet.
use rusnmp.Prelude.{
  ℕ, suc, ◌≤◌, ◌≡◌, refl, sym, ap, ◌∙◌, arith, List, [], ◌∷◌, ◌++◌, map, length, length-append,
  append_assoc, Option, none, some,
}
use rusnmp.Error.{Outcome, SnmpError, ok, err}
use rusnmp.Run.{Run}
use rusnmp.Types.{Oid, VarBind, end_of_mib_view}
use rusnmp.Client.{Exchange, reply}
use rusnmp.Client.Walk.Mib.{later, IsSorted}
use rusnmp.Client.Walk.Entries.{later_from}

-- A client that walks: its request of a round, the network, the log, and the packet that asks for
-- what follows an identifier. If there is a packet and a datagram comes, the request sends just that
-- packet and uses up the datagram.
pub record Walker (S : Type 0) : Type 0 where
  pub ask : Oid → Run S (List VarBind)
  pub network : S → List Exchange
  pub sent : S → List (List ℕ)
  pub packet : Oid → S → Outcome (List ℕ)
  pub sends :
      (current : Oid) (c : S) (p bytes : List ℕ) (coming : List Exchange)
      → packet current c ≡ ok p
      → network c ≡ reply bytes ∷ coming
      → (sent (ask current c).1 ≡ sent c ++ p ∷ []) × (network (ask current c).1 ≡ coming)

pub length-map : {A B : Type 0} (f : A → B) (xs : List A) → length (map f xs) ≡ length xs
length-map f [] = refl
length-map f (x ∷ xs) = ap suc (length-map f xs)

-- Packets, each with the datagram that answers it.
abbrev pub Talk : Type 0
Talk = List (List ℕ × List ℕ)

-- A packet that asks for what follows `current`, and its answer, which the client reads as `r`.
pub record Answer {S : Type 0} (w : Walker S) (current : Oid) (c : S) (p bytes : List ℕ)
    (r : Outcome (List VarBind) × S) : Type 0 where
  pub asks : w.packet current c ≡ ok p
  pub coming : List Exchange
  pub comes : w.network c ≡ reply bytes ∷ coming
  pub reads : w.ask current c ≡ r

-- The agent answers the packet that asks for what follows `current` with the next entries, one at
-- least. If none is left it answers with an end-of-view value, which may also stand behind the last
-- entries, or with nothing; or, with `some error`, it refuses the request.
pub data Serves {S : Type 0} (w : Walker S) (mib : List VarBind) (refusal : Option SnmpError)
    : Talk → Oid → S → Type 0 where
  next_entries :
      {talk : Talk} {current : Oid} {c c' : S} {p bytes : List ℕ} (front : List VarBind)
      (vb : VarBind) (rest : List VarBind)
      → Answer w current c p bytes (ok (front ++ vb ∷ []), c')
      → later current.components mib ≡ front ++ vb ∷ rest
      → Serves w mib refusal talk vb.oid c'
      → Serves w mib refusal ((p, bytes) ∷ talk) current c
  end_of_view :
      {current : Oid} {c c' : S} {p bytes : List ℕ} (view : VarBind) (views : List VarBind)
      → Answer w current c p bytes (ok (later current.components mib ++ view ∷ views), c')
      → view.value ≡ end_of_mib_view
      → refusal ≡ none
      → Serves w mib refusal ((p, bytes) ∷ []) current c
  nothing_left :
      {current : Oid} {c c' : S} {p bytes : List ℕ}
      → Answer w current c p bytes (ok [], c')
      → later current.components mib ≡ []
      → refusal ≡ none
      → Serves w mib refusal ((p, bytes) ∷ []) current c
  refused :
      {current : Oid} {c c' : S} {p bytes : List ℕ} (e : SnmpError)
      → Answer w current c p bytes (err e, c')
      → later current.components mib ≡ []
      → refusal ≡ some e
      → Serves w mib refusal ((p, bytes) ∷ []) current c

-- A run that has asked the first packets of a conversation, in order and no others, has used up
-- exactly their answers, and returns `out`.
pub record Walked {S : Type 0} (w : Walker S) (c : S) (talk : Talk) (r : Outcome (List VarBind) × S)
    (out : Outcome (List VarBind)) : Type 0 where
  pub returns : r.0 ≡ out
  pub asked : Talk
  pub unasked : Talk
  pub split : talk ≡ asked ++ unasked
  pub sent : w.sent r.1 ≡ w.sent c ++ map (λ t. t.0) asked
  pub answered : w.network c ≡ map (λ t. reply t.1) asked ++ w.network r.1

module _ {S : Type 0} (w : Walker S) (current : Oid) (c c' : S) (p bytes : List ℕ)
    (r : Outcome (List VarBind)) (a : Answer w current c p bytes (r, c')) where
  after_sent : w.sent c' ≡ w.sent c ++ p ∷ []
  after_sent =
      ap (λ t. w.sent t.1) (sym a.reads) ∙ (w.sends current c p bytes a.coming a.asks a.comes).0

  after_network : w.network c ≡ reply bytes ∷ w.network c'
  after_network =
      a.comes
      ∙ ap (λ t. reply bytes ∷ t)
          (sym (w.sends current c p bytes a.coming a.asks a.comes).1
            ∙ ap (λ t. w.network t.1) a.reads)

  -- The run ends with this answer.
  pub Walked-last :
      (talk : Talk) (run : Outcome (List VarBind) × S) (out : Outcome (List VarBind))
      → run ≡ (out, c')
      → Walked w c ((p, bytes) ∷ talk) run out
  Walked-last talk run out e = record {
    returns = ap (λ t. t.0) e;
    asked = (p, bytes) ∷ [];
    unasked = talk;
    split = refl;
    sent = ap (λ t. w.sent t.1) e ∙ after_sent;
    answered = after_network ∙ ap (λ t. reply bytes ∷ w.network t.1) (sym e);
  }

  -- The run goes on behind this answer.
  pub Walked-next :
      (talk : Talk) (run run' : Outcome (List VarBind) × S) (out : Outcome (List VarBind))
      → run ≡ run'
      → Walked w c' talk run' out
      → Walked w c ((p, bytes) ∷ talk) run out
  Walked-next talk run run' out e h = record {
    returns = ap (λ t. t.0) e ∙ h.returns;
    asked = (p, bytes) ∷ h.asked;
    unasked = h.unasked;
    split = ap (λ t. (p, bytes) ∷ t) h.split;
    sent =
        ap (λ t. w.sent t.1) e
        ∙ h.sent
        ∙ ap (λ t. t ++ map (λ t. t.0) h.asked) after_sent
        ∙ append_assoc (w.sent c) (p ∷ []) (map (λ t. t.0) h.asked);
    answered =
        after_network
        ∙ ap (λ t. reply bytes ∷ t) h.answered
        ∙ ap (λ t. reply bytes ∷ (map (λ t. reply t.1) h.asked ++ w.network t.1)) (sym e);
  }

module _ {S : Type 0} (w : Walker S) (mib : List VarBind) (refusal : Option SnmpError) where
  pub Serves-some :
      (talk : Talk) (current : Oid) (c : S) → Serves w mib refusal talk current c → 1 ≤ length talk
  Serves-some talk current c (next_entries front vb rest a l s) = omega arith
  Serves-some talk current c (end_of_view view views a v e) = omega arith
  Serves-some talk current c (nothing_left a l e) = omega arith
  Serves-some talk current c (refused x a l e) = omega arith

  pub Serves-network :
      (talk : Talk) (current : Oid) (c : S)
      → Serves w mib refusal talk current c
      → length talk ≤ length (w.network c)
  Serves-network talk current c
        (next_entries {talk = more} {c' = c'} {p} {bytes} front vb rest a l s) =
      omega (
        arith,
        Serves-network more vb.oid c' s,
        ap (λ t. length t) (after_network w current c c' p bytes _ a),
      )
  Serves-network talk current c (end_of_view view views a v e) =
      omega (arith, ap (λ t. length t) a.comes)
  Serves-network talk current c (nothing_left a l e) = omega (arith, ap (λ t. length t) a.comes)
  Serves-network talk current c (refused x a l e) = omega (arith, ap (λ t. length t) a.comes)

  -- Each answer but the last uses up an entry.
  pub Serves-later :
      (talk : Talk) (current : Oid) (c : S)
      → IsSorted mib
      → Serves w mib refusal talk current c
      → length talk ≤ suc (length (later current.components mib))
  Serves-later talk current c m (next_entries {talk = more} {c' = c'} front vb rest a l s) = omega (
    arith,
    Serves-later more vb.oid c' m s,
    ap (λ t. length t) (later_from current.components mib front vb rest m l),
    ap (λ t. length t) l,
    length-append front (vb ∷ rest),
  )
  Serves-later talk current c m (end_of_view view views a v e) = omega arith
  Serves-later talk current c m (nothing_left a l e) = omega arith
  Serves-later talk current c m (refused x a l e) = omega arith
