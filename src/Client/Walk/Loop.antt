-- ===== src/Client/Walk/Loop.antt =====
-- src/client.rs and src/v3_client.rs: the loop of `walk` against the entries of an agent.
use rusnmp.Prelude.{
  ℕ, zero, suc, ◌≤◌, ◌<◌, ◌+◌, ◌≡◌, refl, sym, ap, ◌∙◌, subst, arith, List, [], ◌∷◌, ◌++◌, All,
  Bool-cases, inl, inr, append_assoc, append-nil, Option, none, some, length, length-append, map,
  if◌then◌else◌,
}
use rusnmp.Error.{Outcome, SnmpError, ok, err}
use rusnmp.Types.{Oid, VarBind}
use rusnmp.Client.Walk.{walk_loop}
use rusnmp.Client.Walk.Mib.{oid_ltb, is_below, later, subtree, outside, IsSorted, is_below-oid_ltb}
use rusnmp.Client.Walk.Entries.{IsStored, later-after, later-All, later-IsSorted, later_from}
use rusnmp.Client.Walk.Scans.{Entries, Entries-front, Entries-back}
use rusnmp.Client.Walk.Rounds.{
  finished, finished-front, finished-past, walk_loop-refusal, walk_loop-nothing, walk_loop-stops,
  walk_loop-chunk, walk_loop-end_of_view,
}
use rusnmp.Client.Walk.Conversation.{
  Walker, Talk, Answer, Serves, next_entries, end_of_view, nothing_left, refused, Walked,
  Walked-last, Walked-next, Serves-some, Serves-network, Serves-later, length-map,
}

module _ {S : Type 0} (w : Walker S) (root : List ℕ) (refusal : Option SnmpError)
    (mib : List VarBind) where
  -- The loop behind an answer of entries, with `goes_on` for its other rounds.
  walk_loop-Answer :
      (fuel : ℕ) (current : Oid) (results front : List VarBind) (vb : VarBind) (rest : List VarBind)
      (c c' : S) (p bytes : List ℕ) (talk : Talk)
      → Answer w current c p bytes (ok (front ++ vb ∷ []), c')
      → Entries root ((front ++ vb ∷ []) ++ rest)
      → ((rs : List VarBind)
          → Walked w c' talk
              (walk_loop w.ask fuel root vb.oid rs c')
              (finished root rs rest refusal))
      → Walked w c
          ((p, bytes) ∷ talk)
          (walk_loop w.ask (suc fuel) root current results c)
          (finished root results ((front ++ vb ∷ []) ++ rest) refusal)
  walk_loop-Answer fuel current results front vb rest c c' p bytes talk a h goes_on =
      let chunk = front ++ vb ∷ [] in
      let hc = Entries-front root chunk rest h in
      elim (Bool-cases (outside root chunk)) [
        | inl g ↦ Walked-last w current c c' p bytes _ a talk _ _ (
            walk_loop-stops w.ask root fuel current results front vb c c' a.reads hc g
            ∙ ap (λ t. (t, c')) (sym (finished-past root results chunk rest refusal h g)))
        | inr g ↦
            Walked-next w current c c' p bytes _ a talk _ _ _
              (walk_loop-chunk w.ask root fuel current results front vb c c' a.reads hc g)
              (subst (Walked w c' talk (walk_loop w.ask fuel root vb.oid (results ++ chunk) c'))
                (finished-front root results chunk rest refusal g) (goes_on (results ++ chunk)))
      ]

  pub walk_loop-Serves :
      (talk : Talk) (current : Oid) (c : S) (fuel : ℕ) (results : List VarBind)
      → Serves w mib refusal talk current c
      → length talk ≤ fuel
      → IsSorted mib
      → Entries root (later current.components mib)
      → Walked w c talk
          (walk_loop w.ask fuel root current results c)
          (finished root results (later current.components mib) refusal)
  walk_loop-Serves talk current c (suc fuel) results
        (next_entries {talk = more} {c' = c'} {p} {bytes} front vb rest a l s) f m h =
      let split = l ∙ sym (append_assoc front (vb ∷ []) rest) in
      let next = later_from current.components mib front vb rest m l in
      let here = subst (Entries root) split h in
      let there =
        subst (Entries root) (sym next) (Entries-back root (front ++ vb ∷ []) rest here) in
      subst
        (λ t.
          Walked w c talk (walk_loop w.ask (suc fuel) root current results c)
            (finished root results t refusal))
        (sym split)
        (walk_loop-Answer fuel current results front vb rest c c' p bytes more a here λ rs.
          subst
            (λ t.
              Walked w c' more (walk_loop w.ask fuel root vb.oid rs c')
                (finished root rs t refusal))
            next (walk_loop-Serves more vb.oid c' fuel rs s (omega (arith, f)) m there))
  walk_loop-Serves talk current c (suc fuel) results
        (end_of_view {c' = c'} {p} {bytes} view views a v r) f m h =
      let rest = later current.components mib in
      Walked-last w current c c' p bytes _ a [] _ _ (
        walk_loop-end_of_view w.ask root fuel current results rest view views c c' a.reads v h
        ∙ ap (λ t. (finished root results rest t, c')) (sym r))
  walk_loop-Serves talk current c (suc fuel) results (nothing_left {c' = c'} {p} {bytes} a l r) f m
        h =
      Walked-last w current c c' p bytes _ a [] _ _ (
        walk_loop-nothing w.ask root fuel current results c c' a.reads
        ∙ ap (λ t. (ok t, c')) (sym (append-nil results))
        ∙ rw (l, r) refl)
  walk_loop-Serves talk current c (suc fuel) results (refused {c' = c'} {p} {bytes} x a l r) f m h =
      Walked-last w current c c' p bytes _ a [] _ _
        (walk_loop-refusal w.ask root fuel current results c c' x a.reads ∙ rw (l, r) refl)
  walk_loop-Serves talk current c zero results s f m h =
      absurd (omega (arith, Serves-some w mib refusal talk current c s, f))

subtree-later :
    (root : List ℕ) (mib : List VarBind) → subtree root (later root mib) ≡ subtree root mib
subtree-later root [] = refl
subtree-later root (vb ∷ mib) = elim (Bool-cases (is_below root vb.oid.components)) [
  | inl e ↦
      rw (is_below-oid_ltb root vb.oid.components e, e) (ap (λ t. vb ∷ t) (subtree-later root mib))
  | inr e ↦ elim (Bool-cases (oid_ltb root vb.oid.components)) [
    | inl f ↦ rw (f, e) (subtree-later root mib)
    | inr f ↦ rw (f, e) (subtree-later root mib)
  ]
]

-- The entries below the root; for an agent that ends with a refusal, the refusal unless an entry after
-- the root is not below it.
abbrev pub walk_result : List ℕ → List VarBind → Option SnmpError → Outcome (List VarBind)
walk_result root mib none = ok (subtree root mib)
walk_result root mib (some e) =
    if outside root (later root mib) then ok (subtree root mib) else err e

finished-walk_result :
    (root : List ℕ) (mib : List VarBind) (refusal : Option SnmpError)
    → finished root [] (later root mib) refusal ≡ walk_result root mib refusal
finished-walk_result root mib none = ap ok (subtree-later root mib)
finished-walk_result root mib (some e) = rw (subtree-later root mib) refl

module _ {S : Type 0} (w : Walker S) (root : Oid) (mib : List VarBind) (refusal : Option SnmpError)
    (talk : Talk) (c : S) (m : IsSorted mib) (h : All IsStored mib)
    (s : Serves w mib refusal talk root c) where
  walk_loop-Walked :
      (fuel : ℕ)
      → length talk ≤ fuel
      → Walked w c talk
          (walk_loop w.ask fuel root.components root [] c)
          (walk_result root.components mib refusal)
  walk_loop-Walked fuel f =
      subst (Walked w c talk (walk_loop w.ask fuel root.components root [] c))
        (finished-walk_result root.components mib refusal)
        (walk_loop-Serves w root.components refusal mib talk root c fuel [] s f m (record {
          after = later-after root.components mib;
          sorted = later-IsSorted root.components mib m;
          stored = later-All IsStored root.components mib h;
        }))

  -- With a round for each exchange that is to come.
  pub walk_loop-walk_result :
      Walked w c talk
        (walk_loop w.ask (suc (length (w.network c))) root.components root [] c)
        (walk_result root.components mib refusal)
  walk_loop-walk_result =
      walk_loop-Walked (suc (length (w.network c)))
        (omega (arith, Serves-network w mib refusal talk root c s))

  -- With more rounds than there are entries after the root.
  pub walk_loop-entries :
      (fuel : ℕ)
      → length (later root.components mib) < fuel
      → Walked w c talk
          (walk_loop w.ask fuel root.components root [] c)
          (walk_result root.components mib refusal)
  walk_loop-entries fuel f =
      walk_loop-Walked fuel (omega (arith, f, Serves-later w mib refusal talk root c m s))

  -- A run sends one packet for each answer, and the answers are bounded by the entries.
  pub length-sent :
      (run : Outcome (List VarBind) × S) (out : Outcome (List VarBind))
      → Walked w c talk run out
      → length (w.sent run.1) ≤ length (w.sent c) + suc (length (later root.components mib))
  length-sent run out d = omega (
    arith,
    Serves-later w mib refusal talk root c m s,
    ap (λ t. length t) d.split,
    length-append d.asked d.unasked,
    ap (λ t. length t) d.sent,
    length-append (w.sent c) (map (λ t. t.0) d.asked),
    length-map (λ t. t.0) d.asked,
  )
