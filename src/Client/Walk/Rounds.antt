-- ===== src/Client/Walk/Rounds.antt =====
-- src/client.rs and src/v3_client.rs: single rounds of a walk through the sorted entries of an agent.
use rusnmp.Prelude.{
  ℕ, suc, ◌≡◌, ◌≢◌, refl, sym, ap, ◌∙◌, List, [], ◌∷◌, ◌++◌, true, false, if◌then◌else◌,
  append_assoc, append-nil, foldl, false, Bool-cases, inl, inr, ◌||◌, Option, none, some,
}
use rusnmp.Error.{Outcome, SnmpError, ok, err}
use rusnmp.Run.{Run, pure}
use rusnmp.Types.{Oid, VarBind, end_of_mib_view}
use rusnmp.Client.Subtree.{scan}
use rusnmp.Client.Walk.{after_fetch, walk_loop}
use rusnmp.Client.Walk.Mib.{subtree, outside}
use rusnmp.Client.Walk.Scans.{
  Entries, scan_all, scan_some, scan_view, subtree_all, subtree_past, subtree-append,
  outside-append,
}

-- What the rest of a walk gives, with `rest` for the entries that are left.
abbrev pub finished :
    List ℕ → List VarBind → List VarBind → Option SnmpError → Outcome (List VarBind)
finished root results rest none = ok (results ++ subtree root rest)
finished root results rest (some e) =
    if outside root rest then ok (results ++ subtree root rest) else err e

module _ (root : List ℕ) (results xs ys : List VarBind) where
  pub finished-front :
      (refusal : Option SnmpError)
      → outside root xs ≡ false
      → finished root (results ++ xs) ys refusal ≡ finished root results (xs ++ ys) refusal
  finished-front refusal e = go refusal
    where
      same : (results ++ xs) ++ subtree root ys ≡ results ++ subtree root (xs ++ ys)
      same =
          append_assoc results xs (subtree root ys)
          ∙ ap (λ t. results ++ (t ++ subtree root ys)) (sym (subtree_all root xs e))
          ∙ ap (λ t. results ++ t) (sym (subtree-append root xs ys))

      goes : outside root (xs ++ ys) ≡ outside root ys
      goes = outside-append root xs ys ∙ ap (λ b. b || outside root ys) e

      go :
          (refusal : Option SnmpError)
          → finished root (results ++ xs) ys refusal ≡ finished root results (xs ++ ys) refusal
      go none = ap ok same
      go (some x) = rw (same, goes) refl

  pub finished-past :
      (refusal : Option SnmpError)
      → Entries root (xs ++ ys)
      → outside root xs ≡ true
      → finished root results (xs ++ ys) refusal ≡ ok (results ++ subtree root xs)
  finished-past none h e = rw (subtree_past root xs ys h e) refl
  finished-past (some x) h e =
      let goes : outside root (xs ++ ys) ≡ true =
        outside-append root xs ys ∙ ap (λ b. b || outside root ys) e in
      rw (subtree_past root xs ys h e, goes) refl

module _ {S : Type 0} (root : List ℕ) (next : Oid → List VarBind → Run S (List VarBind)) where
  after_fetch-done :
      (current : Oid) (results vbs : List VarBind)
      → vbs ≢ []
      → (scan root vbs current results).done ≡ true
      → after_fetch root current results vbs next ≡ pure (scan root vbs current results).results
  unfolding after_fetch
  after_fetch-done current results [] some_vb h = absurd (some_vb refl)
  after_fetch-done current results (vb ∷ vbs) some_vb h = rw h refl

  after_fetch-goes_on :
      (current : Oid) (results vbs : List VarBind)
      → vbs ≢ []
      → let s = scan root vbs current results in
        s.done ≡ false → after_fetch root current results vbs next ≡ next s.current s.results
  unfolding after_fetch
  after_fetch-goes_on current results [] some_vb h = absurd (some_vb refl)
  after_fetch-goes_on current results (vb ∷ vbs) some_vb h = rw h refl

append-some : (xs : List VarBind) (y : VarBind) (ys : List VarBind) → xs ++ y ∷ ys ≢ []
append-some [] y ys e = cc
append-some (x ∷ xs) y ys e = cc

last_oid :
    (current : Oid) (front : List VarBind) (vb : VarBind)
    → foldl (λ at vb. vb.oid) current (front ++ vb ∷ []) ≡ vb.oid
last_oid current [] vb = refl
last_oid current (x ∷ front) vb = last_oid x.oid front vb

module _ {S : Type 0} (ask : Oid → Run S (List VarBind)) (root : List ℕ) where
  walk_loop-answer :
      (fuel : ℕ) (current : Oid) (results vbs : List VarBind) (c c' : S)
      → ask current c ≡ (ok vbs, c')
      → walk_loop ask (suc fuel) root current results c
        ≡ after_fetch root current results vbs (walk_loop ask fuel root) c'
  unfolding walk_loop
  walk_loop-answer fuel current results vbs c c' e = rw e refl

  pub walk_loop-refusal :
      (fuel : ℕ) (current : Oid) (results : List VarBind) (c c' : S) (x : SnmpError)
      → ask current c ≡ (err x, c')
      → walk_loop ask (suc fuel) root current results c ≡ (err x, c')
  unfolding walk_loop
  walk_loop-refusal fuel current results c c' x e = rw e refl

  -- An answer that ends the scan ends the walk.
  walk_loop-done :
      (fuel : ℕ) (current : Oid) (results vbs out : List VarBind) (c c' : S)
      → ask current c ≡ (ok vbs, c')
      → vbs ≢ []
      → let s = scan root vbs current results in
        s.done ≡ true
        → s.results ≡ out
        → walk_loop ask (suc fuel) root current results c ≡ (ok out, c')
  walk_loop-done fuel current results vbs out c c' e some_vb done same =
      walk_loop-answer fuel current results vbs c c' e
      ∙ ap (λ t. t c')
          (after_fetch-done root (walk_loop ask fuel root) current results vbs some_vb done)
      ∙ ap (λ t. (ok t, c')) same

  -- So does an empty one.
  pub walk_loop-nothing :
      (fuel : ℕ) (current : Oid) (results : List VarBind) (c c' : S)
      → ask current c ≡ (ok [], c')
      → walk_loop ask (suc fuel) root current results c ≡ (ok results, c')
  unfolding after_fetch
  walk_loop-nothing fuel current results c c' e =
      walk_loop-answer fuel current results [] c c' e ∙ refl

module _ {S : Type 0} (ask : Oid → Run S (List VarBind)) (root : List ℕ) where
  -- The last answer: what is left, and the end of the view.
  pub walk_loop-end_of_view :
      (fuel : ℕ) (current : Oid) (results rest : List VarBind) (view : VarBind)
      (views : List VarBind) (c c' : S)
      → ask current c ≡ (ok (rest ++ view ∷ views), c')
      → view.value ≡ end_of_mib_view
      → Entries root rest
      → walk_loop ask (suc fuel) root current results c ≡ (ok (results ++ subtree root rest), c')
  walk_loop-end_of_view fuel current results rest view views c c' e f h =
      elim (Bool-cases (outside root rest)) [
        | inl g ↦
            let (done, taken) = scan_some root rest (view ∷ views) current results h g in
            walk_loop-done ask root fuel current results (rest ++ view ∷ views) _ c c' e
              (append-some rest view views) done taken
        | inr g ↦
            let stops =
              scan_all root rest (view ∷ views) current results h g
              ∙ scan_view root view views _ (results ++ rest) f in
            walk_loop-done ask root fuel current results (rest ++ view ∷ views) _ c c' e
              (append-some rest view views) (ap (λ s. s.done) stops)
              (ap (λ s. s.results) stops ∙ ap (λ t. results ++ t) (sym (subtree_all root rest g)))
      ]

  scan_chunk :
      (current : Oid) (results front : List VarBind) (vb : VarBind)
      → Entries root (front ++ vb ∷ [])
      → outside root (front ++ vb ∷ []) ≡ false
      → scan root (front ++ vb ∷ []) current results
        ≡ record { done = false; current = vb.oid; results = results ++ (front ++ vb ∷ []) }
  unfolding scan
  scan_chunk current results front vb h e =
      let chunk = front ++ vb ∷ [] in
      ap (λ t. scan root t current results) (sym (append-nil chunk))
      ∙ scan_all root chunk [] current results h e
      ∙ ap (λ at. record { done = false; current = at; results = results ++ chunk })
          (last_oid current front vb)

  -- An answer of entries that holds one which is not below the root.
  pub walk_loop-stops :
      (fuel : ℕ) (current : Oid) (results front : List VarBind) (vb : VarBind) (c c' : S)
      → ask current c ≡ (ok (front ++ vb ∷ []), c')
      → Entries root (front ++ vb ∷ [])
      → outside root (front ++ vb ∷ []) ≡ true
      → walk_loop ask (suc fuel) root current results c
        ≡ (ok (results ++ subtree root (front ++ vb ∷ [])), c')
  walk_loop-stops fuel current results front vb c c' e h g =
      let chunk = front ++ vb ∷ [] in
      let (done, taken) = scan_some root chunk [] current results h g in
      let same = append-nil chunk in
      walk_loop-done ask root fuel current results chunk _ c c' e (append-some front vb [])
        (ap (λ t. (scan root t current results).done) (sym same) ∙ done)
        (ap (λ t. (scan root t current results).results) (sym same) ∙ taken)

  -- An answer of entries below the root.
  pub walk_loop-chunk :
      (fuel : ℕ) (current : Oid) (results front : List VarBind) (vb : VarBind) (c c' : S)
      → ask current c ≡ (ok (front ++ vb ∷ []), c')
      → Entries root (front ++ vb ∷ [])
      → outside root (front ++ vb ∷ []) ≡ false
      → walk_loop ask (suc fuel) root current results c
        ≡ walk_loop ask fuel root vb.oid (results ++ (front ++ vb ∷ [])) c'
  walk_loop-chunk fuel current results front vb c c' e h g =
      let chunk = front ++ vb ∷ [] in
      let s = scan_chunk current results front vb h g in
      walk_loop-answer ask root fuel current results chunk c c' e
      ∙ ap (λ t. t c')
          (after_fetch-goes_on root (walk_loop ask fuel root) current results chunk
              (append-some front vb []) (ap (λ t. t.done) s)
            ∙ ap (λ t. walk_loop ask fuel root t.current t.results) s)
