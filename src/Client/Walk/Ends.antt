-- ===== src/Client/Walk/Ends.antt =====
-- src/client.rs: the rounds of `walk` and the fuel of the model.
use rusnmp.Prelude.{
  ℕ, zero, suc, ◌<◌, ◌≡◌, ◌≢◌, refl, arith, List, [], ◌∷◌, Bool, true, false, if◌then◌else◌,
}
use rusnmp.Prelude.Int.{pos}
use rusnmp.Error.{Outcome, ok, err, panicked, out_of_fuel}
use rusnmp.Run.{Run, eval, continue, pure}
use rusnmp.Types.{Oid, VarBind}
use rusnmp.Client.{SnmpClient, Action}
use rusnmp.Client.Requests.{Ended, pending, get_next-Ended, get_bulk-Ended}
use rusnmp.Client.Subtree.{scan}
use rusnmp.Client.Walk.{is_v1, fetch, after_fetch, walk_loop, walk}

Ended-if :
    (b : Bool) (c : SnmpClient) (m n : Action (List VarBind))
    → Ended pending c (m c)
    → Ended pending c (n c)
    → Ended pending c ((if b then m else n) c)
Ended-if true c m n h k = h
Ended-if false c m n h k = k

pub fetch-Ended : (current : Oid) (c : SnmpClient) → Ended pending c (fetch current c)
unfolding fetch
fetch-Ended current c =
    Ended-if (is_v1 c.version) c _ _ (get_next-Ended (current ∷ []) c)
      (get_bulk-Ended (current ∷ []) (pos 0) (pos 20) c)

module _ {S : Type 0} where
  done_or-ends :
      (b : Bool) (results : List VarBind) (next : Run S (List VarBind)) (c : S)
      → eval next c ≢ out_of_fuel
      → eval (if b then pure results else next) c ≢ out_of_fuel
  done_or-ends true results next c h = λ e. cc
  done_or-ends false results next c h = h

  after_fetch-ends :
      (root : List ℕ) (current : Oid) (results vbs : List VarBind)
      (next : Oid → List VarBind → Run S (List VarBind)) (c : S)
      → ((o : Oid) (rs : List VarBind) → eval (next o rs) c ≢ out_of_fuel)
      → eval (after_fetch root current results vbs next) c ≢ out_of_fuel
  unfolding after_fetch
  after_fetch-ends root current results [] next c h = λ e. cc
  after_fetch-ends root current results (vb ∷ vbs) next c h =
      let s = scan root (vb ∷ vbs) current results in
      done_or-ends s.done s.results (next s.current s.results) c (h s.current s.results)

  -- With `left` for what is left of the network.
  module _ (left : S → ℕ) where
    round-ends :
        (c c' : S) (o : Outcome (List VarBind)) (f : List VarBind → Run S (List VarBind))
        → Ended left c (o, c')
        → (suc (left c') ≡ left c → (vbs : List VarBind) → eval (f vbs) c' ≢ out_of_fuel)
        → (continue o f c').0 ≢ out_of_fuel
    round-ends c c' (ok vbs) f h k = k (h.uses vbs refl) vbs
    round-ends c c' (err e) f h k = λ x. cc
    round-ends c c' panicked f h k = λ x. cc
    round-ends c c' out_of_fuel f h k = absurd (h.ends refl)

    pub walk_loop-ends :
        (ask : Oid → Run S (List VarBind))
        → ((current : Oid) (c : S) → Ended left c (ask current c))
        → (fuel : ℕ) (root : List ℕ) (current : Oid) (results : List VarBind) (c : S)
        → left c < fuel
        → eval (walk_loop ask fuel root current results) c ≢ out_of_fuel
    unfolding walk_loop
    walk_loop-ends ask asked zero root current results c h = absurd (omega arith)
    walk_loop-ends ask asked (suc fuel) root current results c h =
        let (r, c') = ask current c in
        round-ends c c' r (λ vbs. after_fetch root current results vbs (walk_loop ask fuel root))
          (asked current c)
          λ used vbs.
            after_fetch-ends root current results vbs (walk_loop ask fuel root) c'
              λ o rs. walk_loop-ends ask asked fuel root o rs c' (omega arith)

-- The fuel of the model is enough: on a finite course of the network `walk` never outruns it.
walk-ends : (root : Oid) (c : SnmpClient) → eval (walk root) c ≢ out_of_fuel
unfolding walk
walk-ends root c =
    walk_loop-ends pending fetch fetch-Ended (suc (pending c)) root.components root [] c
      (omega arith)
