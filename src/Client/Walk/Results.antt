-- ===== src/Client/Walk/Results.antt =====
-- src/client.rs: what `walk` returns.
use rusnmp.Prelude.{ℕ, zero, suc, ◌≡◌, List, [], ◌∷◌, length, Bool, true, false, if◌then◌else◌}
use rusnmp.Prelude.{All, All-append, subst, sym}
use rusnmp.Error.{Outcome, ok, err, panicked, out_of_fuel}
use rusnmp.Run.{Run, eval, continue, pure}
use rusnmp.Types.{Oid, VarBind}
use rusnmp.Client.{SnmpClient}
use rusnmp.Client.Subtree.{scan, Belongs, scan-Scanned}
use rusnmp.Client.Walk.{fetch, after_fetch, walk_loop, walk}

-- If the action succeeds, `P` holds of what it returns.
abbrev Yields : (List VarBind → Type 0) → Outcome (List VarBind) → Type 0
Yields P o = (out : List VarBind) → o ≡ ok out → P out

scan-results :
    (root : List ℕ) (vbs : List VarBind) (current : Oid) (results : List VarBind)
    → All (Belongs root) results
    → All (Belongs root) (scan root vbs current results).results
scan-results root vbs current results h =
    let s = scan-Scanned root vbs current results in
    subst (All (Belongs root)) (sym s.appended)
      (All-append (Belongs root) results s.taken h s.belong)

abbrev AllBelong : List ℕ → List VarBind → Type 0
AllBelong root = All (Belongs root)

module _ {S : Type 0} (root : List ℕ) where
  done_or-Yields :
      (b : Bool) (results : List VarBind) (next : Run S (List VarBind)) (c : S)
      → AllBelong root results
      → Yields (AllBelong root) (eval next c)
      → Yields (AllBelong root) (eval (if b then pure results else next) c)
  done_or-Yields true results next c h k = λ out e. subst (AllBelong root) (cc) h
  done_or-Yields false results next c h k = k

  after_fetch-Yields :
      (current : Oid) (results vbs : List VarBind)
      (next : Oid → List VarBind → Run S (List VarBind)) (c : S)
      → AllBelong root results
      → ((o : Oid) (rs : List VarBind)
          → AllBelong root rs
          → Yields (AllBelong root) (eval (next o rs) c))
      → Yields (AllBelong root) (eval (after_fetch root current results vbs next) c)
  unfolding after_fetch
  after_fetch-Yields current results [] next c h k = λ out e. subst (AllBelong root) (cc) h
  after_fetch-Yields current results (vb ∷ vbs) next c h k =
      let s = scan root (vb ∷ vbs) current results in
      let belong = scan-results root (vb ∷ vbs) current results h in
      done_or-Yields s.done s.results (next s.current s.results) c belong
        (k s.current s.results belong)

  round-Yields :
      (c' : S) (o : Outcome (List VarBind)) (f : List VarBind → Run S (List VarBind))
      → ((vbs : List VarBind) → Yields (AllBelong root) (eval (f vbs) c'))
      → Yields (AllBelong root) (continue o f c').0
  round-Yields c' (ok vbs) f k = k vbs
  round-Yields c' (err e) f k = λ out x. cc
  round-Yields c' panicked f k = λ out x. cc
  round-Yields c' out_of_fuel f k = λ out x. cc

  pub walk_loop-Yields :
      (ask : Oid → Run S (List VarBind)) (fuel : ℕ) (current : Oid) (results : List VarBind) (c : S)
      → AllBelong root results
      → Yields (AllBelong root) (eval (walk_loop ask fuel root current results) c)
  unfolding walk_loop
  walk_loop-Yields ask zero current results c h = λ out x. cc
  walk_loop-Yields ask (suc fuel) current results c h =
      let (r, c') = ask current c in
      round-Yields c' r (λ vbs. after_fetch root current results vbs (walk_loop ask fuel root))
        λ vbs.
          after_fetch-Yields current results vbs (walk_loop ask fuel root) c' h
            λ o rs belong. walk_loop-Yields ask fuel o rs c' belong

-- Whatever the agent answers, if `walk` succeeds, every binding that it returns is under the root
-- and carries no exception value.
pub walk-Belongs :
    (root : Oid) (c : SnmpClient) (out : List VarBind)
    → eval (walk root) c ≡ ok out
    → All (Belongs root.components) out
unfolding walk
walk-Belongs root c = walk_loop-Yields root.components fetch (suc (length c.network)) root [] c tt
