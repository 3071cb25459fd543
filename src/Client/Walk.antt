-- ===== src/Client/Walk.antt =====
-- src/client.rs, lines 131 to 172: `walk`. src/v3_client.rs repeats its loop over another client, so the
-- loop takes the request of a round as an argument.
pub mod Ends
pub mod Results
pub mod Repeats
pub mod Mib
pub mod Entries
pub mod Scans
pub mod Rounds
pub mod Conversation
pub mod Loop
pub mod Refinement
use rusnmp.Prelude.{ℕ, zero, suc, List, [], ◌∷◌, length, Bool, true, false, if◌then◌else◌}
use rusnmp.Prelude.Int.{pos}
use rusnmp.Error.{out_of_fuel}
use rusnmp.Run.{Run, pure, lift, gets, ◌>>=◌}
use rusnmp.Types.{Oid, VarBind, Version, v1, v2c, v3}
use rusnmp.Client.{SnmpClient, Action, get_next, get_bulk}
use rusnmp.Client.Subtree.{scan}

unfoldable pub is_v1 : Version → Bool
is_v1 v1 = true
is_v1 _ = false

unfoldable pub fetch : Oid → Action (List VarBind)
unfolding is_v1
fetch current = do
  v1_client ← gets (λ c. is_v1 c.version)
  if v1_client then get_next (current ∷ []) else get_bulk (current ∷ []) (pos 0) (pos 20)

module _ {S : Type 0} where
  -- One answer: an empty one ends the walk, and so does one that the scan ends.
  unfoldable pub after_fetch :
      List ℕ
      → Oid
      → List VarBind
      → List VarBind
      → (Oid → List VarBind → Run S (List VarBind))
      → Run S (List VarBind)
  after_fetch root current results [] next = pure results
  after_fetch root current results (vb ∷ vbs) next =
      let s = scan root (vb ∷ vbs) current results in
      if s.done then pure s.results else next s.current s.results

  unfoldable pub walk_loop :
      (Oid → Run S (List VarBind)) → ℕ → List ℕ → Oid → List VarBind → Run S (List VarBind)
  unfolding after_fetch
  walk_loop ask zero root current results = lift out_of_fuel
  walk_loop ask (suc fuel) root current results = do
    varbinds ← ask current
    after_fetch root current results varbinds (walk_loop ask fuel root)

-- A round uses up an exchange, and without one it times out.
unfoldable pub walk : Oid → Action (List VarBind)
unfolding walk_loop fetch
walk root = do
  fuel ← gets (λ c. suc (length c.network))
  walk_loop fetch fuel root.components root []
