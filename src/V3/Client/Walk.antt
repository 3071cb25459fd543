-- ===== src/V3/Client/Walk.antt =====
-- src/v3_client.rs, lines 338 to 370: `walk`. Its loop is that of src/client.rs over another client.
pub mod Ends
pub mod Refinement
use rusnmp.Prelude.{suc, List, [], ◌∷◌, length}
use rusnmp.Prelude.Int.{pos}
use rusnmp.Run.{gets, ◌>>=◌}
use rusnmp.Types.{Oid, VarBind}
use rusnmp.Client.Walk.{walk_loop}
use rusnmp.V3.Crypto.{Crypto}
use rusnmp.V3.Client.State.{V3Action}
use rusnmp.V3.Client.Requests.{get_bulk}

module _ (crypto : Crypto) where
  unfoldable pub fetch : Oid → V3Action (List VarBind)
  unfolding get_bulk
  fetch current = get_bulk crypto (current ∷ []) (pos 0) (pos 20)

  -- A round uses up an exchange, and without one it times out.
  unfoldable pub walk : Oid → V3Action (List VarBind)
  unfolding walk_loop fetch
  walk root = do
    fuel ← gets (λ c. suc (length c.network))
    walk_loop fetch fuel root.components root []
