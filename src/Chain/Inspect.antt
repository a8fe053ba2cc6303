-- ===== src/Chain/Inspect.antt =====
-- `inspectContractDatabase` of Modules/ChainHandler.hpp. The indexes of a space and their objects
-- are the chain database's, in the order in which it shows them.
use peerplays_contract_node.Prelude.{ℕ, List, [], ◌∷◌, String, ok, fail}
use peerplays_contract_node.Prelude.Actions.{Action, ◌>>◌}
use peerplays_contract_node.Chain.Records.{ChainHandler}
use peerplays_contract_node.Chain.Registry.{get_space_id}

module _ {O S : Type 0} where
  unfoldable pub inspect_all_objects : List O → (O → Action S (Unit {0})) → Action S (Unit {0})
  inspect_all_objects [] f s = (ok tt, s)
  inspect_all_objects (o ∷ objects) f s = (f o >> inspect_all_objects objects f) s

  unfoldable pub inspect_all_indexes :
      List (List O) → (O → Action S (Unit {0})) → Action S (Unit {0})
  inspect_all_indexes [] f s = (ok tt, s)
  inspect_all_indexes (index ∷ indexes) f s =
      (inspect_all_objects index f >> inspect_all_indexes indexes f) s

  unfoldable pub inspect_contract_database :
      (ℕ → List (List O)) → ℕ → (O → Action S (Unit {0})) → Action S (Unit {0})
  inspect_contract_database indexes space f = inspect_all_indexes (indexes space) f

  unfoldable pub inspect_named_database :
      {Store Chain : Type 0}
      → (ℕ → List (List O))
      → ChainHandler Store Chain
      → String
      → (O → Action S (Unit {0}))
      → Action S (Unit {0})
  unfolding get_space_id
  inspect_named_database indexes h name f s = elim (get_space_id h name) [
    | ok space ↦ inspect_contract_database indexes space f s
    | fail e ↦ (fail e, s)
  ]
