-- ===== src/Chain/Registry.antt =====
-- `initializeContract`, `getLoadedContracts`, `getSpaceId` and `observeContract` of ChainHandler.
use peerplays_contract_node.Prelude.{
  ℕ, Bool, true, false, Option, none, some, List, [], ◌∷◌, String, str_eq, if◌then◌else◌, ltb, ◌==◌,
  Result, ok, fail, fc_exception, fc_assert, ◌>>=◌,
}
use peerplays_contract_node.Prelude.Actions.{Action}
use peerplays_contract_node.Chain.Records.{
  ContractRecord, contract_object_space_id, Persistence, ChainHandler,
}
pub mod Map
pub mod Spaces
pub mod Invariant
pub mod Loads
pub mod Allocation
mod Tests
use Map.{Loaded, emplace, find, find_name}

module _ (p : Persistence) where
  open p use {Store, lower_bound, create}

  -- The record of that name, created if there is none.
  unfoldable pub record_of_contract : Store → String → Store × ContractRecord
  record_of_contract store name = elim (lower_bound store name) [
    | none ↦ create store name
    | some r ↦ if str_eq r.name name then (store, r) else create store name
  ]

-- `registerContract` of the contract, on the chain database.
abbrev pub Initializer : Type 0 → Type 0
Initializer Chain = ℕ → Action Chain Bool

module _ {Store Chain : Type 0} where
  -- After the contract's own registration: `emplace`, if it answered true.
  abbrev register :
      ℕ → String → Result Bool → ChainHandler Store Chain → Result Bool × ChainHandler Store Chain
  register space name (ok true) h =
      (ok true, record h { loaded_contracts = emplace space name h.loaded_contracts })
  register space name (ok false) h = (ok false, h)
  register space name (fail e) h = (fail e, h)

  unfoldable pub get_space_id : ChainHandler Store Chain → String → Result ℕ
  get_space_id h name = elim (find_name name h.loaded_contracts) [
    | none ↦ fail (fc_exception fc_assert)
    | some (space, contract) ↦ ok space
  ]

  -- The space and the name that the monitor is made for.
  unfoldable pub observe_space : ChainHandler Store Chain → ℕ → ℕ × String
  observe_space h space = elim (find space h.loaded_contracts) [
    | none ↦ (space, "Unknown Contract")
    | some name ↦ (space, name)
  ]

  unfoldable pub observe_contract : ChainHandler Store Chain → String → Result (ℕ × String)
  unfolding get_space_id
  observe_contract h name = get_space_id h name >>= λ space. ok (space, name)

unfoldable pub initialize_contract :
    (p : Persistence) {Chain : Type 0}
    → String
    → Initializer Chain
    → Action (ChainHandler p.Store Chain) Bool
unfolding record_of_contract
initialize_contract p name init h =
    let (store, r) = record_of_contract p h.persistence name in
    let space = contract_object_space_id r in
    let (done, chain) = init space h.chain in
    register space name done (record h { persistence = store; chain = chain })
