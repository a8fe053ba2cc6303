-- ===== src/Chain/Records.antt =====
-- `ContractRecord`, its index in the persistence database, and the class `ChainHandler`.
use peerplays_contract_node.Prelude.{
  ℕ, ◌+◌, ◌≡◌, ◌≢◌, Bool, Option, none, some, List, String, str_eq, if◌then◌else◌, to_uint8,
}

abbrev pub first_available_space_id : ℕ
first_available_space_id = 10

-- `number` is `id.number`, which the database assigns.
pub record ContractRecord : Type 0 where
  pub number : ℕ
  pub name : String

-- The sum is an `int`, which the return type cuts to a `uint8_t`.
unfoldable pub contract_object_space_id : ContractRecord → ℕ
contract_object_space_id record_of = to_uint8 (first_available_space_id + record_of.number)

-- The persistence database, as code of graphene and boost: `lower_bound` in the index by name
-- answers the first record whose name is not below the given one, `create` adds a record with a
-- number that no record has. `find` is the finite map that the unique index by name is.
pub record Persistence : Type 1 where
  pub Store : Type 0
  pub lower_bound : Store → String → Option ContractRecord
  pub create : Store → String → Store × ContractRecord
  pub find : Store → String → Option ℕ
  pub lower_bound_found :
      (s : Store) (name : String) (number : ℕ)
      → find s name ≡ some number
      → lower_bound s name ≡ some (record { number = number; name = name })
  pub lower_bound_absent :
      (s : Store) (name : String) (r : ContractRecord)
      → find s name ≡ none
      → lower_bound s name ≡ some r
      → r.name ≢ name
  pub create_name : (s : Store) (name : String) → (create s name).1.name ≡ name
  pub find_create :
      (s : Store) (name other : String)
      → find s name ≡ none
      → find (create s name).0 other
        ≡ (if str_eq other name then some (create s name).1.number else find s other)
  pub create_fresh :
      (s : Store) (name other : String) (number : ℕ)
      → find s other ≡ some number
      → (create s name).1.number ≢ number

pub record ChainHandler (Store : Type 0) (Chain : Type 0) : Type 0 where
  pub base_path : String
  pub chain : Chain
  pub persistence : Store
  pub is_open : Bool
  pub loaded_contracts : List (ℕ × String)
