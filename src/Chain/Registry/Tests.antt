-- ===== src/Chain/Registry/Tests.antt =====
-- Three registrations of two contracts, on a node that has a record of a third.
use peerplays_contract_node.Prelude.{
  ℕ, ◌+◌, ◌<◌, ◌↔◌, ◌≡◌, refl, true, false, some, List, [], ◌∷◌, map, String, str_eq_iff, ok, fail,
  fc_exception, fc_assert, arith, All,
}
use peerplays_contract_node.Chain.Records.{ChainHandler, contract_object_space_id}
use peerplays_contract_node.Chain.InMemory.{Records, seek, in_memory}
use peerplays_contract_node.Chain.Registry.{Initializer, record_of_contract, initialize_contract}
use peerplays_contract_node.Chain.Registry.Spaces.{space_of}
use peerplays_contract_node.Chain.Registry.Allocation.{Allocates}
use peerplays_contract_node.Chain.Registry.Allocation.Calls.{
  Noting, initialize_all, initialize_all_refines, initialize_all_apart,
}

abbrev accepts : Initializer ℕ
accepts space calls = (ok true, calls + 1)

abbrev refuses : Initializer ℕ
refuses space calls = (fail (fc_exception fc_assert), calls + 1)

abbrev three_calls : List (String × Initializer ℕ)
three_calls = ("dice", refuses) ∷ ("poker", accepts) ∷ ("dice", accepts) ∷ []

abbrev casino_known : ChainHandler Records (Noting ℕ)
casino_known = record {
  base_path = "node";
  chain = ([], 0);
  persistence = ("casino", 0) ∷ [];
  is_open = false;
  loaded_contracts = [];
}

-- The contract whose first registration failed gets its space again.
dice_twice :
    (initialize_all in_memory three_calls casino_known).chain
    ≡ (("dice", 11) ∷ ("poker", 12) ∷ ("dice", 11) ∷ [], 3)
unfolding initialize_all initialize_contract record_of_contract contract_object_space_id
dice_twice = refl

initialize_all_refines_example :
    (asked : List (String × ℕ)) × Allocates
      (seek casino_known.persistence)
      asked
      (seek (initialize_all in_memory three_calls casino_known).persistence)
    × (map (λ a. a.0) asked ≡ "dice" ∷ "poker" ∷ "dice" ∷ [])
    × ((initialize_all in_memory three_calls casino_known).chain.0
        ≡ map (λ a. (a.0, space_of a.1)) asked)
initialize_all_refines_example = initialize_all_refines in_memory three_calls casino_known

three_small :
    (other : String) (i : ℕ)
    → seek (initialize_all in_memory three_calls casino_known).persistence other ≡ some i
    → i < 246
unfolding initialize_all initialize_contract record_of_contract
three_small other i e =
    ground (arith, str_eq_iff other "casino", str_eq_iff other "dice", str_eq_iff other "poker")

initialize_all_apart_example :
    (handed : List (String × ℕ)) × ((initialize_all in_memory three_calls casino_known).chain.0
      ≡ handed)
    × (map (λ a. a.0) handed ≡ "dice" ∷ "poker" ∷ "dice" ∷ [])
    × All (λ a. All (λ b. (a.0 ≡ b.0) ↔ (a.1 ≡ b.1)) handed) handed
initialize_all_apart_example =
    initialize_all_apart in_memory three_calls casino_known
      (λ a b i e f. ground (arith, str_eq_iff a "casino", str_eq_iff b "casino")) three_small
