-- ===== src/Node/Plugins/Tests.antt =====
-- The example contract on a node without contracts.
use peerplays_contract_node.Prelude.{
  ℕ, ◌+◌, ◌<◌, ◌≡◌, refl, true, false, none, some, List, [], ◌∷◌, String, str_eq_iff, ok, arith,
}
use peerplays_contract_node.Prelude.Actions.{Action}
use peerplays_contract_node.Chain.InMemory.{Records, in_memory, seek}
use peerplays_contract_node.Chain.Records.{ChainHandler, contract_object_space_id}
use peerplays_contract_node.Chain.Monitor.{Tables, Attached, connected, monitor_tables, attach}
use peerplays_contract_node.Chain.Registry.Map.{find}
use peerplays_contract_node.Chain.Registry.{initialize_contract, record_of_contract}
use peerplays_contract_node.Chain.Registry.Invariant.{IsRegistered}
use peerplays_contract_node.Node.Defs.{Node}
use peerplays_contract_node.Node.Plugins.{initialize_plugin}
use peerplays_contract_node.Node.Plugins.Example.{
  handler_after, example_space, example_library, initialize_plugin-example_library,
}

-- A chain database is the number of its evaluators here, and a contract has two tables.
abbrev register_evaluator : Action ℕ (Unit {0})
register_evaluator evaluators = (ok tt, 1 + evaluators)

abbrev tables : Tables ℕ
tables = record {
  inspect_all_indexes = λ chain space. 0 ∷ 1 ∷ [];
  add_secondary_index = λ space t chain. (ok t, chain);
  delete_secondary_index = λ space t index chain. (ok tt, chain);
}

abbrev bare : Node Records ℕ ℕ ℕ
bare = record {
  handler = record {
    base_path = "node";
    chain = 7;
    persistence = [];
    is_open = false;
    loaded_contracts = [];
  };
  loaded_libraries = [];
  contract_monitors = [];
  net = 0;
}

bare-IsRegistered : IsRegistered in_memory (bare.handler)
bare-IsRegistered = record { sorted = tt; recorded = tt; injective = λ n m i a b. absurd cc }

abbrev both : List (Attached ℕ)
both = record { index = 0; table = connected 0 } ∷ record { index = 1; table = connected 1 } ∷ []

abbrev loaded : ChainHandler Records ℕ
loaded = handler_after in_memory tables register_evaluator "example" bare

one_small : (other : String) (i : ℕ) → seek loaded.persistence other ≡ some i → i < 246
unfolding initialize_contract record_of_contract
one_small other i e = ground (arith, str_eq_iff other "example")

space_ten : example_space in_memory tables register_evaluator "example" bare ≡ 10
unfolding record_of_contract contract_object_space_id
space_ten = refl

two_monitored :
    monitor_tables tables (example_space in_memory tables register_evaluator "example" bare) 8
    ≡ (ok (both), 8)
unfolding monitor_tables attach
two_monitored = refl

initialize_plugin-example_library_example :
    (find (example_space in_memory tables register_evaluator "example" bare) loaded.loaded_contracts
      ≡ some "example")
    × (initialize_plugin in_memory tables (example_library register_evaluator "example") bare ≡ (
      ok true,
      record bare {
        handler = record loaded { chain = 8 };
        contract_monitors =
            record {
              contract_name = "example";
              space = example_space in_memory tables register_evaluator "example" bare;
              table_names = none;
              tables = both;
            }
            ∷ [];
      },
    ))
initialize_plugin-example_library_example =
    initialize_plugin-example_library in_memory tables register_evaluator "example" bare 8 8 _
      bare-IsRegistered one_small refl two_monitored
