-- ===== src/Chain/Tests.antt =====
-- A chain database that counts calls, and the theorems at it.
use peerplays_contract_node.Prelude.{
  ℕ, ◌+◌, ◌≤◌, ◌<◌, ◌≡◌, refl, true, false, inl, inr, none, some, List, [], ◌∷◌, String, str_eq_iff,
  ◌⊎◌, Result, ok, fail, fc_exception, fc_exception_ptr, fc_assert, arith, ◌==◌,
}
use peerplays_contract_node.Prelude.Actions.{Action}
use peerplays_contract_node.Chain.Records.{contract_object_space_id, ChainHandler}
use peerplays_contract_node.Chain.InMemory.{Records, seek, in_memory}
use peerplays_contract_node.Chain.Registry.{
  Initializer, record_of_contract, initialize_contract, get_space_id,
}
use peerplays_contract_node.Chain.Registry.Map.{find}
use peerplays_contract_node.Chain.Registry.Spaces.{after, the_record}
use peerplays_contract_node.Chain.Registry.Invariant.{IsRegistered}
use peerplays_contract_node.Chain.Registry.Loads.{
  initialize_contract_loads, initialize_contract_shadowed,
}
use peerplays_contract_node.Chain.Monitor.{
  Tables, Attached, connected, monitor_tables, loaded, created, deleted, modified,
}
use peerplays_contract_node.Chain.Monitor.Notices.{
  load, create, remove, modify, notify_all, notify_all_notices,
}
use peerplays_contract_node.Chain.Monitor.Attach.{
  Adds, done, added, monitor_tables-Adds, monitor_tables_throws,
}
use peerplays_contract_node.Chain.Genesis.{GenesisTools, compute_genesis, compute_genesis_restart}

-- The contract's registration counts the calls; `refuses` throws.
abbrev accepts : Initializer ℕ
accepts space calls = (ok true, calls + 1)

abbrev refuses : Initializer ℕ
refuses space calls = (fail (fc_exception fc_assert), calls + 1)

abbrev one_loaded : ChainHandler Records ℕ
one_loaded = record {
  base_path = "node";
  chain = 0;
  persistence = ("casino", 0) ∷ [];
  is_open = false;
  loaded_contracts = (10, "casino") ∷ [];
}

one_loaded-IsRegistered : IsRegistered in_memory one_loaded
one_loaded-IsRegistered = record {
  sorted = tt;
  recorded = ((0, refl, refl), tt);
  injective = λ n m i a b. ground (arith, str_eq_iff n "casino", str_eq_iff m "casino");
}

two_small :
    (other : String) (i : ℕ)
    → seek (after in_memory "dice" accepts one_loaded).persistence other ≡ some i
    → i < 246
unfolding initialize_contract record_of_contract
two_small other i e = ground arith

initialize_contract_loads_example :
    (find
        (contract_object_space_id (the_record in_memory "dice" accepts one_loaded))
        (after in_memory "dice" accepts one_loaded).loaded_contracts
      ≡ some "dice")
    × (10 ≤ contract_object_space_id (the_record in_memory "dice" accepts one_loaded))
    × (get_space_id (after in_memory "dice" accepts one_loaded) "dice"
        ≡ ok (contract_object_space_id (the_record in_memory "dice" accepts one_loaded)))
initialize_contract_loads_example =
    initialize_contract_loads in_memory "dice" accepts one_loaded one_loaded-IsRegistered two_small
      refl

-- The contract to come gets number 256.
abbrev crowded : ChainHandler Records ℕ
crowded = record {
  base_path = "node";
  chain = 0;
  persistence = ("casino", 0) ∷ ("old", 255) ∷ [];
  is_open = false;
  loaded_contracts = (10, "casino") ∷ [];
}

taken :
    find
      (contract_object_space_id (the_record in_memory "dice" accepts crowded))
      crowded.loaded_contracts
    ≡ some "casino"
unfolding record_of_contract contract_object_space_id find
taken = refl

initialize_contract_shadowed_example :
    ((initialize_contract in_memory "dice" accepts crowded).0 ≡ ok true)
    × ((k : ℕ)
        → find k (after in_memory "dice" accepts crowded).loaded_contracts
          ≡ find k ((10, "casino") ∷ []))
initialize_contract_shadowed_example =
    initialize_contract_shadowed in_memory "dice" "casino" accepts crowded tt taken refl

-- Objects are numbers; a table's history with each kind of change.
notify_all_notices_example :
    notify_all {O = ℕ}
      (load 1 ∷ create 2 ∷ modify 2 3 ∷ remove 3 ∷ [])
      (record { monitor = connected 4; notices = [] })
    ≡ (
      ok tt,
      record {
        monitor = connected 4;
        notices = loaded 4 1 ∷ created 4 2 ∷ modified 4 2 3 ∷ deleted 4 3 ∷ [];
      },
    )
notify_all_notices_example =
    notify_all_notices 4 (load 1 ∷ create 2 ∷ modify 2 3 ∷ remove 3 ∷ []) []

-- Three tables; the database is the list of the tables with an index. Table 1 is refused.
abbrev add_but_one : ℕ → ℕ → Action (List ℕ) ℕ
add_but_one space t db = elim (t == 1) [
  | true ↦ (fail fc_exception_ptr, db)
  | false ↦ (ok (100 + t), t ∷ db)
]

abbrev three_tables : Tables (List ℕ)
three_tables = record {
  inspect_all_indexes = λ db space. 0 ∷ 1 ∷ 2 ∷ [];
  add_secondary_index = add_but_one;
  delete_secondary_index = λ space t index db. (ok tt, db);
}

add_but_one-cases :
    (t : ℕ) (db : List ℕ)
    → ((index : ℕ) × (after : List ℕ) × (add_but_one 12 t db ≡ (ok index, after)))
      ⊎ ((after : List ℕ) × (add_but_one 12 t db ≡ (fail fc_exception_ptr, after)))
add_but_one-cases t db =
    elim (t == 1)
      as (λ b.
        ((index : ℕ) × (after : List ℕ) × (elim b as (λ c. Result ℕ × List ℕ) [
          | true ↦ (fail fc_exception_ptr, db)
          | false ↦ (ok (100 + t), t ∷ db)
        ]
            ≡ (ok index, after)))
        ⊎ ((after : List ℕ) × (elim b as (λ c. Result ℕ × List ℕ) [
          | true ↦ (fail fc_exception_ptr, db)
          | false ↦ (ok (100 + t), t ∷ db)
        ]
              ≡ (fail fc_exception_ptr, after)))) [
                | true ↦ inr (db, refl)
                | false ↦ inl (100 + t, t ∷ db, refl)
              ]

monitor_tables-Adds_example :
    (ms : List (Attached ℕ)) × (db : List ℕ) × Adds three_tables 12 (0 ∷ 1 ∷ 2 ∷ []) [] ms db
    × (monitor_tables three_tables 12 [] ≡ (ok ms, db))
monitor_tables-Adds_example = monitor_tables-Adds three_tables 12 add_but_one-cases []

-- Table 1 is refused by an exception object here.
abbrev strict_tables : Tables (List ℕ)
strict_tables = record {
  inspect_all_indexes = λ db space. 0 ∷ 1 ∷ 2 ∷ [];
  add_secondary_index = λ space t db. elim (t == 1) [
    | true ↦ (fail (fc_exception fc_assert), db)
    | false ↦ (ok (100 + t), t ∷ db)
  ];
  delete_secondary_index = λ space t index db. (ok tt, db);
}

first_added :
    Adds strict_tables 12
      (0 ∷ [])
      []
      (record { index = 100; table = connected {O = ℕ} 0 } ∷ [])
      (0 ∷ [])
first_added = added refl done

monitor_tables_throws_example :
    monitor_tables {O = ℕ} strict_tables 12 [] ≡ (fail (fc_exception fc_assert), 0 ∷ [])
monitor_tables_throws_example =
    monitor_tables_throws strict_tables 12 (0 ∷ []) (2 ∷ []) 1 [] (0 ∷ []) (0 ∷ []) _ fc_assert refl
      first_added refl

-- A genesis is its text and its chain id; a text's hash is the text.
abbrev texts : GenesisTools
texts = record {
  Genesis = String × String;
  ChainId = String;
  to_string = λ g. g.0;
  add_newline = λ t. t;
  from_file = λ t. ok (t, "unset");
  hash = λ t. t;
  set_chain_id = λ c g. (g.0, c);
  chain_id_of = λ g. g.1;
  development = λ n. ("genesis", "unset");
}

compute_genesis_restart_example :
    (first second : String × String) × (text : String) × (compute_genesis texts 3 1000 none
      ≡ (ok first, some text))
    × (compute_genesis texts 3 2000 (some text) ≡ (ok second, some text))
    × (first.1 ≡ second.1)
compute_genesis_restart_example =
    compute_genesis_restart texts 3 1000 2000 ("genesis", "unset") refl refl (λ c g. refl)
