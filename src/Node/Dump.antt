-- ===== src/Node/Dump.antt =====
-- `dumpContractDatabases` of Modules/ContractNode.cpp: the objects of the loaded contracts, written
-- to the log.
pub mod Lines
pub mod Headings
mod Tests
use peerplays_contract_node.Prelude.{
  ℕ, ◌≡◌, ◌≢◌, refl, sym, ap, ◌∙◌, Bool, true, false, not, Option, none, some, List, [], ◌∷◌, ◌++◌,
  append_assoc, append-nil, String, Result, Failure, ok, fail, arith, map, All,
}
use peerplays_contract_node.Prelude.Actions.{Action, modify, ◌>>◌, ◌>>=◌, throw}
use peerplays_contract_node.Prelude.Int.{ℤ, pos, negsuc, ◌==ℤ◌}
use peerplays_contract_node.Chain.Records.{ChainHandler}
use peerplays_contract_node.Chain.Registry.Map.{Loaded}
use peerplays_contract_node.Chain.Inspect.{
  inspect_all_objects, inspect_all_indexes, inspect_contract_database,
}

pub data Line (O : Type 0) : Type 0 where
  dumping : String → Line O
  blank : Line O
  table : ℕ → Line O
  dumped : O → Line O

-- The log, and the variable that the function object keeps.
pub record Dumper (O : Type 0) : Type 0 where
  pub type_id : ℤ
  pub log : List (Line O)

module _ {O : Type 0} where
  abbrev write : Line O → Action (Dumper O) (Unit {0})
  write line d = (ok tt, record d { log = d.log ++ line ∷ [] })

  -- `type_of` is the type of the object's `id`, read from its variant, which may throw, if the
  -- variant has one.
  module _ (type_of : O → Option (Result ℕ)) where
    unfoldable pub show_table : ℕ → Action (Dumper O) (Unit {0})
    show_table new_type_id d = elim (not (pos new_type_id ==ℤ d.type_id)) [
      | false ↦ (ok tt, d)
      | true ↦ (write blank >> write (table new_type_id)) (record d { type_id = pos new_type_id })
    ]

    unfoldable pub dumper : O → Action (Dumper O) (Unit {0})
    dumper object d = elim (type_of object) [
      | none ↦ write (dumped object) d
      | some (fail e) ↦ (fail e, d)
      | some (ok new_type_id) ↦ (show_table new_type_id >> write (dumped object)) d
    ]

    unfoldable pub dump_contracts : (ℕ → List (List O)) → Loaded → Action (Dumper O) (Unit {0})
    dump_contracts indexes [] d = (ok tt, d)
    dump_contracts indexes ((id, name) ∷ contracts) d =
        (write (dumping name)
            >> (λ e. inspect_contract_database indexes id dumper (record e { type_id = negsuc 0 }))
            >> dump_contracts indexes contracts)
          d

    unfoldable pub dump_contract_databases :
        {Store Chain : Type 0}
        → (ℕ → List (List O))
        → ChainHandler Store Chain
        → Action (Dumper O) (Unit {0})
    dump_contract_databases indexes h = dump_contracts indexes h.loaded_contracts
