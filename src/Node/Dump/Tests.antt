-- ===== src/Node/Dump/Tests.antt =====
-- Two contracts, one with objects of two tables, and the dump of them.
use peerplays_contract_node.Prelude.{
  true, if◌then◌else◌, ◌==◌, ℕ, ◌≡◌, ◌≢◌, refl, Option, none, some, List, [], ◌∷◌, Result, ok, fail,
  Failure,
}
use peerplays_contract_node.Prelude.Int.{ℤ, negsuc}
use peerplays_contract_node.Chain.Records.{ChainHandler}
use peerplays_contract_node.Chain.Inspect.{
  inspect_all_objects, inspect_all_indexes, inspect_contract_database,
}
use peerplays_contract_node.Node.Dump.{
  Dumper, Line, dumping, blank, table, dumped, show_table, dumper, dump_contracts,
  dump_contract_databases,
}
use peerplays_contract_node.Node.Dump.Lines.{objects_of, names_of, all_objects, Headed}
use peerplays_contract_node.Node.Dump.Headings.{dump_contract_databases_lem}

-- An object is its type, if it has an id, and a number.
abbrev Object : Type 0
Object = Option ℕ × ℕ

abbrev type_of : Object → Option (Result ℕ)
type_of (none, n) = none
type_of (some t, n) = some (ok t)

readable : (o : Object) (e : Failure) → type_of o ≢ some (fail e)
readable (none, n) e same = cc
readable (some t, n) e same = cc

-- Space 10 has two indexes, of which the second continues the type of the first.
abbrev indexes : ℕ → List (List Object)
indexes space =
    if space == 10
    then ((some 0, 1) ∷ (some 1, 2) ∷ []) ∷ ((some 1, 3) ∷ (none, 4) ∷ []) ∷ []
    else ((some 1, 5) ∷ []) ∷ []

abbrev handler : ChainHandler ℕ ℕ
handler = record {
  base_path = "node";
  chain = 0;
  persistence = 0;
  is_open = true;
  loaded_contracts = (10, "dice") ∷ (11, "poker") ∷ [];
}

abbrev dump : Result (Unit {0}) × Dumper Object
dump = dump_contract_databases type_of indexes handler (record { type_id = negsuc 0; log = [] })

dump_contract_databases_lem_example :
    (lines : List (Line Object)) × (u : ℤ) × (dump ≡ (ok tt, record { type_id = u; log = lines }))
    × (objects_of lines ≡ all_objects indexes ((10, "dice") ∷ (11, "poker") ∷ []))
    × (names_of lines ≡ "dice" ∷ "poker" ∷ [])
    × Headed type_of (negsuc 0) lines
dump_contract_databases_lem_example =
    dump_contract_databases_lem type_of readable indexes handler (negsuc 0) []

dump_run :
    dump.1.log
    ≡ dumping "dice"
      ∷ blank
      ∷ table 0
      ∷ dumped (some 0, 1)
      ∷ blank
      ∷ table 1
      ∷ dumped (some 1, 2)
      ∷ dumped (some 1, 3)
      ∷ dumped (none, 4)
      ∷ dumping "poker"
      ∷ blank
      ∷ table 1
      ∷ dumped (some 1, 5)
      ∷ []
unfolding dump_contract_databases dump_contracts inspect_contract_database inspect_all_indexes
    inspect_all_objects dumper show_table
dump_run = refl
