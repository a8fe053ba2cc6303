-- ===== src/Node/Plugins/Example.antt =====
-- ExampleContract/: a contract that exports the required function only, and the node that loads it.
use peerplays_contract_node.Prelude.{
  ℕ, ◌<◌, ◌≡◌, true, none, some, List, [], ◌∷◌, ◌++◌, String, str_eq, ok, fail, system_error, arith,
}
use peerplays_contract_node.Prelude.Actions.{Action, pure, ◌>>◌}
use peerplays_contract_node.Chain.Records.{Persistence, ChainHandler, contract_object_space_id}
use peerplays_contract_node.Chain.Registry.{Initializer, initialize_contract, get_space_id}
use peerplays_contract_node.Chain.Registry.Map.{find}
use peerplays_contract_node.Chain.Registry.Spaces.{after, the_record}
use peerplays_contract_node.Chain.Registry.Invariant.{IsRegistered}
use peerplays_contract_node.Chain.Registry.Loads.{initialize_contract_loads}
use peerplays_contract_node.Chain.Monitor.{Tables, Attached, monitor_tables}
use peerplays_contract_node.Node.Defs.{Library, Node}
use peerplays_contract_node.Node.Plugins.{
  observe, initialize_named, initialize_body, initialize_plugin,
}

-- The evaluator: what it is given does not matter.
unfoldable pub do_evaluate : {Operation : Type 0} → Operation → Unit {0}
do_evaluate op = tt

unfoldable pub do_apply : {Operation : Type 0} → Operation → Unit {0}
do_apply op = tt

-- `registerContract`, around the call of the chain database.
unfoldable pub register_example : {Chain : Type 0} → Action Chain (Unit {0}) → Initializer Chain
register_example register_evaluator space = do register_evaluator; pure true

-- The library that is built from the file: neither `contractName` nor `tableNames` is defined in it,
-- and to get such a symbol throws.
abbrev pub example_library : {Chain : Type 0} → Action Chain (Unit {0}) → String → Library Chain
example_library register_evaluator file_name = record {
  file_name = file_name;
  is_loaded = true;
  has = λ symbol. str_eq symbol "registerContract";
  contract_name = fail system_error;
  table_names = fail system_error;
  register_contract = ok (register_example register_evaluator);
}

module _ (p : Persistence) {Chain O Net : Type 0} (tables : Tables Chain)
    (register_evaluator : Action Chain (Unit {0})) (file : String)
    (n : Node p.Store Chain O Net) where
  abbrev pub handler_after : ChainHandler p.Store Chain
  handler_after = after p file (register_example register_evaluator) n.handler

  abbrev pub example_space : ℕ
  example_space =
      contract_object_space_id (the_record p file (register_example register_evaluator) n.handler)

  registers :
      (registered : Chain)
      → register_evaluator n.handler.chain ≡ (ok tt, registered)
      → (register_example register_evaluator example_space n.handler.chain).0 ≡ ok true
  unfolding register_example
  registers registered e = ground (arith, e)

  registers_contract :
      (registered : Chain)
      → register_evaluator n.handler.chain ≡ (ok tt, registered)
      → (initialize_contract p file (register_example register_evaluator) n.handler
          ≡ (ok true, handler_after))
        × (handler_after.chain ≡ registered)
  unfolding initialize_contract register_example
  registers_contract registered e = (ground (arith, e), ground (arith, e))

  -- The space that is found is observed.
  observed :
      (registered monitored : Chain) (attached : List (Attached O))
      → handler_after.chain ≡ registered
      → get_space_id handler_after file ≡ ok example_space
      → monitor_tables tables example_space registered ≡ (ok attached, monitored)
      → observe tables file handler_after
        ≡ (ok (example_space, attached), record handler_after { chain = monitored })
  unfolding observe
  observed registered monitored attached at_chain found f = ground (arith, at_chain, found, f)

  -- The library of the example contract is initialised as a plugin, on a node whose contracts are
  -- registered and where, afterwards, no name has a record with a number from 246 on; registering
  -- the evaluator and monitoring the tables of the contract's space do not throw. Then the plugin
  -- answers true. Since the library defines no name, the contract is loaded in its space under the
  -- file's name; since it defines no names of tables, the one monitor that is added, behind the
  -- others, has none. Besides, the handler has what the loading of the contract and the two calls
  -- of the chain database left, and nothing else of the node has changed.
  pub initialize_plugin-example_library :
      (registered monitored : Chain) (attached : List (Attached O))
      → IsRegistered p n.handler
      → ((other : String) (i : ℕ) → p.find handler_after.persistence other ≡ some i → i < 246)
      → register_evaluator n.handler.chain ≡ (ok tt, registered)
      → monitor_tables tables example_space registered ≡ (ok attached, monitored)
      → (find example_space handler_after.loaded_contracts ≡ some file)
        × (initialize_plugin p tables (example_library register_evaluator file) n ≡ (
          ok true,
          record n {
            handler = record handler_after { chain = monitored };
            contract_monitors =
                n.contract_monitors
                ++ record {
                  contract_name = file;
                  space = example_space;
                  table_names = none;
                  tables = attached;
                }
                  ∷ [];
          },
        ))
  unfolding initialize_plugin initialize_body initialize_named
  initialize_plugin-example_library registered monitored attached v small e f =
      let (loaded, high, found) =
        initialize_contract_loads p file (register_example register_evaluator) n.handler v small
          (registers registered e) in
      let (registration, at_chain) = registers_contract registered e in
      let seen = observed registered monitored attached at_chain found f in
      (loaded, ground (arith, registration, seen))
