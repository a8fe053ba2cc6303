-- ===== src/Node/Plugins.antt =====
-- `initializePlugin` and `initializePlugins` of Modules/ContractNode.cpp.
pub mod Outcome
pub mod Found
pub mod Example
mod Tests
use peerplays_contract_node.Prelude.{
  ℕ, Bool, true, false, Option, none, some, List, [], ◌∷◌, ◌++◌, String, Result, ok, fail, ltb,
  if◌then◌else◌, undefined_behaviour, get_elem?,
}
use peerplays_contract_node.Prelude.Actions.{Action, pure, throw, gets, ◌>>=◌, ◌>>◌, modify}
use peerplays_contract_node.Chain.Records.{Persistence, ChainHandler}
use peerplays_contract_node.Chain.Registry.{Initializer, initialize_contract, get_space_id}
use peerplays_contract_node.Chain.Monitor.{Tables, Attached, monitor_tables}
use peerplays_contract_node.Node.Defs.{
  StringList, Library, ContractMonitor, Node, lookup, erase, is_boost_exception,
}

-- The name of a table in the log: the contract's own, or the number that `std::to_string` prints.
pub data TableName : Type 0 where
  named : String → TableName
  numbered : ℕ → TableName

-- `tables->values[type]` under the test of `tables && tables->count > type`.
unfoldable pub table_name : Option StringList → ℕ → Result TableName
table_name none t = ok (numbered t)
table_name (some names) t = elim (ltb t names.count) [
  | true ↦ elim (get_elem? names.values t) [
    | some n ↦ ok (named n)
    | none ↦ fail undefined_behaviour
  ]
  | false ↦ ok (numbered t)
]

-- A call on the chain database of the handler.
abbrev pub on_chain :
    {Store Chain A : Type 0} → Action Chain A → Action (ChainHandler Store Chain) A
on_chain m h = let (r, c) = m h.chain in (r, record h { chain = c })

-- `observeContract(contractName)`: the space, and the monitors of its tables.
unfoldable pub observe :
    {Store Chain O : Type 0}
    → Tables Chain
    → String
    → Action (ChainHandler Store Chain) (ℕ × List (Attached O))
observe tables name = do
  space ← λ h. (get_space_id h name, h)
  attached ← on_chain (monitor_tables tables space)
  pure (space, attached)

-- `catch (const boost::exception&)`.
abbrev pub catch_boost : Result Bool → Result Bool
catch_boost (ok b) = ok b
catch_boost (fail e) = elim (is_boost_exception e) [ true ↦ ok false | false ↦ fail e ]

module _ (p : Persistence) {Chain O Net : Type 0} (tables : Tables Chain) where
  -- A call of the chain handler.
  abbrev pub on_handler :
      {A : Type 0} → Action (ChainHandler p.Store Chain) A → Action (Node p.Store Chain O Net) A
  on_handler m n = let (r, h) = m n.handler in (r, record n { handler = h })

  abbrev pub lift : {A : Type 0} → Result A → Action (Node p.Store Chain O Net) A
  lift r n = (r, n)

  -- From `observeContract` on: the monitor is kept.
  abbrev pub watch : String → Option StringList → Action (Node p.Store Chain O Net) Bool
  watch name names = do
    (space, attached) ← on_handler (observe tables name)
    modify λ n. record n {
      contract_monitors =
          n.contract_monitors
          ++ record { contract_name = name; space = space; table_names = names; tables = attached }
            ∷ [];
    }
    pure true

  -- The body of the `try`, from the contract's name on.
  unfoldable pub initialize_named : Library Chain → String → Action (Node p.Store Chain O Net) Bool
  initialize_named library name = do
    names ← lift (elim (library.has "tableNames") [
      | true ↦ elim library.table_names [ ok ns ↦ ok (some ns) | fail e ↦ fail e ]
      | false ↦ ok none
    ])
    init ← lift library.register_contract
    done ← on_handler (initialize_contract p name init)
    elim done [ true ↦ watch name names | false ↦ pure false ]

  unfoldable pub initialize_body : Library Chain → Action (Node p.Store Chain O Net) Bool
  initialize_body library = do
    name ← lift (elim (library.has "contractName") [
      | true ↦ library.contract_name
      | false ↦ ok library.file_name
    ])
    initialize_named library name

  unfoldable pub initialize_plugin : Library Chain → Action (Node p.Store Chain O Net) Bool
  initialize_plugin library n = let (r, after) = initialize_body library n in (catch_boost r, after)

  -- A library that does not initialise is unloaded. `find` of a path that is not in the map gives
  -- the end, which must not be read.
  unfoldable pub initialize_loaded : String → Action (Node p.Store Chain O Net) (Unit {0})
  initialize_loaded path n = elim (lookup path n.loaded_libraries) [
    | none ↦ (fail undefined_behaviour, n)
    | some library ↦
        let (r, after) = initialize_plugin library n in
        elim r [
          | fail e ↦ (fail e, after)
          | ok true ↦ (ok tt, after)
          | ok false ↦
              (ok tt, record after { loaded_libraries = erase path after.loaded_libraries })
        ]
  ]

  unfoldable pub initialize_plugins : List String → Action (Node p.Store Chain O Net) (Unit {0})
  initialize_plugins [] n = (ok tt, n)
  initialize_plugins (path ∷ paths) n = (initialize_loaded path >> initialize_plugins paths) n
