-- ===== src/Node/Tests.antt =====
-- A directory of three files and a node on it, and the theorems at them.
use peerplays_contract_node.Prelude.{
  leb, none, ℕ, ◌||◌, ◌%◌, ◌≡◌, refl, Bool, true, false, none, some, List, [], ◌∷◌, String, str_eq,
  if◌then◌else◌, ◌==◌, Result, ok, fail, fc_exception, fc_assert, system_error, Distinct, All,
}
use peerplays_contract_node.Prelude.Actions.{Action}
use peerplays_contract_node.P2p.Defs.{Hash, Database}
use peerplays_contract_node.P2p.Handler.{P2pHandler, connect_to_seeds, start_sync_from}
use peerplays_contract_node.Chain.InMemory.{Records, in_memory}
use peerplays_contract_node.Chain.Registry.{Initializer, initialize_contract, record_of_contract}
use peerplays_contract_node.Chain.Genesis.{initialize, open_chain}
use peerplays_contract_node.Chain.Monitor.{Tables}
use peerplays_contract_node.Node.Defs.{Library, Host, Node, lookup, emplace}
use peerplays_contract_node.Node.Libraries.{
  is_plugin_extension, load_plugin, try_file, try_files, load_plugins, search_for_plugins,
}
use peerplays_contract_node.Node.Libraries.Search.{IsPlugin}
use peerplays_contract_node.Node.Plugins.{
  initialize_plugins, initialize_loaded, initialize_plugin, initialize_body, initialize_named,
}
use peerplays_contract_node.Node.Plugins.Found.{
  names, initialize_found, initialize_each, initialize_found_lem,
}
use peerplays_contract_node.Node.Plugins.Outcome.{LeavesAt, initialize_plugins_throws}
use peerplays_contract_node.Node.Blocks.{BlockChain}
use peerplays_contract_node.Node.Course.Run.{
  Outside, initialize_blockchain, start_chain, start_p2p, run, Course, run-Course,
}
use peerplays_contract_node.Infra.TypeList.{append}
use peerplays_contract_node.Infra.Modular.{
  list_modules, walk_module_tree, walk, walk_dmarc, walk_entries, walk_submodules,
  accumulate_module,
}
use peerplays_contract_node.Node.Demarcation.{
  contract_node, chain_handler_module, p2p_handler_module, get_chain_handler, get_p2p_handler,
}

-- A chain database is the id of its head here.
abbrev accepts : Initializer Hash
accepts space head = (ok true, head)

abbrev refuses : Initializer Hash
refuses space head = (fail (fc_exception fc_assert), head)

abbrev library_of : Initializer Hash → Library Hash
library_of init = record {
  file_name = "plugin";
  is_loaded = true;
  has = λ symbol. str_eq symbol "registerContract" || str_eq symbol "contractName";
  contract_name = ok "dice";
  table_names = fail system_error;
  register_contract = ok init;
}

-- Of the files only dice.so is a plugin: notes.txt has another extension, broken.so does not load.
abbrev open_file : String → Result (Library Hash)
open_file path = if str_eq path "dice.so" then ok (library_of accepts) else fail system_error

abbrev last_three : String → String
last_three path = if str_eq path "notes.txt" then ".txt" else ".so"

abbrev host : Host Hash
host = record {
  open_library = open_file;
  weakly_canonical = λ path. ok path;
  list_directory = λ path.
      ok (some (record { paths = "dice.so" ∷ "notes.txt" ∷ "broken.so" ∷ []; stop = none }));
  extension = last_three;
  join = λ a b. b;
  program_stem = "node";
}

dice_loaded :
    load_plugins host "plugins" [] ≡ (ok ("dice.so" ∷ []), ("dice.so", library_of accepts) ∷ [])
unfolding load_plugins try_files try_file load_plugin emplace lookup is_plugin_extension
dice_loaded = refl

-- A contract has two tables.
abbrev tables : Tables Hash
tables = record {
  inspect_all_indexes = λ head space. 0 ∷ 1 ∷ [];
  add_secondary_index = λ space t head. (ok t, head);
  delete_secondary_index = λ space t index head. (ok tt, head);
}

-- `Net` is the list of the ids that a sync has started from.
abbrev node_with : Initializer Hash → Node Records Hash ℕ (List Hash)
node_with init = record {
  handler = record {
    base_path = "node";
    chain = 100;
    persistence = [];
    is_open = false;
    loaded_contracts = [];
  };
  loaded_libraries = ("dice.so", library_of init) ∷ [];
  contract_monitors = [];
  net = [];
}

dice_throws :
    initialize_plugins in_memory tables ("dice.so" ∷ "poker.so" ∷ []) (node_with refuses) ≡ (
      fail (fc_exception fc_assert),
      record (node_with refuses) {
        handler = (initialize_contract in_memory "dice" refuses (node_with refuses).handler).1;
      },
    )
unfolding initialize_plugins initialize_loaded initialize_plugin initialize_body initialize_named
    lookup initialize_contract record_of_contract
dice_throws = refl

initialize_plugins_throws_example :
    LeavesAt in_memory tables
      ("dice.so" ∷ "poker.so" ∷ [])
      (node_with refuses)
      (fc_exception fc_assert)
      (record (node_with refuses) {
        handler = (initialize_contract in_memory "dice" refuses (node_with refuses).handler).1;
      })
initialize_plugins_throws_example =
    (initialize_plugins_throws in_memory tables ("dice.so" ∷ "poker.so" ∷ []) (node_with refuses)
        (record (node_with refuses) {
          handler = (initialize_contract in_memory "dice" refuses (node_with refuses).handler).1;
        })
        (fc_exception fc_assert)).0
      dice_throws

-- A block with an odd id is refused.
abbrev blocks : BlockChain Hash
blocks = record {
  head_block_id = λ head. head;
  push_block =
      λ b head. if b.id % 2 == 0 then (ok tt, b.id) else (fail (fc_exception fc_assert), head);
}

-- A chain whose block ids are their numbers.
abbrev at_head : Hash → Database
at_head head = record {
  head_block_num = head;
  head_block_id = head;
  last_non_undoable_block_num = 0;
  num_from_id = λ h. h;
  get_block_id_for_num = λ n. ok n;
  is_known_block = λ h. leb h head;
  is_known_transaction = λ h. false;
  fetch_block_by_id = λ h. none;
  get_recent_transaction = λ h. fail system_error;
  get_block_ids_on_fork = λ h. fail system_error;
  get_chain_id = 1;
  block_interval = 3;
}

abbrev around : Outside Records Hash (List Hash)
around = record {
  open_store = λ s. (ok tt, s);
  open_database = λ c. (ok tt, c);
  blocks = blocks;
  reads = at_head;
  listen = λ w. (ok tt, w);
  connect = λ w. (ok tt, w);
  sync_from = λ i w. (ok tt, i.item_hash ∷ w);
}

-- At its end the program is told to exit without an error.
abbrev wait : Action (P2pHandler (Node Records Hash ℕ (List Hash))) Bool
wait h = (ok false, h)

abbrev before : P2pHandler (Node Records Hash ℕ (List Hash))
before = record { syncing = false; world = node_with accepts }

abbrev end : P2pHandler (Node Records Hash ℕ (List Hash))
end = (run in_memory tables host around "node" wait before).1

run_ends : run in_memory tables host around "node" wait before ≡ (ok 0, end)
unfolding run start_chain initialize_blockchain initialize initialize_found search_for_plugins
    load_plugins try_files try_file load_plugin emplace lookup is_plugin_extension
    initialize_plugins open_chain start_p2p connect_to_seeds start_sync_from
run_ends = refl

run-Course_example : Course in_memory tables host around "node" wait before 0 end
run-Course_example = run-Course in_memory tables host around "node" wait before end 0 run_ends

abbrev empty : Node Records Hash ℕ (List Hash)
empty = record (node_with accepts) { loaded_libraries = [] }

-- The second directory has nothing new.
dice_found :
    search_for_plugins host "node" [] ≡ (ok ("dice.so" ∷ []), ("dice.so", library_of accepts) ∷ [])
unfolding search_for_plugins load_plugins try_files try_file load_plugin emplace lookup
    is_plugin_extension
dice_found = refl

initialize_found_lem_example :
    (entries : List (String × Library Hash)) × (names entries ≡ "dice.so" ∷ [])
    × Distinct {A = String} ("dice.so" ∷ [])
    × All (λ e. (lookup {V = Library Hash} e.0 [] ≡ none) × IsPlugin host e.0 e.1) entries
    × (initialize_found in_memory tables host "node" empty
        ≡ initialize_each in_memory tables entries
            (record empty { loaded_libraries = ("dice.so", library_of accepts) ∷ [] }))
initialize_found_lem_example =
    initialize_found_lem in_memory tables host "node" empty ("dice.so" ∷ [])
      (("dice.so", library_of accepts) ∷ []) dice_found

contract_node_modules :
    list_modules contract_node
    ≡ (contract_node, [])
      ∷ (chain_handler_module, get_chain_handler ∷ [])
      ∷ (p2p_handler_module, get_p2p_handler ∷ [])
      ∷ []
unfolding list_modules walk_module_tree walk walk_dmarc walk_entries walk_submodules
    accumulate_module append
contract_node_modules = refl
