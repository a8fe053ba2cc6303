-- ===== src/Node/Life/Tests.antt =====
-- A node that starts with one contract, gets a SIGUSR1, and is told to exit by a SIGINT.
use peerplays_contract_node.Prelude.{
  Bool, List, ◌++◌, leb, none, ◌≡◌, refl, true, false, some, [], ◌∷◌, str_eq, ◌||◌, ok, fail,
  system_error,
}
use peerplays_contract_node.P2p.Defs.{Hash, Database}
use peerplays_contract_node.P2p.Handler.{P2pHandler, connect_to_seeds, start_sync_from}
use peerplays_contract_node.Chain.InMemory.{Records, in_memory}
use peerplays_contract_node.Chain.Genesis.{Closing, initialize, open_chain}
use peerplays_contract_node.Chain.Monitor.{Tables, monitor_tables, attach}
use peerplays_contract_node.Node.Defs.{Library, Host, Node, lookup, emplace}
use peerplays_contract_node.Node.Libraries.{
  is_plugin_extension, load_plugin, try_file, try_files, load_plugins, search_for_plugins,
}
use peerplays_contract_node.Node.Plugins.{
  observe, initialize_named, initialize_body, initialize_plugin, initialize_loaded,
  initialize_plugins,
}
use peerplays_contract_node.Node.Plugins.Found.{initialize_found}
use peerplays_contract_node.Chain.Registry.{initialize_contract, record_of_contract, get_space_id}
use peerplays_contract_node.Chain.Registry.Map.{find, find_name}
use peerplays_contract_node.Chain.Registry.Map
use peerplays_contract_node.Node.Blocks.{BlockChain}
use peerplays_contract_node.Node.Course.Signals.{
  sigint, sigusr1, Process, load_new_plugins, prepare_wait, deliver, signal_handler,
}
use peerplays_contract_node.Node.Course.Run.{Outside, initialize_blockchain, start_chain, start_p2p}
use peerplays_contract_node.Node.Life.{
  Life, run_task, Steps, none_yet, and_then, Lived, lived, IsFresh, signalled, ran,
}
use peerplays_contract_node.Node.Life.Sound.{IsSound}
use peerplays_contract_node.Node.Life.Reached.{Lived-IsSound}
use peerplays_contract_node.Node.Life.Tasks.{ran_of, asked_of, promised_of, prepare_wait-Accounts}
use mathlib.Core.List.{Perm}
use peerplays_contract_node.Prelude.Actions.{Action}

abbrev pub dice : Library Hash
dice = record {
  file_name = "plugin";
  is_loaded = true;
  has = λ symbol. str_eq symbol "registerContract" || str_eq symbol "contractName";
  contract_name = ok "dice";
  table_names = fail system_error;
  register_contract = ok (λ space head. (ok true, head));
}

abbrev pub host : Host Hash
host = record {
  open_library = λ path. ok dice;
  weakly_canonical = λ path. ok path;
  list_directory = λ path. ok (some (record { paths = "dice.so" ∷ []; stop = none }));
  extension = λ path. ".so";
  join = λ a b. b;
  program_stem = "node";
}

-- A contract has one table.
abbrev pub tables : Tables Hash
tables = record {
  inspect_all_indexes = λ head space. 0 ∷ [];
  add_secondary_index = λ space t head. (ok t, head);
  delete_secondary_index = λ space t index head. (ok tt, head);
}

abbrev pub blocks : BlockChain Hash
blocks = record { head_block_id = λ head. head; push_block = λ b head. (ok tt, b.id) }

-- A chain whose block ids are their numbers.
abbrev at_head : Hash → Database
at_head head = record {
  head_block_num = head;
  head_block_id = head;
  last_non_undoable_block_num = 0;
  num_from_id = λ h. h;
  get_block_id_for_num = λ n. ok n;
  is_known_block = λ h. leb h head;
  is_known_transaction = λ h. false;
  fetch_block_by_id = λ h. none;
  get_recent_transaction = λ h. fail system_error;
  get_block_ids_on_fork = λ h. fail system_error;
  get_chain_id = 1;
  block_interval = 3;
}

abbrev pub around : Outside Records Hash Hash
around = record {
  open_store = λ s. (ok tt, s);
  open_database = λ c. (ok tt, c);
  blocks = blocks;
  reads = at_head;
  listen = λ w. (ok tt, w);
  connect = λ w. (ok tt, w);
  sync_from = λ i w. (ok tt, i.item_hash);
}

abbrev pub fresh : Node Records Hash Hash Hash
fresh = record {
  handler = record {
    base_path = "node";
    chain = 100;
    persistence = [];
    is_open = false;
    loaded_contracts = [];
  };
  loaded_libraries = [];
  contract_monitors = [];
  net = 0;
}

pub fresh-IsFresh : IsFresh fresh
fresh-IsFresh = record { no_contracts = refl; no_libraries = refl; no_monitors = refl }

abbrev pub idle : P2pHandler (Node Records Hash Hash Hash)
idle = record { syncing = false; world = fresh }

abbrev opened : Node Records Hash Hash Hash
opened = (start_chain in_memory tables host around "node" fresh).1

abbrev started : P2pHandler (Node Records Hash Hash Hash)
started = (start_p2p in_memory tables host around "node" (record idle { world = opened })).1

abbrev pub before : Process
before = record { promised = []; has_signal_set = false; is_waiting = false; tasks = [] }

abbrev waiting : Life in_memory Hash Hash Hash
waiting = record { handler = started; process = prepare_wait before }

abbrev pub asked : Life in_memory Hash Hash Hash
asked = record waiting { process = deliver sigusr1 waiting.process }

abbrev pub searched : Life in_memory Hash Hash Hash
searched = record {
  handler = record started {
    world = run_task in_memory tables host around "node" load_new_plugins started.world;
  };
  process = record asked.process { tasks = [] };
}

search_asked : Steps in_memory tables host around "node" waiting asked
search_asked = and_then none_yet (signalled sigusr1)

unfoldable pub search_done : Steps in_memory tables host around "node" asked searched
unfolding prepare_wait deliver signal_handler
search_done = and_then none_yet (ran load_new_plugins [] [] refl)

chain_opens : start_chain in_memory tables host around "node" fresh ≡ (ok tt, opened)
unfolding start_chain initialize_blockchain initialize initialize_found search_for_plugins
    load_plugins try_files try_file load_plugin emplace lookup is_plugin_extension
    initialize_plugins initialize_loaded initialize_plugin initialize_body initialize_named
    initialize_contract record_of_contract observe get_space_id find_name Map.emplace monitor_tables
    attach open_chain
chain_opens = refl

p2p_starts :
    start_p2p in_memory tables host around "node" (record idle { world = opened })
    ≡ (ok tt, started)
unfolding start_p2p connect_to_seeds start_sync_from
p2p_starts = refl

pub asked_lived : Lived in_memory tables host around "node" fresh asked
asked_lived = lived idle started opened before chain_opens p2p_starts search_asked

Lived-IsSound_example : IsSound in_memory host asked.handler.world
Lived-IsSound_example =
    Lived-IsSound in_memory tables host around "node" fresh fresh-IsFresh (λ a b i e. absurd cc)
      asked asked_lived

abbrev pub closing : Closing Records Hash
closing = record { close_chain = λ c. c; flush = λ s. s; close_store = λ s. s }

search_ran : Steps in_memory tables host around "node" waiting searched
unfolding prepare_wait deliver signal_handler
search_ran = and_then (and_then none_yet (signalled sigusr1)) (ran load_new_plugins [] [] refl)

prepare_wait-Accounts_example :
    Perm
      (ran_of in_memory tables host around "node" search_ran ++ [])
      (asked_of in_memory tables host around "node" search_ran)
    × (searched.process.promised ≡ promised_of in_memory tables host around "node" search_ran)
    × (searched.process.is_waiting ≡ true)
    × (searched.process.has_signal_set ≡ true)
prepare_wait-Accounts_example =
    prepare_wait-Accounts in_memory tables host around "node" started before searched search_ran
      refl

abbrev stopped : Life in_memory Hash Hash Hash
stopped = record searched { process = deliver sigint searched.process }

stop_asked : Steps in_memory tables host around "node" waiting stopped
stop_asked = and_then search_ran (signalled sigint)

-- The wait answers in the state that the steps reach.
abbrev wait_answers : Action (P2pHandler (Node Records Hash Hash Hash)) Bool
wait_answers h = (ok false, stopped.handler)
