-- ===== src/Node/Life/Restart/Tests.antt =====
-- The node of the tests ends, and starts again with the records that it left.
use peerplays_contract_node.Prelude.{ℕ, ◌≡◌, refl, some, ok}
use peerplays_contract_node.P2p.Defs.{Hash}
use peerplays_contract_node.P2p.Handler.{P2pHandler, connect_to_seeds, start_sync_from}
use peerplays_contract_node.Chain.Records.{contract_object_space_id}
use peerplays_contract_node.Chain.InMemory.{Records, in_memory}
use peerplays_contract_node.Chain.Genesis.{destroy, initialize, open_chain}
use peerplays_contract_node.Chain.Monitor.{monitor_tables, attach}
use peerplays_contract_node.Node.Defs.{Node, lookup, emplace}
use peerplays_contract_node.Node.Libraries.{
  is_plugin_extension, load_plugin, try_file, try_files, load_plugins, search_for_plugins,
}
use peerplays_contract_node.Node.Plugins.{
  observe, initialize_named, initialize_body, initialize_plugin, initialize_loaded,
  initialize_plugins,
}
use peerplays_contract_node.Node.Plugins.Found.{initialize_found}
use peerplays_contract_node.Chain.Registry.{initialize_contract, record_of_contract, get_space_id}
use peerplays_contract_node.Chain.Registry.Map.{find, find_name}
use peerplays_contract_node.Chain.Registry.Map
use peerplays_contract_node.Node.Course.Signals.{prepare_wait}
use peerplays_contract_node.Node.Course.Run.{initialize_blockchain, start_chain, start_p2p}
use peerplays_contract_node.Node.Life.{Life, none_yet, lived}
use peerplays_contract_node.Node.Life.Restart.{restart_keeps_spaces}
use peerplays_contract_node.Node.Life.Tests.{
  host, tables, around, fresh, fresh-IsFresh, idle, before, asked, asked_lived, closing,
}

-- The node of the next start, and the life after that.
abbrev later : Node Records Hash Hash Hash
later = record fresh {
  handler = record (fresh.handler) {
    persistence = (destroy closing asked.handler.world.handler).0;
  };
}

abbrev opened_again : Node Records Hash Hash Hash
opened_again = (start_chain in_memory tables host around "node" later).1

abbrev started_again : P2pHandler (Node Records Hash Hash Hash)
started_again =
    (start_p2p in_memory tables host around "node" (record idle { world = opened_again })).1

opens_again : start_chain in_memory tables host around "node" later ≡ (ok tt, opened_again)
unfolding start_chain initialize_blockchain initialize initialize_found search_for_plugins
    load_plugins try_files try_file load_plugin emplace lookup is_plugin_extension
    initialize_plugins initialize_loaded initialize_plugin initialize_body initialize_named
    initialize_contract record_of_contract observe get_space_id find_name Map.emplace monitor_tables
    attach open_chain destroy contract_object_space_id start_p2p connect_to_seeds start_sync_from
opens_again = refl

starts_again :
    start_p2p in_memory tables host around "node" (record idle { world = opened_again })
    ≡ (ok tt, started_again)
unfolding start_p2p connect_to_seeds start_sync_from
starts_again = refl

abbrev alive_again : Life in_memory Hash Hash Hash
alive_again = record { handler = started_again; process = prepare_wait before }

loaded_before : find 10 asked.handler.world.handler.loaded_contracts ≡ some "dice"
unfolding start_chain initialize_blockchain initialize initialize_found search_for_plugins
    load_plugins try_files try_file load_plugin emplace lookup is_plugin_extension
    initialize_plugins initialize_loaded initialize_plugin initialize_body initialize_named
    initialize_contract record_of_contract observe get_space_id find_name Map.emplace monitor_tables
    attach open_chain destroy contract_object_space_id start_p2p connect_to_seeds start_sync_from
    Map.find
loaded_before = refl

loaded_again : find 10 alive_again.handler.world.handler.loaded_contracts ≡ some "dice"
unfolding start_chain initialize_blockchain initialize initialize_found search_for_plugins
    load_plugins try_files try_file load_plugin emplace lookup is_plugin_extension
    initialize_plugins initialize_loaded initialize_plugin initialize_body initialize_named
    initialize_contract record_of_contract observe get_space_id find_name Map.emplace monitor_tables
    attach open_chain destroy contract_object_space_id start_p2p connect_to_seeds start_sync_from
    Map.find
loaded_again = refl

restart_keeps_spaces_example : ◌≡◌ {A = ℕ} 10 10
restart_keeps_spaces_example =
    restart_keeps_spaces in_memory tables host host around "node" closing (λ s name. refl) fresh
      fresh-IsFresh (λ a b i e. absurd cc) asked asked_lived later
      (record { no_contracts = refl; no_libraries = refl; no_monitors = refl }) refl alive_again
      (lived idle started_again opened_again before opens_again starts_again none_yet) "dice" 10 10
      loaded_before loaded_again
