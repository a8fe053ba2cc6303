-- ===== src/Node/Life/Linked/Tests.antt =====
-- A node that searches for plugins and then gets a block on its head, and one that is not.
use mathlib.Core.List.{Sublist}
use peerplays_contract_node.Prelude.{ℕ, ◌≡◌, refl, ap, true, false, [], ◌∷◌, String, ok}
use peerplays_contract_node.P2p.Defs.{Hash, SignedBlock}
use peerplays_contract_node.P2p.Handler.Calls.{Call, brings_block, answer}
use peerplays_contract_node.Chain.InMemory.{in_memory}
use peerplays_contract_node.Chain.Registry.{
  Initializer, initialize_contract, record_of_contract, get_space_id,
}
use peerplays_contract_node.Node.Defs.{Library, lookup, emplace}
use peerplays_contract_node.Node.Libraries.Search.{IsPlugin}
use peerplays_contract_node.Node.Blocks.Linked.{works, IsLinked}
use peerplays_contract_node.Node.Course.Run.{
  connected_slots, initialize_blockchain, start_chain, start_p2p,
}
use peerplays_contract_node.Node.Life.{Life, run_task, Steps, and_then, called}
use peerplays_contract_node.Node.Life.Heads.{IsQuiet}
use peerplays_contract_node.Chain.Genesis.{initialize, open_chain}
use peerplays_contract_node.Chain.Monitor.{monitor_tables, attach}
use peerplays_contract_node.Chain.Registry.Map.{find_name}
use peerplays_contract_node.Chain.Registry.Map
use peerplays_contract_node.Node.Blocks.{push_checked, on_block_received}
use peerplays_contract_node.Node.Libraries.{
  is_plugin_extension, load_plugin, try_file, try_files, load_plugins, search_for_plugins,
}
use peerplays_contract_node.Node.Plugins.{
  observe, initialize_named, initialize_body, initialize_plugin, initialize_loaded,
  initialize_plugins,
}
use peerplays_contract_node.Node.Plugins.Found.{initialize_found}
use peerplays_contract_node.P2p.Handler.{handle_block, connect_to_seeds, start_sync_from}
use peerplays_contract_node.Node.Life.Linked.{received_of, applied_of, Lived-IsLinked}
use peerplays_contract_node.Node.Life.Tests.{
  host, tables, blocks, around, fresh, fresh-IsFresh, asked, asked_lived, searched, search_done,
}

abbrev first_block : SignedBlock
first_block = record { id = 101; previous = 100; timestamp = 0; transactions = [] }

abbrev foreign_block : SignedBlock
foreign_block = record { id = 205; previous = 204; timestamp = 0; transactions = [] }

abbrev after_call : Call → Life in_memory Hash Hash Hash → Life in_memory Hash Hash Hash
after_call c s = record s {
  handler =
      (answer (connected_slots in_memory tables host around "node")
        (λ n. around.reads n.handler.chain) c s.handler).1;
}

abbrev given_two : Life in_memory Hash Hash Hash
given_two =
    after_call (brings_block first_block false)
      (after_call (brings_block foreign_block false) searched)

two_brought : Steps in_memory tables host around "node" asked given_two
two_brought =
    and_then (and_then search_done (called (brings_block foreign_block false)))
      (called (brings_block first_block false))

two_received :
    received_of in_memory tables host around "node" two_brought ≡ foreign_block ∷ first_block ∷ []
unfolding received_of two_brought search_done
two_received = refl

dice_quiet :
    (path : String) (library : Library Hash) (init : Initializer Hash)
    → IsPlugin host path library
    → library.register_contract ≡ ok init
    → (space : ℕ) (c : Hash) → (init space c).1 ≡ c
dice_quiet path library init (opened, loaded, exported) e space c =
    let same : init ≡ (λ space head. (ok true, head)) = cc in ap (λ i. (i space c).1) same

quiet : IsQuiet tables host (λ head. head)
quiet = record { indexes = λ space table c. refl; contracts = dice_quiet }

-- The foreign block is not taken.
first_applied : applied_of in_memory tables host around "node" two_brought ≡ first_block ∷ []
unfolding applied_of two_brought search_done answer handle_block on_block_received push_checked
    run_task start_chain initialize_blockchain initialize initialize_found search_for_plugins
    load_plugins try_files try_file load_plugin emplace lookup is_plugin_extension
    initialize_plugins initialize_loaded initialize_plugin initialize_body initialize_named
    initialize_contract record_of_contract observe get_space_id find_name Map.emplace monitor_tables
    attach open_chain start_p2p connect_to_seeds start_sync_from
first_applied = refl

Lived-IsLinked_example :
    Sublist
      (applied_of in_memory tables host around "node" two_brought)
      (received_of in_memory tables host around "node" two_brought)
    × IsLinked blocks asked.handler.world.handler.chain
        (applied_of in_memory tables host around "node" two_brought)
        given_two.handler.world.handler.chain
Lived-IsLinked_example =
    Lived-IsLinked in_memory tables host around "node" (λ b c on_head. works b.id refl refl) quiet
      fresh fresh-IsFresh (λ a b i e. absurd cc) asked given_two asked_lived two_brought
