-- ===== src/Node/Sync/Tests.antt =====
-- The node of a chain of heights takes the blocks of a node with five.
use peerplays_contract_node.Prelude.{
  none, ◌<◌, ◌%◌, inl, ap, ℕ, ◌+◌, ◌-◌, ◌≤◌, ◌≡◌, ◌&&◌, refl, true, false, [], ok, fail, some,
  fc_exception, fc_assert, assert_failed, arith, ltb, leb, ◌==◌, if◌then◌else◌,
}
use peerplays_contract_node.P2p.Defs.{Hash, SignedBlock, Database}
use peerplays_contract_node.P2p.BlockIds.Fill.{Serves}
use peerplays_contract_node.P2p.Exchange.{Knows}
use peerplays_contract_node.P2p.Handler.{P2pHandler}
use peerplays_contract_node.Chain.InMemory.{Records, in_memory}
use peerplays_contract_node.Chain.Monitor.{Tables}
use peerplays_contract_node.Node.Defs.{Host, Node}
use peerplays_contract_node.Node.Blocks.{BlockChain}
use peerplays_contract_node.Node.Course.Run.{Outside, connected_slots}
use peerplays_contract_node.Node.Sync.{sync_rounds}
use peerplays_contract_node.Node.Sync.Rounds.{Grows}
use peerplays_contract_node.Node.Sync.Connected.{sync_rounds_lem}
use peerplays_contract_node.Node.Sync.Stuck.{sync_rounds-stuck}
use peerplays_contract_node.P2p.BlockIds.Search.{IsForeign}

-- Block `n` has the id `n + 100`; the number behind an id above 100.
abbrev pub block_at : ℕ → SignedBlock
block_at n = record { id = n + 100; previous = n + 99; timestamp = 0; transactions = [] }

abbrev pub at_height : ℕ → Database
at_height top = record {
  head_block_num = top;
  head_block_id = top + 100;
  last_non_undoable_block_num = 0;
  num_from_id = λ h. h - 100;
  get_block_id_for_num = λ n. if leb n top then ok (n + 100) else fail assert_failed;
  is_known_block = λ h. ltb 100 h && leb (h - 100) top;
  is_known_transaction = λ h. false;
  fetch_block_by_id = λ h. some (block_at (h - 100));
  get_recent_transaction = λ h. fail assert_failed;
  get_block_ids_on_fork = λ h. fail assert_failed;
  get_chain_id = 1;
  block_interval = 3;
}

abbrev pub blocks : BlockChain ℕ
blocks = record {
  head_block_id = λ top. top + 100;
  push_block =
      λ b top. if b.id == top + 101 then (ok tt, top + 1) else (fail (fc_exception fc_assert), top);
}

pub at_height-Serves : (top : ℕ) → top ≤ 5 → Serves (at_height top) (λ n. (block_at n).id)
at_height-Serves top small = record {
  served = λ n a b. ground arith;
  numbered = λ n a b. omega arith;
  narrow = omega arith;
}

-- A height up to 5 that the database is at.
unfoldable pub at_height-Grows : Grows blocks at_height block_at 5
at_height-Grows = record {
  Holds = λ c n. (c ≡ n) × (n ≤ 5);
  head_id = λ c n h. omega (arith, h.0);
  head = λ c n h. h.0;
  undo = λ c n h. omega arith;
  serves = λ c n h. at_height-Serves c (omega (arith, h.0, h.1));
  known = λ c n m h a b. ground (arith, h.0);
  push = λ c n h b. (c + 1, ground (arith, h.0), (omega (arith, h.0), omega arith));
}

pub five-Knows : Knows (at_height 5) (λ n. (block_at n).id)
five-Knows = record {
  serves = at_height-Serves 5 (omega arith);
  known = λ n a b. ground arith;
  not_zero = λ n a b. omega arith;
}

abbrev pub tables : Tables ℕ
tables = record {
  inspect_all_indexes = λ chain space. [];
  add_secondary_index = λ space t chain. (ok t, chain);
  delete_secondary_index = λ space t index chain. (ok tt, chain);
}

abbrev pub host : Host ℕ
host = record {
  open_library = λ path. fail assert_failed;
  weakly_canonical = λ path. ok path;
  list_directory = λ path. ok (some (record { paths = []; stop = none }));
  extension = λ path. path;
  join = λ a b. b;
  program_stem = "node";
}

abbrev pub around : Outside Records ℕ ℕ
around = record {
  open_store = λ s. (ok tt, s);
  open_database = λ c. (ok tt, c);
  blocks = blocks;
  reads = at_height;
  listen = λ w. (ok tt, w);
  connect = λ w. (ok tt, w);
  sync_from = λ i w. (ok tt, i.item_hash);
}

abbrev pub behind : P2pHandler (Node Records ℕ ℕ ℕ)
behind = record {
  syncing = true;
  world = record {
    handler = record {
      base_path = "node";
      chain = 1;
      persistence = [];
      is_open = true;
      loaded_contracts = [];
    };
    loaded_libraries = [];
    contract_monitors = [];
    net = 0;
  };
}

sync_rounds_lem_example :
    (after : P2pHandler (Node Records ℕ ℕ ℕ)) × (sync_rounds
        (connected_slots in_memory tables host around "node")
        (λ w. at_height w.handler.chain)
        (at_height 5)
        3
        2
        behind
      ≡ (ok tt, after))
    × (after.syncing ≡ true)
    × (after.world.handler.chain + 100 ≡ 104)
unfolding at_height-Grows
sync_rounds_lem_example =
    sync_rounds_lem in_memory tables host around "node" block_at (at_height 5) at_height-Grows
      (λ n a b. omega arith) five-Knows (λ n a b. ap (λ m. some (block_at m)) (omega arith)) 3 2
      behind 1 (refl, omega arith) (omega arith) (omega arith) (omega arith)

-- A chain of four that parts from the five behind block 2.
abbrev forked : ℕ → Hash
forked n = if leb n 2 then n + 100 else n + 200

abbrev four : Database
four = record (at_height 4) {
  head_block_id = 204;
  num_from_id = λ h. h % 100;
  get_block_id_for_num = λ n. ok (forked n);
}

four-Serves : Serves four forked
four-Serves = record {
  served = λ n a b. refl;
  numbered = λ n a b. ground arith;
  narrow = omega arith;
}

forked-IsForeign : (n : ℕ) → 2 < n → n ≤ 4 → IsForeign (at_height 5) (forked n)
forked-IsForeign n a b = (ground arith, inl (ground arith))

abbrev on_fork : Outside Records ℕ ℕ
on_fork = record around {
  blocks = record blocks { head_block_id = λ top. top + 200 };
  reads = λ top. four;
}

abbrev forked_off : P2pHandler (Node Records ℕ ℕ ℕ)
forked_off = record behind {
  world = record (behind.world) { handler = record (behind.world.handler) { chain = 4 } };
}

sync_rounds-stuck_example :
    sync_rounds
      (connected_slots in_memory tables host on_fork "node")
      (λ w. four)
      (at_height 5)
      7
      3
      forked_off
    ≡ (ok tt, forked_off)
sync_rounds-stuck_example =
    sync_rounds-stuck in_memory tables host on_fork "node" forked (at_height 5) block_at 2
      forked_off four-Serves refl five-Knows (λ n a b. omega arith) (λ e. omega (arith, e))
      (λ n a b. ap (λ m. some (block_at m)) (omega arith)) (λ n a b. ground arith) forked-IsForeign
      (omega arith) (omega arith) (omega arith) (omega arith) 7 3 (omega arith)
