-- ===== src/Node/Sync/Connected.antt =====
-- The node with the slots that `run` connects, on the other node's chain.
use peerplays_contract_node.Prelude.{
  ℕ, ◌+◌, ◌-◌, ◌*◌, ◌≤◌, ◌<◌, ◌≡◌, refl, min, String, Result, ok, arith, some,
}
use peerplays_contract_node.P2p.Defs.{SignedBlock, Database}
use peerplays_contract_node.P2p.Exchange.{Knows}
use peerplays_contract_node.P2p.Handler.{P2pHandler}
use peerplays_contract_node.Chain.Records.{Persistence}
use peerplays_contract_node.Chain.Monitor.{Tables}
use peerplays_contract_node.Node.Defs.{Host, Node}
use peerplays_contract_node.Node.Blocks.{on_block_received}
use peerplays_contract_node.Node.Course.Run.{Outside, connected_slots}
use peerplays_contract_node.Node.Sync.{sync_rounds}
use peerplays_contract_node.Node.Sync.Rounds.{Grows, sync_rounds-Reaches}

module _ (p : Persistence) {Chain O Net : Type 0} (tables : Tables Chain) (host : Host Chain)
    (around : Outside p.Store Chain Net) (program_path : String) where
  pub connected_slot :
      (b : SignedBlock) (w : Node p.Store Chain O Net) (r : Result (Unit {0})) (c : Chain)
      → on_block_received around.blocks b w.handler.chain ≡ (r, c)
      → (after : Node p.Store Chain O Net) × ((connected_slots p tables host around
              program_path).block_received
            b w
          ≡ (r, after))
        × (after.handler.chain ≡ c)
  connected_slot b w r c e =
      (record w { handler = record w.handler { chain = c } }, ground (arith, e), refl)

  -- Two nodes, and one main chain whose blocks each name the id of the one before. The other node
  -- knows the ids of its blocks of that chain, which are not zero, serves them by number, and hands
  -- out the blocks. The chain database of ours is such that, when it holds the first blocks of the
  -- chain, the last one is its head, it serves these by number, it has among the other's blocks
  -- just these, and it takes the next one where the other has it. Ours holds the first `n` blocks,
  -- 1 or more and not more than the other. In every round it sends its synopsis, and asks for
  -- each of the blocks in the answer that it lacks, in their order; the answers have room for
  -- `limit` ids, 1 or more. Then all the rounds end without an exception, the handler is syncing
  -- or not as before, and the head of our chain is the block whose number is `n` with `limit - 1`
  -- more for each round, or the other's head where that is lower.
  pub sync_rounds_lem :
      (main : ℕ → SignedBlock) (theirs : Database)
      (grows : Grows around.blocks around.reads main theirs.head_block_num)
      → ((n : ℕ) → 1 ≤ n → n < theirs.head_block_num → (main (n + 1)).previous ≡ (main n).id)
      → Knows theirs (λ n. (main n).id)
      → ((n : ℕ)
          → 1 ≤ n
          → n ≤ theirs.head_block_num
          → theirs.fetch_block_by_id (main n).id ≡ some (main n))
      → (rounds limit : ℕ) (h : P2pHandler (Node p.Store Chain O Net)) (n : ℕ)
      → grows.Holds h.world.handler.chain n
      → 1 ≤ n
      → n ≤ theirs.head_block_num
      → 1 ≤ limit
      → (after : P2pHandler (Node p.Store Chain O Net)) × (sync_rounds
            (connected_slots p tables host around program_path)
            (λ w. around.reads w.handler.chain)
            theirs
            rounds
            limit
            h
          ≡ (ok tt, after))
        × (after.syncing ≡ h.syncing)
        × (around.blocks.head_block_id after.world.handler.chain
            ≡ (main (min theirs.head_block_num (n + rounds * (limit - 1)))).id)
  sync_rounds_lem main theirs grows linked k fetched rounds limit h n held a b o =
      let (after, e, same, held') =
        sync_rounds-Reaches around.blocks around.reads main theirs grows linked
          (connected_slots p tables host around program_path) (λ w. w.handler.chain) connected_slot
          k fetched rounds limit h n held a b o in
      (after, e, same, grows.head_id after.world.handler.chain _ held')
