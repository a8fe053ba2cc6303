-- ===== src/Node/Sync/Among/Tests.antt =====
-- Two rounds, before which other peers bring the next block, a wrong one on the head, and a
-- transaction.
use peerplays_contract_node.Prelude.{
  ℕ, ◌+◌, ◌≤◌, ◌≡◌, ap, refl, inl, inr, true, false, List, [], ◌∷◌, ok, some, fc_assert, arith,
}
use peerplays_contract_node.P2p.Defs.{SignedBlock}
use peerplays_contract_node.P2p.Handler.{P2pHandler}
use peerplays_contract_node.P2p.Handler.Calls.{Call, brings_block, asks_chain_id}
use peerplays_contract_node.Chain.InMemory.{Records, in_memory}
use peerplays_contract_node.Node.Defs.{Node}
use peerplays_contract_node.Node.Course.Run.{connected_slots}
use peerplays_contract_node.Node.Sync.Among.{Refused, sync_among}
use peerplays_contract_node.Node.Sync.Among.Calls.{sync_among_lem}
use peerplays_contract_node.Node.Sync.Tests.{
  block_at, at_height, blocks, at_height-Grows, five-Knows, tables, host, around, behind,
}

-- It is on block 1, and not block 2.
abbrev wrong_block : SignedBlock
wrong_block = record { id = 150; previous = 101; timestamp = 0; transactions = [] }

wrong-Refused : Refused blocks at_height block_at (at_height 5) at_height-Grows wrong_block
unfolding at_height-Grows
wrong-Refused c n h top e = (fc_assert, c, ground (arith, h.0, e), h)

abbrev two_rounds : List (List Call)
two_rounds =
    (brings_block wrong_block true ∷ brings_block (block_at 2) false ∷ [])
    ∷ (asks_chain_id ∷ [])
    ∷ []

sync_among_lem_example :
    (after : P2pHandler (Node Records ℕ ℕ ℕ)) × (m : ℕ) × (sync_among
        (connected_slots in_memory tables host around "node")
        (λ w. at_height w.handler.chain)
        (at_height 5)
        two_rounds
        2
        behind
      ≡ (ok tt, after))
    × (3 ≤ m)
    × (m ≤ 5)
    × (after.world.handler.chain + 100 ≡ m + 100)
unfolding at_height-Grows
sync_among_lem_example =
    sync_among_lem in_memory tables host around "node" block_at (at_height 5) at_height-Grows
      (λ n a b. omega arith) five-Knows (λ n a b. ap (λ m. some (block_at m)) (omega arith))
      two_rounds 2 behind 1
      (
        ((inr wrong-Refused, tt), ((inl (1, omega arith, omega arith, refl), tt), tt)),
        ((tt, tt), tt),
      )
      (refl, omega arith) (omega arith) (omega arith) (omega arith)
