-- ===== src/Node/Sync/Among/Calls.antt =====
-- What the calls of other peers leave to the rounds.
use peerplays_contract_node.Prelude.{
  ℕ, ◌+◌, ◌-◌, ◌*◌, ◌≤◌, ◌<◌, ◌≡◌, refl, sym, subst, min, List, [], ◌∷◌, String, ok, arith, some,
  All, length,
}
use native.Mathlib.Nat.{suc-mul}
use peerplays_contract_node.P2p.Defs.{SignedBlock, Database}
use peerplays_contract_node.P2p.Exchange.{Knows}
use peerplays_contract_node.P2p.Handler.{P2pHandler, Surroundings, handle_transaction}
use peerplays_contract_node.P2p.Handler.Calls.{Call, answer, answer-relates, blocks_of}
use peerplays_contract_node.Chain.Records.{Persistence}
use peerplays_contract_node.Chain.Monitor.{Tables}
use peerplays_contract_node.Node.Defs.{Host, Node}
use peerplays_contract_node.Node.Course.Run.{Outside, connected_slots}
use peerplays_contract_node.Node.Sync.Rounds.{Grows, sync_round-Reaches}
use peerplays_contract_node.Node.Sync.Connected.{connected_slot}
use peerplays_contract_node.Node.Sync.Among.{
  take_calls, sync_among, AreExpected, HoldsFrom, receive-Expected,
}
use peerplays_contract_node.Node.Life.Reached.{handle_block-world}

module _ (p : Persistence) {Chain O Net : Type 0} (tables : Tables Chain) (host : Host Chain)
    (around : Outside p.Store Chain Net) (program_path : String) (main : ℕ → SignedBlock)
    (theirs : Database) (grows : Grows around.blocks around.reads main theirs.head_block_num)
    (linked : (n : ℕ) → 1 ≤ n → n < theirs.head_block_num → (main (n + 1)).previous ≡ (main n).id)
    (k : Knows theirs (λ m. (main m).id)) where
  abbrev slots : Surroundings (Node p.Store Chain O Net)
  slots = connected_slots p tables host around program_path

  abbrev reads : Node p.Store Chain O Net → Database
  reads w = around.reads w.handler.chain

  abbrev Climbs : List SignedBlock → Node p.Store Chain O Net → Node p.Store Chain O Net → Type 0
  Climbs bs w v =
      AreExpected around.blocks around.reads main theirs grows bs
      → (n : ℕ) → grows.Holds w.handler.chain n
      → 1 ≤ n
      → n ≤ theirs.head_block_num
      → HoldsFrom around.blocks around.reads main theirs grows n v.handler.chain

  Climbs-same : (w : Node p.Store Chain O Net) → Climbs [] w w
  Climbs-same w expected n h one top = (n, omega arith, top, h)

  answer-Climbs :
      (c : Call) (h : P2pHandler (Node p.Store Chain O Net))
      → Climbs (blocks_of c) h.world (answer slots reads c h).1.world
  unfolding handle_transaction
  answer-Climbs =
      answer-relates slots reads Climbs Climbs-same
        (λ b sync_mode h.
          subst (Climbs (b ∷ []) h.world)
            (sym (handle_block-world p tables host around program_path b sync_mode h))
            (λ (expected, none_else) n held one top.
              receive-Expected around.blocks around.reads main theirs grows linked k b
                h.world.handler.chain n expected held one top))
        (λ trx h. Climbs-same h.world)

  take_calls-climbs :
      (calls : List Call) (h : P2pHandler (Node p.Store Chain O Net)) (n : ℕ)
      → All (λ c. AreExpected around.blocks around.reads main theirs grows (blocks_of c)) calls
      → grows.Holds h.world.handler.chain n
      → 1 ≤ n
      → n ≤ theirs.head_block_num
      → HoldsFrom around.blocks around.reads main theirs grows n
          (take_calls slots reads calls h).world.handler.chain
  unfolding take_calls
  take_calls-climbs [] h n expected held one top = (n, omega arith, top, held)
  take_calls-climbs (c ∷ calls) h n (expected, more) held one top =
      let (m, above, below, held') = answer-Climbs c h expected n held one top in
      let (j, above', below', held'') =
        take_calls-climbs calls (answer slots reads c h).1 m more held' (omega arith) below in
      (j, omega arith, below', held'')

  sync_among-climbs :
      ((n : ℕ)
        → 1 ≤ n
        → n ≤ theirs.head_block_num
        → theirs.fetch_block_by_id (main n).id ≡ some (main n))
      → (rounds : List (List Call)) (limit : ℕ) (h : P2pHandler (Node p.Store Chain O Net)) (n : ℕ)
      → All
          (All (λ c. AreExpected around.blocks around.reads main theirs grows (blocks_of c)))
          rounds
      → grows.Holds h.world.handler.chain n
      → 1 ≤ n
      → n ≤ theirs.head_block_num
      → 1 ≤ limit
      → (after : P2pHandler (Node p.Store Chain O Net)) × (m : ℕ) × (sync_among slots reads theirs
            rounds limit h
          ≡ (ok tt, after))
        × (min theirs.head_block_num (n + length rounds * (limit - 1)) ≤ m)
        × (m ≤ theirs.head_block_num)
        × grows.Holds after.world.handler.chain m
  unfolding sync_among
  sync_among-climbs fetched [] limit h n expected held one top room =
      (h, n, refl, omega arith, top, held)
  sync_among-climbs fetched (calls ∷ rounds) limit h n (expected, more) held one top room =
      let (j, above, below, held') = take_calls-climbs calls h n expected held one top in
      let between = take_calls slots reads calls h in
      let (next, e, same, held'') =
        sync_round-Reaches around.blocks around.reads main theirs grows linked slots
          (λ w. w.handler.chain) (connected_slot p tables host around program_path) k fetched
          between j limit held' (omega arith) below room in
      let (after, m, e', above', below', held''') =
        sync_among-climbs fetched rounds limit next (min theirs.head_block_num (j + (limit - 1)))
          more held'' (omega arith) (omega arith) room in
      (
        after,
        m,
        ground (arith, e, e'),
        omega (arith, suc-mul (length rounds) (limit - 1), above'),
        below',
        held''',
      )

  -- The conditions of `sync_rounds_lem`, and before each round any calls of other peers. A block
  -- that these bring is one of the main chain behind its first, no higher than the other node's
  -- head, or one that the chain database, when its head is a block of the main chain and the block
  -- names that as the one before, refuses by an `fc::exception` that leaves it as high. Then all
  -- the rounds end without an exception, and the head of our chain is a block of the main chain, at
  -- least as high as it is without these calls: the one whose number is `n` with `limit - 1` more
  -- for each round, or the other's head where that is lower.
  pub sync_among_lem :
      ((n : ℕ)
        → 1 ≤ n
        → n ≤ theirs.head_block_num
        → theirs.fetch_block_by_id (main n).id ≡ some (main n))
      → (rounds : List (List Call)) (limit : ℕ) (h : P2pHandler (Node p.Store Chain O Net)) (n : ℕ)
      → All
          (All (λ c. AreExpected around.blocks around.reads main theirs grows (blocks_of c)))
          rounds
      → grows.Holds h.world.handler.chain n
      → 1 ≤ n
      → n ≤ theirs.head_block_num
      → 1 ≤ limit
      → (after : P2pHandler (Node p.Store Chain O Net)) × (m : ℕ) × (sync_among slots reads theirs
            rounds limit h
          ≡ (ok tt, after))
        × (min theirs.head_block_num (n + length rounds * (limit - 1)) ≤ m)
        × (m ≤ theirs.head_block_num)
        × (around.blocks.head_block_id after.world.handler.chain ≡ (main m).id)
  sync_among_lem fetched rounds limit h n expected held one top room =
      let (after, m, e, above, below, held') =
        sync_among-climbs fetched rounds limit h n expected held one top room in
      (after, m, e, above, below, grows.head_id after.world.handler.chain m held')
