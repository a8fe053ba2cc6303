-- ===== src/Node/Sync/Stuck.antt =====
-- The node on a fork: the slot takes only a block that is on its own head.
use peerplays_contract_node.Prelude.{
  ℕ, zero, suc, ◌+◌, ◌-◌, ◌≤◌, ◌<◌, ◌≡◌, ◌≢◌, refl, sym, subst, map, span, min, ok, arith, some,
  String, ==_iff,
}
use peerplays_contract_node.P2p.Defs.{Hash, SignedBlock, Database}
use peerplays_contract_node.P2p.BlockIds.Fill.{Serves}
use peerplays_contract_node.P2p.BlockIds.Search.{IsForeign, foreign-is_shared}
use peerplays_contract_node.P2p.Exchange.{Knows, is_shared-main}
use peerplays_contract_node.P2p.Exchange.Forked.{exchange_forked}
use peerplays_contract_node.P2p.Handler.{P2pHandler, Surroundings, has_item, get_item, handle_block}
use peerplays_contract_node.Chain.Records.{Persistence}
use peerplays_contract_node.Chain.Monitor.{Tables}
use peerplays_contract_node.Node.Defs.{Host, Node}
use peerplays_contract_node.Node.Blocks.{on_block_received}
use peerplays_contract_node.Node.Course.Run.{Outside, connected_slots}
use peerplays_contract_node.Node.Sync.{
  take_message, fetch_block, fetch_blocks, sync_round, sync_rounds,
}

-- The head of a fork is not on the other's chain, and so not below one of its blocks.
head_apart :
    (theirs : Database) (main : ℕ → SignedBlock) (head : Hash)
    → Knows theirs (λ n. (main n).id)
    → IsForeign theirs head
    → ((n : ℕ) → 1 ≤ n → n < theirs.head_block_num → (main (n + 1)).previous ≡ (main n).id)
    → (main 1).previous ≢ head
    → (n : ℕ) → 1 ≤ n
    → n ≤ theirs.head_block_num
    → (main n).previous ≢ head
head_apart theirs main head k foreign linked first zero a b = λ e. omega arith
head_apart theirs main head k foreign linked first (suc zero) a b = first
head_apart theirs main head k foreign linked first (suc (suc m)) a b = λ e.
    let below : (main (m + 1)).id ≡ head =
      ground (arith, e, linked (m + 1) (omega arith) (omega arith)) in
    let shared = is_shared-main theirs (λ n. (main n).id) k (m + 1) (omega arith) (omega arith) in
    ground (arith, shared, below, foreign-is_shared theirs head foreign)

module _ (p : Persistence) {Chain O Net : Type 0} (tables : Tables Chain) (host : Host Chain)
    (around : Outside p.Store Chain Net) (program_path : String) where
  abbrev slots : Surroundings (Node p.Store Chain O Net)
  slots = connected_slots p tables host around program_path

  abbrev reads : Node p.Store Chain O Net → Database
  reads w = around.reads w.handler.chain

  abbrev head_of : P2pHandler (Node p.Store Chain O Net) → Hash
  head_of h = around.blocks.head_block_id h.world.handler.chain

  module _ (theirs : Database) (main : ℕ → SignedBlock) (h : P2pHandler (Node p.Store Chain O Net))
      (apart : (n : ℕ) → 1 ≤ n → n ≤ theirs.head_block_num → (main n).previous ≢ head_of h)
      (fetched : (n : ℕ)
        → 1 ≤ n
        → n ≤ theirs.head_block_num
        → theirs.fetch_block_by_id (main n).id ≡ some (main n)) where
    fetch_ignored :
        (n : ℕ)
        → 1 ≤ n
        → n ≤ theirs.head_block_num
        → fetch_block slots reads theirs (main n).id h ≡ (ok tt, h)
    unfolding fetch_block take_message has_item get_item handle_block on_block_received
    fetch_ignored n a b =
        ground (arith, fetched n a b, apart n a b, ==_iff (main n).previous (head_of h))

    fetch_all_ignored :
        (count start : ℕ)
        → 1 ≤ start
        → start + count ≤ theirs.head_block_num + 1
        → fetch_blocks slots reads theirs (map (λ n. (main n).id) (span start count)) h ≡ (ok tt, h)
    unfolding fetch_blocks
    fetch_all_ignored zero start a b = refl
    fetch_all_ignored (suc count) start a b = ground (
      arith,
      fetch_ignored start a (omega arith),
      fetch_all_ignored count (start + 1) (omega arith) (omega arith),
    )

  -- A node on a fork: its chain agrees with the other's up to a common block, 1 or higher, and has
  -- at least one block behind that, which the other does not know or not as its own. The other
  -- serves its chain by number, knows its blocks, whose ids are not zero and of which each names
  -- the one before, and hands them out; the last block of ours that cannot be undone is not above
  -- the common block, and our head is not the one below the other's first block. Then all rounds
  -- of requests, with room for 1 id or more in an answer, end without an exception and leave the
  -- whole node as it was: the slot ignores every block that it is brought, however many blocks the
  -- other has.
  pub sync_rounds-stuck :
      (ours : ℕ → Hash) (theirs : Database) (main : ℕ → SignedBlock) (common : ℕ)
      (h : P2pHandler (Node p.Store Chain O Net))
      → Serves (reads h.world) ours
      → head_of h ≡ ours (reads h.world).head_block_num
      → Knows theirs (λ n. (main n).id)
      → ((n : ℕ) → 1 ≤ n → n < theirs.head_block_num → (main (n + 1)).previous ≡ (main n).id)
      → (main 1).previous ≢ head_of h
      → ((n : ℕ)
          → 1 ≤ n
          → n ≤ theirs.head_block_num
          → theirs.fetch_block_by_id (main n).id ≡ some (main n))
      → ((n : ℕ) → 1 ≤ n → n ≤ common → ours n ≡ (main n).id)
      → ((n : ℕ) → common < n → n ≤ (reads h.world).head_block_num → IsForeign theirs (ours n))
      → 1 ≤ common
      → common < (reads h.world).head_block_num
      → common ≤ theirs.head_block_num
      → (reads h.world).last_non_undoable_block_num ≤ common
      → (rounds limit : ℕ) → 1 ≤ limit
      → sync_rounds slots reads theirs rounds limit h ≡ (ok tt, h)
  unfolding sync_rounds sync_round
  sync_rounds-stuck ours theirs main common h s at_head k linked first fetched agree apart a b c u
        zero limit o =
      refl
  sync_rounds-stuck ours theirs main common h s at_head k linked first fetched agree apart a b c u
        (suc rounds) limit o =
      let foreign : IsForeign theirs (head_of h) =
        subst (IsForeign theirs) (sym at_head)
          (apart (reads h.world).head_block_num b (omega arith)) in
      let (n, d, e, near, answer) =
        exchange_forked ours (λ m. (main m).id) (reads h.world) theirs k common limit s agree apart
          a (omega arith) c u o in
      let ignored =
        fetch_all_ignored theirs main h (head_apart theirs main (head_of h) k foreign linked first)
          fetched (min limit (theirs.head_block_num + 1 - n)) n d (omega arith) in
      let rest =
        sync_rounds-stuck ours theirs main common h s at_head k linked first fetched agree apart a b
          c u rounds limit o in
      ground (arith, answer, ignored, rest)
