-- ===== src/Node/Sync/Rounds.antt =====
-- The rounds bring the node to the other's head.
use peerplays_contract_node.Prelude.{
  ℕ, zero, suc, ◌+◌, ◌-◌, ◌*◌, ◌≤◌, ◌<◌, ◌≡◌, refl, sym, subst, ◌∙◌, List, map, span, min, max,
  Result, ok, arith, some, leb, dec_lt,
}
use native.Mathlib.Nat.{suc-mul}
use peerplays_contract_node.Prelude.Actions.{Action, ◌>>◌}
use peerplays_contract_node.P2p.Defs.{Hash, SignedBlock, Database}
use peerplays_contract_node.P2p.BlockIds.Fill.{Serves}
use peerplays_contract_node.P2p.Exchange.{Knows, exchange_lem}
use peerplays_contract_node.P2p.Handler.{Surroundings, P2pHandler, has_item, get_item, handle_block}
use peerplays_contract_node.Node.Blocks.{BlockChain, push_checked, on_block_received}
use peerplays_contract_node.Node.Sync.{
  take_message, fetch_block, fetch_blocks, sync_round, sync_rounds,
}

-- A chain database that holds the first blocks of one main chain, whose ids differ. To push the
-- next block of it makes it hold one more.
pub record Grows {Chain : Type 0} (blocks : BlockChain Chain) (view : Chain → Database)
    (main : ℕ → SignedBlock) (top : ℕ) : Type 1 where
  pub Holds : Chain → ℕ → Type 0
  pub head_id : (c : Chain) (n : ℕ) → Holds c n → blocks.head_block_id c ≡ (main n).id
  pub head : (c : Chain) (n : ℕ) → Holds c n → (view c).head_block_num ≡ n
  pub undo : (c : Chain) (n : ℕ) → Holds c n → (view c).last_non_undoable_block_num ≤ n
  pub serves : (c : Chain) (n : ℕ) → Holds c n → Serves (view c) (λ m. (main m).id)
  pub known :
      (c : Chain) (n m : ℕ)
      → Holds c n
      → 1 ≤ m
      → m ≤ top
      → (view c).is_known_block (main m).id ≡ leb m n
  pub push :
      (c : Chain) (n : ℕ)
      → Holds c n
      → n < top
      → (after : Chain) × (blocks.push_block (main (n + 1)) c ≡ (ok tt, after))
        × Holds after (n + 1)

module _ {Chain : Type 0} (blocks : BlockChain Chain) (view : Chain → Database)
    (main : ℕ → SignedBlock) (theirs : Database)
    (grows : Grows blocks view main theirs.head_block_num)
    (linked : (n : ℕ)
      → 1 ≤ n
      → n < theirs.head_block_num
      → (main (n + 1)).previous ≡ (main n).id) where
  pub receive_next :
      (c : Chain) (n : ℕ)
      → grows.Holds c n
      → 1 ≤ n
      → n < theirs.head_block_num
      → (after : Chain) × (on_block_received blocks (main (n + 1)) c ≡ (ok tt, after))
        × grows.Holds after (n + 1)
  unfolding on_block_received push_checked
  receive_next c n h a b =
      let (after, e, h') = grows.push c n h b in
      (
        after,
        ground (arith, e, linked n a b, grows.head_id c n h, grows.head_id after (n + 1) h'),
        h',
      )

  module _ {W : Type 0} (around : Surroundings W) (chain_of : W → Chain)
      (slot : (b : SignedBlock) (w : W) (r : Result (Unit {0})) (c : Chain)
        → on_block_received blocks b (chain_of w) ≡ (r, c)
        → (after : W) × (around.block_received b w ≡ (r, after)) × (chain_of after ≡ c))
      (k : Knows theirs (λ m. (main m).id))
      (fetched : (n : ℕ)
        → 1 ≤ n
        → n ≤ theirs.head_block_num
        → theirs.fetch_block_by_id (main n).id ≡ some (main n)) where
    abbrev reads : W → Database
    reads w = view (chain_of w)

    abbrev HoldsAt : P2pHandler W → ℕ → Type 0
    HoldsAt h n = grows.Holds (chain_of h.world) n

    -- The call ends well, at this height.
    abbrev Reaches : Action (P2pHandler W) (Unit {0}) → P2pHandler W → ℕ → Type 0
    Reaches m h n =
        (after : P2pHandler W) × (m h ≡ (ok tt, after))
        × (after.syncing ≡ h.syncing)
        × HoldsAt after n

    fetch_next :
        (h : P2pHandler W) (n : ℕ)
        → HoldsAt h n
        → 1 ≤ n
        → n < theirs.head_block_num
        → Reaches (fetch_block around reads theirs (main (n + 1)).id) h (n + 1)
    unfolding fetch_block take_message has_item get_item handle_block
    fetch_next h n held a b =
        let (c, e, held') = receive_next (chain_of h.world) n held a b in
        let (w, s, same) = slot (main (n + 1)) h.world (ok tt) c e in
        (
          record h { world = w },
          ground (
            arith,
            s,
            grows.known (chain_of h.world) n (n + 1) held (omega arith) (omega arith),
            fetched (n + 1) (omega arith) (omega arith),
          ),
          refl,
          subst (λ x. grows.Holds x (n + 1)) (sym same) held',
        )

    fetch_known :
        (h : P2pHandler W) (n m : ℕ)
        → HoldsAt h n
        → 1 ≤ m
        → m ≤ n
        → m ≤ theirs.head_block_num
        → fetch_block around reads theirs (main m).id h ≡ (ok tt, h)
    unfolding fetch_block has_item
    fetch_known h n m held a b c = ground (arith, grows.known (chain_of h.world) n m held a c)

    abbrev ids_from : ℕ → ℕ → List Hash
    ids_from start count = map (λ m. (main m).id) (span start count)

    -- One call after another.
    Reaches-then :
        (m rest : Action (P2pHandler W) (Unit {0})) (h : P2pHandler W) (n top : ℕ)
        → Reaches m h n
        → ((after : P2pHandler W) → HoldsAt after n → Reaches rest after top)
        → Reaches (m >> rest) h top
    Reaches-then m rest h n top (after, e, same, held) f =
        let (last, e', same', held') = f after held in
        (last, ground (arith, e, e'), same' ∙ same, held')

    fetch_one :
        (h : P2pHandler W) (n m : ℕ)
        → HoldsAt h n
        → 1 ≤ n
        → 1 ≤ m
        → m ≤ n + 1
        → m ≤ theirs.head_block_num
        → Reaches (fetch_block around reads theirs (main m).id) h (max n m)
    fetch_one h n m held a b c d = elim (dec_lt n m) [
      | yes next ↦
          let is_next : n + 1 ≡ m = omega arith in
          let highest : n + 1 ≡ max n m = omega arith in
          let (after, e, same, held') = fetch_next h n held a (omega arith) in
          (
            after,
            subst (λ j. fetch_block around reads theirs (main j).id h ≡ (ok tt, after)) is_next e,
            same,
            subst (HoldsAt after) highest held',
          )
      | no old ↦
          (h, fetch_known h n m held b (omega arith) d, refl, subst (HoldsAt h) (omega arith) held)
    ]

    fetch_span :
        (count start : ℕ) (h : P2pHandler W) (n : ℕ)
        → HoldsAt h n
        → 1 ≤ n
        → 1 ≤ start
        → start ≤ n + 1
        → start + count ≤ theirs.head_block_num + 1
        → Reaches
            (fetch_blocks around reads theirs (ids_from start count))
            h
            (max n (start + count - 1))
    unfolding fetch_blocks
    fetch_span zero start h n held a b c d = (h, refl, refl, subst (HoldsAt h) (omega arith) held)
    fetch_span (suc count) start h n held a b c d =
        Reaches-then (fetch_block around reads theirs (main start).id)
          (fetch_blocks around reads theirs (ids_from (start + 1) count)) h (max n start)
          (max n (start + suc count - 1)) (fetch_one h n start held a b c (omega arith))
          (λ after held'.
            let (last, e, same, held'') =
              fetch_span count (start + 1) after (max n start) held' (omega arith) (omega arith)
                (omega arith) (omega arith) in
            (last, e, same, subst (HoldsAt last) (omega arith) held''))

    pub sync_round-Reaches :
        (h : P2pHandler W) (n limit : ℕ)
        → HoldsAt h n
        → 1 ≤ n
        → n ≤ theirs.head_block_num
        → 1 ≤ limit
        → Reaches
            (sync_round around reads theirs limit)
            h
            (min theirs.head_block_num (n + (limit - 1)))
    unfolding sync_round
    sync_round-Reaches h n limit held a b o =
        let c = chain_of h.world in
        let top = grows.head c n held in
        let answer =
          exchange_lem (λ m. (main m).id) theirs k limit (view c) (grows.serves c n held)
            (omega (arith, top)) (omega (arith, top)) (omega (arith, top, grows.undo c n held)) o in
        let (last, e, same, held') =
          fetch_span (min limit (theirs.head_block_num + 1 - n)) n h n held a a (omega arith)
            (omega arith) in
        (last, ground (arith, answer, top, e), same, subst (HoldsAt last) (omega arith) held')

    pub sync_rounds-Reaches :
        (rounds limit : ℕ) (h : P2pHandler W) (n : ℕ)
        → HoldsAt h n
        → 1 ≤ n
        → n ≤ theirs.head_block_num
        → 1 ≤ limit
        → Reaches
            (sync_rounds around reads theirs rounds limit)
            h
            (min theirs.head_block_num (n + rounds * (limit - 1)))
    unfolding sync_rounds
    sync_rounds-Reaches zero limit h n held a b o =
        (h, refl, refl, subst (HoldsAt h) (omega arith) held)
    sync_rounds-Reaches (suc rounds) limit h n held a b o =
        Reaches-then (sync_round around reads theirs limit)
          (sync_rounds around reads theirs rounds limit) h
          (min theirs.head_block_num (n + (limit - 1)))
          (min theirs.head_block_num (n + suc rounds * (limit - 1)))
          (sync_round-Reaches h n limit held a b o)
          (λ after held'.
            let (last, e, same, held'') =
              sync_rounds-Reaches rounds limit after (min theirs.head_block_num (n + (limit - 1)))
                held' (omega arith) (omega arith) o in
            (
              last,
              e,
              same,
              subst (HoldsAt last) (omega (arith, suc-mul rounds (limit - 1))) held'',
            ))
