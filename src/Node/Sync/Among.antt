-- ===== src/Node/Sync/Among.antt =====
-- The rounds of requests to one peer, while other peers call the delegate as well.
pub mod Calls
mod Tests
use peerplays_contract_node.Prelude.{
  ℕ, ◌+◌, ◌-◌, ◌*◌, ◌≤◌, ◌<◌, ◌≡◌, ◌≢◌, refl, sym, subst, ap, ◌∙◌, inl, inr, ◌⊎◌, min, List, [],
  ◌∷◌, String, Result, ok, fail, Reason, fc_exception, arith, some, All, dec_lt, ==_iff, ◌==◌, true,
  false, Bool-cases, length,
}
use native.Mathlib.Nat.{suc-mul}
use peerplays_contract_node.Prelude.Actions.{Action, ◌>>◌}
use peerplays_contract_node.P2p.Defs.{Hash, SignedBlock, Database}
use peerplays_contract_node.P2p.Exchange.{Knows}
use peerplays_contract_node.P2p.Handler.{P2pHandler, Surroundings, handle_transaction}
use peerplays_contract_node.P2p.Handler.Calls.{Call, answer, answer-relates, blocks_of}
use peerplays_contract_node.Chain.Records.{Persistence}
use peerplays_contract_node.Chain.Monitor.{Tables}
use peerplays_contract_node.Node.Defs.{Host, Node}
use peerplays_contract_node.Node.Blocks.{BlockChain, push_checked, on_block_received}
use peerplays_contract_node.Node.Course.Run.{Outside, connected_slots}
use peerplays_contract_node.Node.Sync.{sync_round}
use peerplays_contract_node.Node.Sync.Rounds.{Grows, receive_next, sync_round-Reaches}
use peerplays_contract_node.Node.Sync.Connected.{connected_slot}
use peerplays_contract_node.Node.Life.Reached.{handle_block-world}

module _ {W : Type 0} (around : Surroundings W) (view : W → Database) where
  -- The P2P node catches what the delegate throws.
  unfoldable pub take_calls : List Call → P2pHandler W → P2pHandler W
  take_calls [] h = h
  take_calls (c ∷ calls) h = take_calls calls (answer around view c h).1

  -- Before each round come the calls of that round.
  unfoldable pub sync_among : Database → List (List Call) → ℕ → Action (P2pHandler W) (Unit {0})
  sync_among theirs [] limit h = (ok tt, h)
  sync_among theirs (calls ∷ more) limit h =
      (sync_round around view theirs limit >> sync_among theirs more limit) (take_calls calls h)

module _ {Chain : Type 0} (blocks : BlockChain Chain) (view : Chain → Database)
    (main : ℕ → SignedBlock) (theirs : Database)
    (grows : Grows blocks view main theirs.head_block_num) where
  -- A block that the chain database refuses on every block of the main chain that is its head.
  abbrev pub Refused : SignedBlock → Type 0
  Refused b =
      (c : Chain) (n : ℕ)
      → grows.Holds c n
      → n ≤ theirs.head_block_num
      → b.previous ≡ (main n).id
      → (r : Reason) × (after : Chain) × (blocks.push_block b c ≡ (fail (fc_exception r), after))
        × grows.Holds after n

  -- A block of the main chain behind its first, or a refused one.
  abbrev pub Expected : SignedBlock → Type 0
  Expected b = ((m : ℕ) × (1 ≤ m) × (m < theirs.head_block_num) × (b ≡ main (m + 1))) ⊎ Refused b

  abbrev pub AreExpected : List SignedBlock → Type 0
  AreExpected = All Expected

  -- A chain that holds more of the blocks, or as many.
  abbrev pub HoldsFrom : ℕ → Chain → Type 0
  HoldsFrom n c = (m : ℕ) × (n ≤ m) × (m ≤ theirs.head_block_num) × grows.Holds c m

  module _
      (linked : (n : ℕ) → 1 ≤ n → n < theirs.head_block_num → (main (n + 1)).previous ≡ (main n).id)
      (k : Knows theirs (λ m. (main m).id)) where
    ids_differ :
        (m n : ℕ)
        → 1 ≤ m
        → m ≤ theirs.head_block_num
        → 1 ≤ n
        → n ≤ theirs.head_block_num
        → (main m).id ≡ (main n).id
        → m ≡ n
    ids_differ m n a b c d e =
        sym (k.serves.numbered m a b) ∙ ap theirs.num_from_id e ∙ k.serves.numbered n c d

    -- A block that is not on the head is ignored.
    HoldsFrom-ignored :
        (b : SignedBlock) (c : Chain) (n : ℕ)
        → (b.previous == blocks.head_block_id c) ≡ false
        → grows.Holds c n
        → n ≤ theirs.head_block_num
        → HoldsFrom n (on_block_received blocks b c).1
    unfolding on_block_received
    HoldsFrom-ignored b c n off h top =
        subst (HoldsFrom n) (ground (arith, off)) (n, omega arith, top, h)

    on_head :
        (b : SignedBlock) (c : Chain) (n : ℕ)
        → (b.previous == blocks.head_block_id c) ≡ true
        → grows.Holds c n
        → b.previous ≡ (main n).id
    on_head b c n on h = (==_iff b.previous (blocks.head_block_id c)).0 on ∙ grows.head_id c n h

    receive-Refused :
        (b : SignedBlock) (c : Chain) (n : ℕ)
        → Refused b
        → (b.previous == blocks.head_block_id c) ≡ true
        → grows.Holds c n
        → n ≤ theirs.head_block_num
        → HoldsFrom n (on_block_received blocks b c).1
    unfolding on_block_received push_checked
    receive-Refused b c n refused on h top =
        let (r, after, e, h') = refused c n h top (on_head b c n on h) in
        let left : after ≡ (on_block_received blocks b c).1 = ground (arith, on, e) in
        subst (HoldsFrom n) left (n, omega arith, top, h')

    receive_main :
        (b : SignedBlock) (c : Chain) (n m : ℕ)
        → 1 ≤ m
        → m < theirs.head_block_num
        → b ≡ main (m + 1)
        → (b.previous == blocks.head_block_id c) ≡ true
        → grows.Holds c n
        → 1 ≤ n
        → n ≤ theirs.head_block_num
        → HoldsFrom n (on_block_received blocks b c).1
    receive_main b c n m a d e on h one top =
        let below : (main m).id ≡ (main n).id =
          sym (linked m a d) ∙ ap (λ x. x.previous) (sym e) ∙ on_head b c n on h in
        let here : m ≡ n = ids_differ m n a (omega arith) one top below in
        let (after, received, h') =
          receive_next blocks view main theirs grows linked c n h one (omega (arith, here)) in
        let same : main (n + 1) ≡ b = ap (λ j. main (j + 1)) (sym here) ∙ sym e in
        let left : after ≡ (on_block_received blocks b c).1 =
          ap (λ x. x.1) (sym received) ∙ ap (λ x. (on_block_received blocks x c).1) same in
        subst (HoldsFrom n) left (n + 1, omega arith, omega (arith, here), h')

    pub receive-Expected :
        (b : SignedBlock) (c : Chain) (n : ℕ)
        → Expected b
        → grows.Holds c n
        → 1 ≤ n
        → n ≤ theirs.head_block_num
        → HoldsFrom n (on_block_received blocks b c).1
    receive-Expected b c n expected h one top =
        elim (Bool-cases (b.previous == blocks.head_block_id c)) [
          | inr off ↦ HoldsFrom-ignored b c n off h top
          | inl on ↦ elim expected [
            | inl (m, a, d, e) ↦ receive_main b c n m a d e on h one top
            | inr refused ↦ receive-Refused b c n refused on h top
          ]
        ]
