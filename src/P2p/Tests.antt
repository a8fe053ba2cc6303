-- ===== src/P2p/Tests.antt =====
-- A chain of five blocks with a fork of two after block 2, and the theorems at it.
use peerplays_contract_node.Prelude.{
  Option, none, Failure, fc_assert, ◌==◌, map, span, min, ◌/◌, inr, ℕ, ◌+◌, ◌-◌, ◌*◌, ◌%◌, ◌^◌, ◌≡◌,
  refl, true, false, List, [], ◌∷◌, some, ok, fail, fc_exception, out_of_fuel,
  peer_is_on_an_unreachable_fork, arith, ltb, leb, if◌then◌else◌, assert_failed, ◌≢◌, ◌<◌, ◌≤◌,
  length, subst,
}
use peerplays_contract_node.P2p.Defs.{
  Hash, SignedTransaction, SignedBlock, Database, back, pop_back,
}
use peerplays_contract_node.P2p.BlockIds.{
  last_known_block, get_block_ids, means_no_blocks, find_shared, is_shared, block_is_in_our_chain,
  fill, remaining,
}
use peerplays_contract_node.P2p.BlockIds.Fill.{Serves, get_block_ids_consecutive}
use peerplays_contract_node.P2p.BlockIds.Search.{IsForeign}
use peerplays_contract_node.P2p.Synopsis.{
  Range, climb, synopsis_range, fork_range, synopsis_of_range, id_in_range, next_low,
  get_blockchain_synopsis,
}
use peerplays_contract_node.P2p.Ends.{Bounded}
use peerplays_contract_node.P2p.BlockIds.Ends.{get_block_ids-Ends}
use peerplays_contract_node.P2p.Synopsis.Ends.{get_blockchain_synopsis-Ends}
use peerplays_contract_node.P2p.Synopsis.Ladder.{climb-out_of_fuel}
use peerplays_contract_node.P2p.Synopsis.Chains.{Reports, whole_chain_synopsis}
use peerplays_contract_node.P2p.Synopsis.Forks.{id_on_branch, fork_synopsis}
use peerplays_contract_node.P2p.Exchange.{Knows, exchange}
use peerplays_contract_node.P2p.Exchange.Forked.{exchange_forked}
use peerplays_contract_node.P2p.Handler.{block_message_type, ItemId}
use peerplays_contract_node.P2p.Handler.Items.{Fetches}
use peerplays_contract_node.P2p.Handler.Sync.{
  Event, block_received, Input, block, handle_all, blocks_of, finishes, input_blocks,
  handle_all_signals, Recorded,
}

abbrev main : ℕ → Hash
main n = n + 100

abbrev trx : SignedTransaction
trx = record { id = 7; message_id = 8 }

-- A block is known under its own id.
abbrev block_of : Hash → SignedBlock
block_of h = record { id = h; previous = 0; timestamp = 3 * h; transactions = trx ∷ [] }

abbrev five : Database
five = record {
  head_block_num = 5;
  head_block_id = 105;
  last_non_undoable_block_num = 1;
  num_from_id = λ h. h % 100;
  get_block_id_for_num = λ n. ok (n + 100);
  is_known_block = λ h. ltb 100 h;
  is_known_transaction = λ h. false;
  fetch_block_by_id = λ h. some (block_of h);
  get_recent_transaction = λ h. fail (fc_exception peer_is_on_an_unreachable_fork);
  get_block_ids_on_fork = λ h. ok (204 ∷ 203 ∷ 102 ∷ []);
  get_chain_id = 1;
  block_interval = 3;
}

five-Serves : Serves five main
five-Serves = record {
  served = λ n a b. refl;
  numbered = λ n a b. omega arith;
  narrow = omega arith;
}

get_block_ids_runs : get_block_ids five (102 ∷ 203 ∷ []) 2 ≡ ok (102 ∷ 103 ∷ [], 2)
unfolding get_block_ids last_known_block means_no_blocks find_shared is_shared block_is_in_our_chain
    fill remaining back
get_block_ids_runs = refl

synopsis_runs : get_blockchain_synopsis five 204 0 ≡ ok (101 ∷ 203 ∷ 204 ∷ [])
unfolding get_blockchain_synopsis synopsis_range block_is_in_our_chain fork_range back pop_back
    synopsis_of_range climb id_in_range next_low
synopsis_runs = refl

last_is_102 : last_known_block five (102 ∷ 203 ∷ []) ≡ ok 102
unfolding last_known_block means_no_blocks find_shared is_shared block_is_in_our_chain
last_is_102 = refl

-- A peer on the fork gets the blocks after the last shared one.
get_block_ids_consecutive_example : get_block_ids five (102 ∷ 203 ∷ []) 2 ≡ ok (102 ∷ 103 ∷ [], 2)
get_block_ids_consecutive_example =
    get_block_ids_consecutive five main five-Serves 2 (102 ∷ 203 ∷ []) 102 last_is_102 (omega arith)

whole_chain_synopsis_example : Reports main 7 5 1 (get_blockchain_synopsis five 0 2)
whole_chain_synopsis_example =
    whole_chain_synopsis five main five-Serves 2 (omega arith) (omega arith) (omega arith)

fork_synopsis_example :
    Reports (id_on_branch main 2 (203 ∷ 204 ∷ [])) 4 4 1 (get_blockchain_synopsis five 204 0)
fork_synopsis_example =
    fork_synopsis five main five-Serves 204 104 102 (203 ∷ []) 2 (omega arith) refl (omega arith)
      refl refl refl 0 (omega arith) (omega arith) (omega arith)

-- Block numbers above the head have no id.
abbrev bounded : Database
bounded = record five {
  get_block_id_for_num = λ n. if leb n 5 then ok (n + 100) else fail assert_failed;
}

bounded_forks :
    (id : Hash) (history : List Hash)
    → ok (204 ∷ 203 ∷ 102 ∷ []) ≡ ok history
    → bounded.num_from_id (back history) + length history + 7 < 2 ^ 32
unfolding back
bounded_forks id history e =
    let same : 204 ∷ 203 ∷ 102 ∷ [] ≡ history = cc in
    subst (λ h. bounded.num_from_id (back h) + length h + 7 < 2 ^ 32) same (omega arith)

bounded-Bounded : Bounded bounded 7
bounded-Bounded = record {
  narrow = omega arith;
  undo = omega arith;
  in_chain = λ n id e. ground arith;
  on_fork = bounded_forks;
  gets = λ n e. ground arith;
  forks = λ id e. cc;
}

get_block_ids-Ends_example : get_block_ids bounded (901 ∷ 102 ∷ []) 1000 ≢ fail out_of_fuel
get_block_ids-Ends_example = get_block_ids-Ends bounded 7 bounded-Bounded (901 ∷ 102 ∷ []) 1000

get_blockchain_synopsis-Ends_example : get_blockchain_synopsis bounded 204 7 ≢ fail out_of_fuel
get_blockchain_synopsis-Ends_example = get_blockchain_synopsis-Ends bounded 7 bounded-Bounded 204

abbrev whole : Range
whole = record { low = 1; high = 5; non_fork_high = 5; fork_history = [] }

climb-out_of_fuel_example : climb five whole (2 ^ 32 - 1) 40 1 [] ≡ fail out_of_fuel
unfolding id_in_range
climb-out_of_fuel_example = climb-out_of_fuel five whole 101 (omega arith) refl 40 []

five-Fetches : Fetches five
five-Fetches = record {
  fetch_known = λ h k. (block_of h, refl, refl);
  recent_known = λ h k. absurd (ground arith);
}

abbrev item : ItemId
item = record { item_type = block_message_type; item_hash = 104 }

abbrev idle : Recorded
idle = record { syncing = true; world = [] }

abbrev inputs : List Input
inputs = block (block_of 101) true ∷ block (block_of 102) false ∷ block (block_of 103) false ∷ []

-- Over block 102 a slot throws.
abbrev throws_once : Event → Option Failure
throws_once (block_received b) = if b.id == 102 then some (fc_exception fc_assert) else none
throws_once e = none

handle_all_signals_example :
    (blocks_of (handle_all throws_once inputs idle).world ≡ input_blocks inputs)
    × (finishes (handle_all throws_once inputs idle).world ≡ 1)
    × ((handle_all throws_once inputs idle).syncing ≡ false)
handle_all_signals_example = handle_all_signals throws_once inputs idle

five-Knows : Knows five main
five-Knows = record {
  serves = five-Serves;
  known = λ n a b. ground arith;
  not_zero = λ n a b. omega arith;
}

-- A chain of four that parts from the five behind block 2.
abbrev forked : ℕ → Hash
forked n = if leb n 2 then n + 100 else n + 200

abbrev four : Database
four = record five { head_block_num = 4; get_block_id_for_num = λ n. ok (forked n) }

four-Serves : Serves four forked
four-Serves = record {
  served = λ n a b. refl;
  numbered = λ n a b. ground arith;
  narrow = omega arith;
}

forked-IsForeign : (n : ℕ) → 2 < n → n ≤ 4 → IsForeign five (forked n)
forked-IsForeign n a b = (ground arith, inr (five.num_from_id (forked n) + 100, refl, ground arith))

exchange_forked_example :
    (n : ℕ) × (1 ≤ n)
    × (n ≤ 2)
    × (2 - n ≤ (4 - n) / 2)
    × (exchange four five 2 ≡ ok (map main (span n (min 2 (6 - n))), 6 - n - 2))
exchange_forked_example =
    exchange_forked forked main four five five-Knows 2 2 four-Serves (λ n a b. ground arith)
      forked-IsForeign (omega arith) (omega arith) (omega arith) (omega arith) (omega arith)
