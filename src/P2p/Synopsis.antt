-- ===== src/P2p/Synopsis.antt =====
-- `NodeInterface::get_blockchain_synopsis` of Modules/P2pHandler.cpp: a short list of block ids,
-- denser towards the end, from which a peer finds the last block that both know.
pub mod Ladder
pub mod Chains
pub mod Forks
pub mod Ends
use peerplays_contract_node.Prelude.{
  ℕ, zero, suc, ◌+◌, ◌-◌, ◌/◌, ◌%◌, ◌^◌, Bool, true, false, List, [], ◌∷◌, ◌++◌, reverse, length,
  get_elem?, Option, none, some, leb, ltb, ◌==◌, if◌then◌else◌, add32, sub32, Result, ok, fail,
  ◌>>=◌, ◌>>◌, require, fc_exception, assert_failed, undefined_behaviour, out_of_fuel,
  block_older_than_undo_history,
}
use peerplays_contract_node.P2p.Defs.{Hash, Database, front, back, pop_back}
use peerplays_contract_node.P2p.BlockIds.{block_is_in_our_chain}

-- The local variables at the point where the three ways to set them meet.
pub record Range : Type 0 where
  pub low : ℕ
  pub high : ℕ
  pub non_fork_high : ℕ
  pub fork_history : List Hash

-- The reference point is on the main chain.
unfoldable pub main_chain_range : Database → Hash → Result Range
main_chain_range db reference = do
  let num = db.num_from_id reference
  require (ltb 0 num) assert_failed
  ok (record {
    low = if ltb num db.last_non_undoable_block_num then num else db.last_non_undoable_block_num;
    high = num;
    non_fork_high = num;
    fork_history = [];
  })

-- The reference point is on a fork: `get_block_ids_on_fork` answers the ids from the reference
-- point down to the common ancestor with the main chain. The handler logs and throws on.
unfoldable pub fork_range : Database → Hash → Result Range
fork_range db reference = do
  history ← db.get_block_ids_on_fork reference
  require (leb 2 (length history)) assert_failed
  require (front history == reference) assert_failed
  let ancestor = back history
  let branch = reverse (pop_back history)
  let non_fork_high = if ancestor == 0 then 0 else db.num_from_id ancestor
  let high = (non_fork_high + length branch) % 2 ^ 32
  require (high == db.num_from_id (back branch)) assert_failed
  require (leb db.last_non_undoable_block_num non_fork_high)
      (fc_exception block_older_than_undo_history)
  ok (record {
    low = db.last_non_undoable_block_num;
    high = high;
    non_fork_high = non_fork_high;
    fork_history = branch;
  })

-- No reference point: the whole chain, if there is any.
unfoldable pub whole_chain_range : Database → Result (Option Range)
whole_chain_range db =
    if db.head_block_num == 0
    then ok none
    else ok (
        some (record {
          low = db.last_non_undoable_block_num;
          high = db.head_block_num;
          non_fork_high = db.head_block_num;
          fork_history = [];
        }))

unfoldable pub synopsis_range : Database → Hash → Result (Option Range)
synopsis_range db reference =
    let given = do
      ours ← block_is_in_our_chain db reference
      range ← (if ours then main_chain_range db reference else fork_range db reference)
      ok (some range)
    in if reference == 0 then whole_chain_range db else given

-- The id of block `num` on the branch of the reference point.
unfoldable pub id_in_range : Database → Range → ℕ → Result Hash
id_in_range db range num =
    if leb num range.non_fork_high
    then db.get_block_id_for_num num
    else elim (get_elem? range.fork_history (num - range.non_fork_high - 1)) [
      | none ↦ fail undefined_behaviour
      | some id ↦ ok id
    ]

-- `low_block_num += (true_high_block_num - low_block_num + 2) / 2`, in `uint32_t`.
unfoldable pub next_low : ℕ → ℕ → ℕ
next_low true_high low = add32 low (add32 (sub32 true_high low) 2 / 2)

-- The `do … while` loop.
unfoldable pub climb : Database → Range → ℕ → ℕ → ℕ → List Hash → Result (List Hash)
climb db range true_high zero low synopsis = fail out_of_fuel
climb db range true_high (suc fuel) low synopsis = id_in_range db range low >>= λ id.
    elim (leb (next_low true_high low) range.high) [
      | true ↦ climb db range true_high fuel (next_low true_high low) (synopsis ++ id ∷ [])
      | false ↦ ok (synopsis ++ id ∷ [])
    ]

-- Each round at least halves the distance to `true_high`, a number of 32 bits.
abbrev pub climb_fuel : ℕ
climb_fuel = 33

unfoldable pub synopsis_of_range : Database → ℕ → Range → Result (List Hash)
synopsis_of_range db after range =
    climb db range (add32 range.high after) climb_fuel (if range.low == 0 then 1 else range.low) []

unfoldable pub get_blockchain_synopsis : Database → Hash → ℕ → Result (List Hash)
get_blockchain_synopsis db reference after = synopsis_range db reference >>= λ range. elim range [
  | none ↦ ok []
  | some r ↦ synopsis_of_range db after r
]
