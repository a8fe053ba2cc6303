-- ===== src/P2p/Handler/Calls.antt =====
-- The whole interface `net::node_delegate`, as P2pHandler.cpp implements it: one constructor per
-- method, with its parameters, and one answer to it.
use peerplays_contract_node.Prelude.{ℕ, Bool, List, [], ◌∷◌, Option, Result, ok, fail}
use peerplays_contract_node.Prelude.Actions.{Action, pure, ◌>>=◌, ◌>>◌, bind-holds}
use peerplays_contract_node.P2p.Defs.{Hash, SignedTransaction, SignedBlock, Database}
use peerplays_contract_node.P2p.BlockIds.{get_block_ids}
use peerplays_contract_node.P2p.Synopsis.{get_blockchain_synopsis}
use peerplays_contract_node.P2p.Handler.{
  ItemId, Message, Surroundings, P2pHandler, has_item, get_item, handle_block, handle_transaction,
  get_block_number, get_block_time, estimate_last_known_fork_from_git_revision_timestamp,
}

pub data Call : Type 0 where
  asks_has_item asks_item : ItemId → Call
  brings_block : SignedBlock → Bool → Call
  brings_transaction : SignedTransaction → Call
  brings_message : Call
  asks_block_ids : List Hash → ℕ → Call
  asks_synopsis : Hash → ℕ → Call
  asks_chain_id asks_head_block_id asks_block_interval : Call
  asks_block_number asks_block_time : Hash → Call
  asks_last_known_fork : ℕ → Call
  tells_sync_status : ℕ → ℕ → Call
  tells_connection_count : ℕ → Call
  tells_error : Call

pub data Reply : Type 0 where
  nothing : Reply
  truth : Bool → Reply
  item : Message → Reply
  handled : Bool → List Hash → Reply
  ids_and_remaining : List Hash → ℕ → Reply
  ids : List Hash → Reply
  hash : Hash → Reply
  number : ℕ → Reply
  time : Option ℕ → Reply

-- The block that a call brings, if it brings one.
abbrev pub blocks_of : Call → List SignedBlock
blocks_of (brings_block b sync_mode) = b ∷ []
blocks_of call = []

-- What a method that only reads answers.
unfoldable pub read_call : Database → Call → Result Reply
read_call db (asks_has_item id) = ok (truth (has_item db id))
read_call db (asks_item id) = elim (get_item db id) [ ok m ↦ ok (item m) | fail e ↦ fail e ]
read_call db (brings_block b sync_mode) = ok nothing
read_call db (brings_transaction t) = ok nothing
read_call db brings_message = ok nothing
read_call db (asks_block_ids synopsis limit) = elim (get_block_ids db synopsis limit) [
  | ok (found, left) ↦ ok (ids_and_remaining found left)
  | fail e ↦ fail e
]
read_call db (asks_synopsis reference after) = elim (get_blockchain_synopsis db reference after) [
  | ok found ↦ ok (ids found)
  | fail e ↦ fail e
]
read_call db asks_chain_id = ok (hash db.get_chain_id)
read_call db asks_head_block_id = ok (hash db.head_block_id)
read_call db asks_block_interval = ok (number db.block_interval)
read_call db (asks_block_number id) = ok (number (get_block_number db id))
read_call db (asks_block_time id) = ok (time (get_block_time db id))
read_call db (asks_last_known_fork timestamp) =
    ok (number (estimate_last_known_fork_from_git_revision_timestamp timestamp))
read_call db (tells_sync_status item_type count) = ok nothing
read_call db (tells_connection_count count) = ok nothing
read_call db tells_error = ok nothing

-- `view` is what the handler reads of the chain database, in the state of the program.
module _ {W : Type 0} (around : Surroundings W) (view : W → Database) where
  unfoldable pub answer : Call → Action (P2pHandler W) Reply
  answer (brings_block b sync_mode) h =
      (handle_block around b sync_mode >>= λ (again, contained). pure (handled again contained)) h
  answer (brings_transaction t) h = (handle_transaction around t >> pure nothing) h
  answer call h = (read_call (view h.world) call, h)

  -- What relates the program before and after to the blocks that a call brings.
  pub answer-relates :
      (R : List SignedBlock → W → W → Type 0)
      → ((w : W) → R [] w w)
      → ((b : SignedBlock) (sync_mode : Bool) (h : P2pHandler W)
          → R (b ∷ []) h.world (handle_block around b sync_mode h).1.world)
      → ((t : SignedTransaction) (h : P2pHandler W)
          → R [] h.world (handle_transaction around t h).1.world)
      → (c : Call) (h : P2pHandler W) → R (blocks_of c) h.world (answer c h).1.world
  unfolding answer
  answer-relates R same block trx (brings_block b sync_mode) h =
      bind-holds (λ after. R (b ∷ []) h.world after.world) (handle_block around b sync_mode)
        (λ (again, contained). pure (handled again contained)) h (block b sync_mode h)
        (λ a after l. l)
  answer-relates R same block trx (brings_transaction t) h =
      bind-holds (λ after. R [] h.world after.world) (handle_transaction around t)
        (λ done. pure nothing) h (trx t h) (λ a after l. l)
  answer-relates R same block trx (asks_has_item id) h = same h.world
  answer-relates R same block trx (asks_item id) h = same h.world
  answer-relates R same block trx brings_message h = same h.world
  answer-relates R same block trx (asks_block_ids synopsis limit) h = same h.world
  answer-relates R same block trx (asks_synopsis reference after) h = same h.world
  answer-relates R same block trx asks_chain_id h = same h.world
  answer-relates R same block trx asks_head_block_id h = same h.world
  answer-relates R same block trx asks_block_interval h = same h.world
  answer-relates R same block trx (asks_block_number id) h = same h.world
  answer-relates R same block trx (asks_block_time id) h = same h.world
  answer-relates R same block trx (asks_last_known_fork timestamp) h = same h.world
  answer-relates R same block trx (tells_sync_status item_type count) h = same h.world
  answer-relates R same block trx (tells_connection_count count) h = same h.world
  answer-relates R same block trx tells_error h = same h.world

  -- What blocks and transactions keep of the program, every call keeps.
  pub answer-keeps :
      (P : W → Type 0)
      → ((b : SignedBlock) (sync_mode : Bool) (h : P2pHandler W)
          → P h.world
          → P (handle_block around b sync_mode h).1.world)
      → ((t : SignedTransaction) (h : P2pHandler W)
          → P h.world
          → P (handle_transaction around t h).1.world)
      → (c : Call) (h : P2pHandler W) → P h.world
      → P (answer c h).1.world
  answer-keeps P = answer-relates (λ bs before after. P before → P after) (λ w k. k)
