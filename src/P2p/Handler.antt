-- ===== src/P2p/Handler.antt =====
-- The rest of `NodeInterface` and `P2pHandler` of Modules/P2pHandler.cpp: items, messages, the
-- signals and the `syncing` flag.
pub mod Sync
pub mod Items
pub mod Calls
use mathlib.Core.Option
use peerplays_contract_node.Prelude.{
  ℕ, Bool, true, false, not, ◌&&◌, List, map, Option, none, some, Result, ok, fail, fc_exception,
  fc_assert,
}
use peerplays_contract_node.Prelude.Actions.{Action, pure, throw, gets, ◌>>=◌, ◌>>◌, modify, when}
use peerplays_contract_node.P2p.Defs.{Hash, SignedTransaction, SignedBlock, Database}

-- `item_type` is compared with the two types that the handlers know.
pub data ItemType : Type 0 where
  block_message_type trx_message_type : ItemType
  unknown_type : ℕ → ItemType

pub record ItemId : Type 0 where
  pub item_type : ItemType
  pub item_hash : Hash

pub data Message : Type 0 where
  block_message : SignedBlock → Message
  trx_message : SignedTransaction → Message

abbrev has_item_of_type : Database → ItemType → Hash → Bool
has_item_of_type db block_message_type hash = db.is_known_block hash
has_item_of_type db trx_message_type hash = db.is_known_transaction hash
has_item_of_type db (unknown_type t) hash = false

unfoldable pub has_item : Database → ItemId → Bool
has_item db id = has_item_of_type db id.item_type id.item_hash

-- `FC_ASSERT(found)`.
abbrev found_block : Option SignedBlock → Result Message
found_block none = fail (fc_exception fc_assert)
found_block (some block) = ok (block_message block)

abbrev found_transaction : Result SignedTransaction → Result Message
found_transaction (ok trx) = ok (trx_message trx)
found_transaction (fail e) = fail e

abbrev get_item_of_type : Database → ItemType → Hash → Result Message
get_item_of_type db block_message_type hash = found_block (db.fetch_block_by_id hash)
get_item_of_type db trx_message_type hash = found_transaction (db.get_recent_transaction hash)
get_item_of_type db (unknown_type t) hash = fail (fc_exception fc_assert)

unfoldable pub get_item : Database → ItemId → Result Message
get_item db id = get_item_of_type db id.item_type id.item_hash

unfoldable pub get_block_number : Database → Hash → ℕ
get_block_number db id = db.num_from_id id

-- `none` stands for `fc::time_point::min()`, a value of the library.
unfoldable pub get_block_time : Database → Hash → Option ℕ
get_block_time db id = Option.map (λ b. b.timestamp) (db.fetch_block_by_id id)

pub estimate_last_known_fork_from_git_revision_timestamp : ℕ → ℕ
estimate_last_known_fork_from_git_revision_timestamp timestamp = 0

-- The slots that are connected to the three signals, and the calls of `Net::node`, each on what
-- it can change.
pub record Surroundings (W : Type 0) : Type 0 where
  pub block_received : SignedBlock → Action W (Unit {0})
  pub transaction_received : SignedTransaction → Action W (Unit {0})
  pub sync_finished : Action W (Unit {0})
  pub sync_from : ItemId → Action W (Unit {0})
  pub listen_to_p2p_network : Action W (Unit {0})
  pub connect_to_p2p_network : Action W (Unit {0})

pub record P2pHandler (W : Type 0) : Type 0 where
  pub syncing : Bool
  pub world : W

module _ {W : Type 0} where
  -- A call outside, from a method of the handler.
  abbrev pub outside : {A : Type 0} → Action W A → Action (P2pHandler W) A
  outside m h = let (r, w) = m h.world in (r, record h { world = w })

  abbrev pub set_syncing : Bool → Action (P2pHandler W) (Unit {0})
  set_syncing b = modify (λ h. record h { syncing = b })

  module _ (around : Surroundings W) where
    open around use {
      block_received, transaction_received, sync_finished, sync_from, listen_to_p2p_network,
      connect_to_p2p_network,
    }

    -- The result, and the contained message ids.
    unfoldable pub handle_block : SignedBlock → Bool → Action (P2pHandler W) (Bool × List Hash)
    handle_block block sync_mode = do
      outside (block_received block)
      let ids = map (λ (trx : SignedTransaction). trx.message_id) block.transactions
      syncing ← gets (λ h. h.syncing)
      when (not sync_mode && syncing) (do set_syncing false; outside sync_finished)
      pure (false, ids)

    unfoldable pub handle_transaction : SignedTransaction → Action (P2pHandler W) (Unit {0})
    handle_transaction trx = outside (transaction_received trx)

    unfoldable pub start_sync_from : Hash → Action (P2pHandler W) (Unit {0})
    start_sync_from id = do
      outside (sync_from (record { item_type = block_message_type; item_hash = id }))
      set_syncing true

    unfoldable pub connect_to_seeds : Action (P2pHandler W) (Unit {0})
    connect_to_seeds = do outside listen_to_p2p_network; outside connect_to_p2p_network
