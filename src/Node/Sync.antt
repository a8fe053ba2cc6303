-- ===== src/Node/Sync.antt =====
-- A node that takes the blocks of another, call by call: the delegate of the P2P node with the slot
-- that `ContractNode::run` connects. The order of the calls is that of graphene's P2P node, which
-- asks for the ids behind its synopsis, and for the items among them that `has_item` denies.
pub mod Rounds
pub mod Connected
pub mod Stuck
pub mod Among
mod Tests
use peerplays_contract_node.Prelude.{
  ℕ, zero, suc, Bool, true, false, List, [], ◌∷◌, Result, ok, fail,
}
use peerplays_contract_node.Prelude.Actions.{Action, ◌>>◌, ◌>>=◌}
use peerplays_contract_node.P2p.Defs.{Hash, SignedBlock, Database}
use peerplays_contract_node.P2p.Handler.{
  block_message_type, ItemId, Message, block_message, trx_message, Surroundings, P2pHandler,
  has_item, get_item, handle_block, handle_transaction,
}
use peerplays_contract_node.P2p.Exchange.{exchange}

-- What the delegate reads of its chain in the state of the program.
module _ {W : Type 0} (around : Surroundings W) (view : W → Database) (theirs : Database) where
  -- A message that comes in during the synchronisation.
  unfoldable pub take_message : Message → Action (P2pHandler W) (Unit {0})
  take_message (block_message b) h =
      let (r, after) = handle_block around b true h in
      elim r [ ok x ↦ (ok tt, after) | fail e ↦ (fail e, after) ]
  take_message (trx_message t) h = handle_transaction around t h

  abbrev block_item : Hash → ItemId
  block_item id = record { item_type = block_message_type; item_hash = id }

  unfoldable pub fetch_block : Hash → Action (P2pHandler W) (Unit {0})
  fetch_block id h = elim (has_item (view h.world) (block_item id)) [
    | true ↦ (ok tt, h)
    | false ↦ elim (get_item theirs (block_item id)) [
      | ok m ↦ take_message m h
      | fail e ↦ (fail e, h)
    ]
  ]

  unfoldable pub fetch_blocks : List Hash → Action (P2pHandler W) (Unit {0})
  fetch_blocks [] h = (ok tt, h)
  fetch_blocks (id ∷ ids) h = (fetch_block id >> fetch_blocks ids) h

  unfoldable pub sync_round : ℕ → Action (P2pHandler W) (Unit {0})
  sync_round limit h = elim (exchange (view h.world) theirs limit) [
    | ok (ids, left) ↦ fetch_blocks ids h
    | fail e ↦ (fail e, h)
  ]

  unfoldable pub sync_rounds : ℕ → ℕ → Action (P2pHandler W) (Unit {0})
  sync_rounds zero limit h = (ok tt, h)
  sync_rounds (suc rounds) limit h = (sync_round limit >> sync_rounds rounds limit) h
