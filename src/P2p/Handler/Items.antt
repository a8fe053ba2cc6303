-- ===== src/P2p/Handler/Items.antt =====
-- `has_item` and `get_item`: what the node offers it can also deliver.
use peerplays_contract_node.Prelude.{◌≡◌, true, some, ok}
use peerplays_contract_node.P2p.Defs.{Hash, SignedTransaction, SignedBlock, Database}
use peerplays_contract_node.P2p.Handler.{
  ItemType, block_message_type, trx_message_type, unknown_type, ItemId, Message, block_message,
  trx_message, has_item, get_item,
}

-- The database fetches the blocks and the transactions that it says it knows, by their own ids.
pub record Fetches (db : Database) : Type 0 where
  pub fetch_known :
      (h : Hash)
      → db.is_known_block h ≡ true
      → (b : SignedBlock) × (db.fetch_block_by_id h ≡ some b) × (b.id ≡ h)
  pub recent_known :
      (h : Hash)
      → db.is_known_transaction h ≡ true
      → (t : SignedTransaction) × (db.get_recent_transaction h ≡ ok t) × (t.id ≡ h)

-- The id of the item that a message carries.
abbrev pub carried : Message → ItemId
carried (block_message b) = record { item_type = block_message_type; item_hash = b.id }
carried (trx_message t) = record { item_type = trx_message_type; item_hash = t.id }

Delivered : Database → ItemId → Type 0
Delivered db id = (m : Message) × (get_item db id ≡ ok m) × (carried m ≡ id)

deliver_of_type :
    (db : Database) (t : ItemType) (h : Hash)
    → Fetches db
    → has_item db (record { item_type = t; item_hash = h }) ≡ true
    → Delivered db (record { item_type = t; item_hash = h })
unfolding has_item get_item Delivered
deliver_of_type db block_message_type h f known =
    let (b, e, i) = f.fetch_known h known in (block_message b, rw e, rw i)
deliver_of_type db trx_message_type h f known =
    let (t, e, i) = f.recent_known h known in (trx_message t, rw e, rw i)
deliver_of_type db (unknown_type t) h f known = cc

-- On a database that fetches each block and each transaction that it knows (`Fetches`), an item
-- that `has_item` offers is delivered by `get_item`, in a message that carries that item.
pub get_item-has_item :
    (db : Database) (id : ItemId)
    → Fetches db
    → has_item db id ≡ true
    → (m : Message) × (get_item db id ≡ ok m) × (carried m ≡ id)
unfolding Delivered
get_item-has_item db id f known = deliver_of_type db id.item_type id.item_hash f known
