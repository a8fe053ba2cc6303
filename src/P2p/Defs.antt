-- ===== src/P2p/Defs.antt =====
-- The chain database and the messages, as Modules/P2pHandler.cpp reads them. The database is
-- code of graphene: a record of what its operations answer, which the handlers only read.
use peerplays_contract_node.Prelude.{ℕ, Bool, List, [], ◌∷◌, Option, Result}

-- A `ripemd160` is its 160-bit number; the default-constructed one is zero.
abbrev pub Hash : Type 0
Hash = ℕ

-- What the handlers read of a transaction: `trx.id()` and the id of the message that carries it.
pub record SignedTransaction : Type 0 where
  pub id : Hash
  pub message_id : Hash

pub record SignedBlock : Type 0 where
  pub id : Hash
  pub previous : Hash
  pub timestamp : ℕ
  pub transactions : List SignedTransaction

pub record Database : Type 0 where
  pub head_block_num : ℕ
  pub head_block_id : Hash
  pub last_non_undoable_block_num : ℕ
  pub num_from_id : Hash → ℕ
  pub get_block_id_for_num : ℕ → Result Hash
  pub is_known_block : Hash → Bool
  pub is_known_transaction : Hash → Bool
  pub fetch_block_by_id : Hash → Option SignedBlock
  pub get_recent_transaction : Hash → Result SignedTransaction
  pub get_block_ids_on_fork : Hash → Result (List Hash)
  pub get_chain_id : Hash
  pub block_interval : ℕ

-- `front`, `back` and `pop_back` of a vector that is not empty: on an empty one C++ leaves them
-- undefined, and the handlers do not call them there.
abbrev pub front : List Hash → Hash
front [] = 0
front (id ∷ ids) = id

unfoldable pub back : List Hash → Hash
back [] = 0
back (id ∷ []) = id
back (id ∷ jd ∷ ids) = back (jd ∷ ids)

unfoldable pub pop_back : List Hash → List Hash
pop_back [] = []
pop_back (id ∷ []) = []
pop_back (id ∷ jd ∷ ids) = id ∷ pop_back (jd ∷ ids)
