-- ===== src/Node/Blocks.antt =====
-- The slot that `ContractNode::run` connects to `blockReceived`.
pub mod Linked
use peerplays_contract_node.Prelude.{
  Bool, true, false, Result, ok, fail, fc_exception, fc_assert, ◌==◌,
}
use peerplays_contract_node.Prelude.Actions.{Action, ◌>>=◌, ◌>>◌, require_state}
use peerplays_contract_node.P2p.Defs.{Hash, SignedBlock}
use peerplays_contract_node.Node.Defs.{is_fc_exception}

-- The chain database, as the slot calls it.
pub record BlockChain (Chain : Type 0) : Type 0 where
  pub head_block_id : Chain → Hash
  pub push_block : SignedBlock → Action Chain (Unit {0})

-- `catch (const fc::exception&)`, which logs.
abbrev pub catch_fc : Result (Unit {0}) → Result (Unit {0})
catch_fc (ok u) = ok u
catch_fc (fail e) = elim (is_fc_exception e) [ true ↦ ok tt | false ↦ fail e ]

module _ {Chain : Type 0} (blocks : BlockChain Chain) where
  -- The body of the `try`.
  unfoldable pub push_checked : SignedBlock → Action Chain (Unit {0})
  push_checked block c =
      (blocks.push_block block >> λ after.
      (require_state (blocks.head_block_id after == block.id) (fc_exception fc_assert)) after)
        c

  unfoldable pub on_block_received : SignedBlock → Action Chain (Unit {0})
  on_block_received block c = elim (block.previous == blocks.head_block_id c) [
    | true ↦ let (r, after) = push_checked block c in (catch_fc r, after)
    | false ↦ (ok tt, c)
  ]
