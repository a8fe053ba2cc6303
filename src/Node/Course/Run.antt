-- ===== src/Node/Course/Run.antt =====
-- `initializeBlockchain` and `run`: from the start of the program to the wait for its exit.
use mathlib.Core.Option.{none, some}
use peerplays_contract_node.Prelude.{
  ℕ, ◌≡◌, refl, Bool, true, false, Option, String, Result, ok, fail, Reason, fc_exception, arith,
}
use peerplays_contract_node.Prelude.Actions.{Action, pure, gets, ◌>>=◌, ◌>>◌}
use peerplays_contract_node.P2p.Defs.{Hash, Database}
use peerplays_contract_node.P2p.Handler.{
  ItemId, Surroundings, P2pHandler, outside, connect_to_seeds, start_sync_from,
}
use peerplays_contract_node.Chain.Records.{Persistence, ChainHandler}
use peerplays_contract_node.Chain.Genesis.{initialize, open_chain}
use peerplays_contract_node.Chain.Monitor.{Tables}
use peerplays_contract_node.Node.Defs.{Host, Node, is_fc_exception}
use peerplays_contract_node.Node.Plugins.{on_chain}
use peerplays_contract_node.Node.Plugins.Found.{initialize_found}
use peerplays_contract_node.Node.Blocks.{BlockChain, on_block_received}

-- What the program calls of graphene: the opening of the two databases, what the slot and the P2P
-- handler ask of the chain database, and the P2P node.
pub record Outside (Store Chain Net : Type 0) : Type 0 where
  pub open_store : Action Store (Unit {0})
  pub open_database : Action Chain (Unit {0})
  pub blocks : BlockChain Chain
  pub reads : Chain → Database
  pub listen : Action Net (Unit {0})
  pub connect : Action Net (Unit {0})
  pub sync_from : ItemId → Action Net (Unit {0})

-- `catch (const fc::exception&)` with `return 1`; `none` is the way on.
abbrev exit_of_failure : Result (Unit {0}) → Result (Option ℕ)
exit_of_failure (ok u) = ok none
exit_of_failure (fail e) = elim (is_fc_exception e) [ true ↦ ok (some 1) | false ↦ fail e ]

-- The conversion of `waitForExit`'s `bool` to the exit status.
abbrev pub exit_status : Bool → ℕ
exit_status true = 1
exit_status false = 0

module _ (p : Persistence) {Chain O Net : Type 0} (tables : Tables Chain) (host : Host Chain)
    (around : Outside p.Store Chain Net) (program_path : String) where
  -- Calls on parts of the node.
  abbrev pub on_store_and_chain :
      {A : Type 0} → Action (ChainHandler p.Store Chain) A → Action (Node p.Store Chain O Net) A
  on_store_and_chain m n = let (r, h) = m n.handler in (r, record n { handler = h })

  abbrev on_net : {A : Type 0} → Action Net A → Action (Node p.Store Chain O Net) A
  on_net m n = let (r, w) = m n.net in (r, record n { net = w })

  -- The chain handler exists by now: `run` makes it before the call.
  unfoldable pub initialize_blockchain : Action (Node p.Store Chain O Net) (Unit {0})
  initialize_blockchain = do
    on_store_and_chain (initialize around.open_store)
    initialize_found p tables host program_path

  unfoldable pub start_chain : Action (Node p.Store Chain O Net) (Unit {0})
  start_chain = do initialize_blockchain; on_store_and_chain (open_chain around.open_database)

  -- The slots that `run` connects, and the P2P node; no slot is connected to `syncFinished`.
  abbrev pub connected_slots : Surroundings (Node p.Store Chain O Net)
  connected_slots = record {
    block_received = λ b. on_store_and_chain (on_chain (on_block_received around.blocks b));
    transaction_received = λ t n. (ok tt, n);
    sync_finished = λ n. (ok tt, n);
    sync_from = λ i. on_net (around.sync_from i);
    listen_to_p2p_network = on_net around.listen;
    connect_to_p2p_network = on_net around.connect;
  }

  abbrev head_of : Node p.Store Chain O Net → Hash
  head_of n = around.blocks.head_block_id n.handler.chain

  unfoldable pub start_p2p : Action (P2pHandler (Node p.Store Chain O Net)) (Unit {0})
  start_p2p = do
    connect_to_seeds connected_slots
    head ← gets (λ h. head_of h.world)
    start_sync_from connected_slots head

  abbrev attempt :
      Action (P2pHandler (Node p.Store Chain O Net)) (Unit {0})
      → Action (P2pHandler (Node p.Store Chain O Net)) (Option ℕ)
  attempt m h = let (r, after) = m h in (exit_of_failure r, after)

  -- The result is the exit status; `wait` is `waitForExit`.
  unfoldable pub run :
      Action (P2pHandler (Node p.Store Chain O Net)) Bool
      → Action (P2pHandler (Node p.Store Chain O Net)) ℕ
  run wait = do
    first ← attempt (outside start_chain)
    elim first [
      | some status ↦ pure status
      | none ↦ do
        second ← attempt start_p2p
        elim second [
          | some status ↦ pure status
          | none ↦ do with_error ← wait; pure (exit_status with_error)
        ]
    ]

  -- When the P2P part has started, the handler is syncing, and only the P2P node has changed.
  pub start_p2p_syncs :
      (h after : P2pHandler (Node p.Store Chain O Net))
      → start_p2p h ≡ (ok tt, after)
      → (after.syncing ≡ true) × (record (after.world) { net = h.world.net } ≡ h.world)
  unfolding start_p2p connect_to_seeds start_sync_from
  start_p2p_syncs h after e = ground arith

  -- The ways in which `run` can come to an exit status and a last state.
  pub data Course (wait : Action (P2pHandler (Node p.Store Chain O Net)) Bool)
      (h : P2pHandler (Node p.Store Chain O Net)) (status : ℕ)
      (last : P2pHandler (Node p.Store Chain O Net)) : Type 0 where
    chain_failed :
        (r : Reason) (n : Node p.Store Chain O Net)
        → start_chain h.world ≡ (fail (fc_exception r), n)
        → status ≡ 1
        → last ≡ record h { world = n }
        → Course wait h status last
    p2p_failed :
        (r : Reason) (n : Node p.Store Chain O Net)
        → start_chain h.world ≡ (ok tt, n)
        → start_p2p (record h { world = n }) ≡ (fail (fc_exception r), last)
        → status ≡ 1
        → Course wait h status last
    waited :
        (n : Node p.Store Chain O Net) (after : P2pHandler (Node p.Store Chain O Net))
        (with_error : Bool)
        → start_chain h.world ≡ (ok tt, n)
        → start_p2p (record h { world = n }) ≡ (ok tt, after)
        → after.syncing ≡ true
        → wait after ≡ (ok with_error, last)
        → status ≡ exit_status with_error
        → Course wait h status last

  -- A status that `run` comes to is 1 because the chain did not start for an exception of
  -- graphene's, and then the P2P part was not tried; or 1 because the P2P part did not start for
  -- one; or the answer of the wait for the exit, which began with both started and the handler
  -- syncing.
  pub run-Course :
      (wait : Action (P2pHandler (Node p.Store Chain O Net)) Bool)
      (h last : P2pHandler (Node p.Store Chain O Net)) (status : ℕ)
      → run wait h ≡ (ok status, last)
      → Course wait h status last
  unfolding run
  run-Course wait h last status e = first (start_chain h.world).0 (start_chain h.world).1 refl
    where
      third :
          (n : Node p.Store Chain O Net) (after : P2pHandler (Node p.Store Chain O Net))
          → start_chain h.world ≡ (ok tt, n)
          → start_p2p (record h { world = n }) ≡ (ok tt, after)
          → (r : Result Bool) (end : P2pHandler (Node p.Store Chain O Net)) → wait after ≡ (r, end)
          → Course wait h status last
      third n after a b (ok with_error) end w =
          waited n after with_error a b (start_p2p_syncs _ after b).0 (ground arith) (ground arith)
      third n after a b (fail f) end w = absurd (ground arith)

      second :
          (n : Node p.Store Chain O Net)
          → start_chain h.world ≡ (ok tt, n)
          → (r : Result (Unit {0})) (after : P2pHandler (Node p.Store Chain O Net))
          → start_p2p (record h { world = n }) ≡ (r, after)
          → Course wait h status last
      second n a (ok tt) after b = third n after a b (wait after).0 (wait after).1 refl
      second n a (fail (fc_exception r)) after b = p2p_failed r n a (ground arith) (ground arith)
      second n a (fail f) after b = absurd (ground arith)

      first :
          (r : Result (Unit {0})) (n : Node p.Store Chain O Net)
          → start_chain h.world ≡ (r, n)
          → Course wait h status last
      first (ok tt) n a =
          second n a (start_p2p (record h { world = n })).0 (start_p2p (record h { world = n })).1
            refl
      first (fail (fc_exception r)) n a = chain_failed r n a (ground arith) (ground arith)
      first (fail f) n a = absurd (ground arith)
