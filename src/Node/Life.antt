-- ===== src/Node/Life.antt =====
-- The running node: the calls of the P2P node and the signals of the user, in any order, after
-- `ContractNode::run` has come to the wait for the exit.
pub mod Sound
pub mod Keeps
pub mod Calls
pub mod Reached
pub mod Restart
pub mod Tasks
pub mod Exit
pub mod Heads
pub mod Linked
mod Tests
use peerplays_contract_node.Prelude.{ℕ, ◌≡◌, Bool, List, [], ◌∷◌, ok, ◌++◌, String}
use peerplays_contract_node.P2p.Handler.{P2pHandler}
use peerplays_contract_node.P2p.Handler.Calls.{Call, answer}
use peerplays_contract_node.Chain.Records.{Persistence}
use peerplays_contract_node.Chain.Monitor.{Tables}
use peerplays_contract_node.Node.Defs.{Host, Node}
use peerplays_contract_node.Node.Plugins.Found.{initialize_found}
use peerplays_contract_node.Node.Course.Signals.{
  Signal, Task, load_new_plugins, dump_contract_databases, Process, deliver, exit, prepare_wait,
}
use peerplays_contract_node.Node.Course.Run.{Outside, connected_slots, start_chain, start_p2p}

module _ (p : Persistence) (Chain O Net : Type 0) where
  -- The P2P handler has the node as its world.
  pub record Life : Type 0 where
    pub handler : P2pHandler (Node p.Store Chain O Net)
    pub process : Process

module _ (p : Persistence) {Chain O Net : Type 0} (tables : Tables Chain) (host : Host Chain)
    (around : Outside p.Store Chain Net) (program_path : String) where
  -- What the function object of a task leaves of the node: `async` keeps an exception in a future
  -- that nobody reads, and a dump only writes to the log.
  unfoldable pub run_task : Task → Node p.Store Chain O Net → Node p.Store Chain O Net
  run_task load_new_plugins n = (initialize_found p tables host program_path n).1
  run_task dump_contract_databases n = n

  -- The tasks may run in any order. The P2P node catches what the delegate throws.
  pub data Step (s : Life p Chain O Net) : Life p Chain O Net → Type 0 where
    signalled : (g : Signal) → Step s (record s { process = deliver g s.process })
    ran :
        (t : Task) (before after : List Task)
        → s.process.tasks ≡ before ++ t ∷ after
        → Step s (record s {
          handler = record s.handler { world = run_task t s.handler.world };
          process = record s.process { tasks = before ++ after };
        })
    told_to_exit : (with_error : Bool) → Step s (record s { process = exit with_error s.process })
    called :
        (c : Call)
        → Step s (record s {
          handler =
              (answer
                (connected_slots p tables host around program_path)
                (λ n. around.reads n.handler.chain)
                c
                s.handler).1;
        })

  pub data Steps (s : Life p Chain O Net) : Life p Chain O Net → Type 0 where
    none_yet : Steps s s
    and_then : {t u : Life p Chain O Net} → Steps s t → Step t u → Steps s u

  -- The program starts without an exception from this node, and lives on to this state.
  pub data Lived (n : Node p.Store Chain O Net) (t : Life p Chain O Net) : Type 0 where
    lived :
        (h started : P2pHandler (Node p.Store Chain O Net)) (m : Node p.Store Chain O Net)
        (before : Process)
        → start_chain p tables host around program_path n ≡ (ok tt, m)
        → start_p2p p tables host around program_path (record h { world = m }) ≡ (ok tt, started)
        → Steps (record { handler = started; process = prepare_wait before }) t
        → Lived n t

-- Nothing is loaded yet.
pub record IsFresh {Store Chain O Net : Type 0} (n : Node Store Chain O Net) : Type 0 where
  pub no_contracts : n.handler.loaded_contracts ≡ []
  pub no_libraries : n.loaded_libraries ≡ []
  pub no_monitors : n.contract_monitors ≡ []
