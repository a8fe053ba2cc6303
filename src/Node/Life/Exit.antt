-- ===== src/Node/Life/Exit.antt =====
-- main.cpp: from the start of the program to its exit status, and what it leaves on the disk.
use peerplays_contract_node.Prelude.{ℕ, refl, Bool, false, List, [], ◌∷◌, String, Result, ok, fail}
use peerplays_contract_node.Prelude.Actions.{Action, ◌>>◌}
use peerplays_contract_node.P2p.Handler.{P2pHandler}
use peerplays_contract_node.Chain.Records.{Persistence}
use peerplays_contract_node.Chain.Genesis.{Closing, destroy}
use peerplays_contract_node.Chain.Monitor.{Tables, detach}
use peerplays_contract_node.Node.Defs.{Host, ContractMonitor, Node}
use peerplays_contract_node.Node.Course.Signals.{Process}
use peerplays_contract_node.Node.Course.Run.{Outside, run}
use peerplays_contract_node.Node.Life.{Life, IsFresh}

-- The members as they are made: of `ContractNode`, of the `ChainHandler` and of the `P2pHandler`,
-- around the databases and the P2P node that graphene makes.
unfoldable pub new_node :
    {Store Chain O Net : Type 0}
    → String
    → Store
    → Chain
    → Net
    → P2pHandler (Node Store Chain O Net)
new_node base_path store chain net = record {
  syncing = false;
  world = record {
    handler = record {
      base_path = base_path;
      chain = chain;
      persistence = store;
      is_open = false;
      loaded_contracts = [];
    };
    loaded_libraries = [];
    contract_monitors = [];
    net = net;
  };
}

abbrev pub new_process : Process
new_process = record { promised = []; has_signal_set = false; is_waiting = false; tasks = [] }

pub new_node-IsFresh :
    {Store Chain O Net : Type 0} (base_path : String) (store : Store) (chain : Chain) (net : Net)
    → IsFresh (new_node {O = O} base_path store chain net).world
unfolding new_node
new_node-IsFresh base_path store chain net = record {
  no_contracts = refl;
  no_libraries = refl;
  no_monitors = refl;
}

-- The destructors of the monitors.
unfoldable pub end_monitors :
    {Chain O : Type 0} → Tables Chain → List (ContractMonitor O) → Action Chain (Unit {0})
end_monitors tables [] c = (ok tt, c)
end_monitors tables (m ∷ monitors) c =
    (detach tables m.space m.tables >> end_monitors tables monitors) c

module _ (p : Persistence) {Chain O Net : Type 0} (tables : Tables Chain) (host : Host Chain)
    (around : Outside p.Store Chain Net) (program_path : String)
    (closing : Closing p.Store Chain) where
  -- The node is a temporary: it is destroyed when the status is there, its monitors before its
  -- `ChainHandler`. The second part is the databases. An exception that nothing catches, or that
  -- leaves a destructor, ends the program as it is.
  abbrev ended : Result ℕ → P2pHandler (Node p.Store Chain O Net) → Result ℕ × (p.Store × Chain)
  ended (ok status) last =
      let h = last.world.handler in
      let (r, left) = end_monitors tables last.world.contract_monitors h.chain in
      elim r [
        | ok u ↦ (ok status, destroy closing (record h { chain = left }))
        | fail e ↦ (fail e, (h.persistence, left))
      ]
  ended (fail e) last = (fail e, (last.world.handler.persistence, last.world.handler.chain))

  -- `wait` is `waitForExit`.
  unfoldable pub main :
      Action (P2pHandler (Node p.Store Chain O Net)) Bool
      → String
      → p.Store
      → Chain
      → Net
      → Result ℕ × (p.Store × Chain)
  main wait base_path store chain net =
      let (status, last) =
        run p tables host around program_path wait (new_node base_path store chain net) in
      ended status last
