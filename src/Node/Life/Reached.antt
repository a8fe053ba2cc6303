-- ===== src/Node/Life/Reached.antt =====
-- Whatever comes in, and in whatever order.
use peerplays_contract_node.Prelude.{
  ◌≡◌, true, refl, sym, ap, subst, String, Result, ok, fail, arith, Bool,
}
use peerplays_contract_node.Prelude.Actions.{bind-holds}
use peerplays_contract_node.P2p.Defs.{SignedBlock, Database}
use peerplays_contract_node.P2p.Handler.Calls.{answer-keeps}
use peerplays_contract_node.P2p.Handler.{Surroundings, P2pHandler, handle_block, handle_transaction}
use peerplays_contract_node.Chain.Records.{Persistence}
use peerplays_contract_node.Chain.Genesis.{initialize, open_chain}
use peerplays_contract_node.Chain.Monitor.{Tables}
use peerplays_contract_node.Node.Defs.{Host, Node, lookup}
use peerplays_contract_node.Node.Blocks.{on_block_received}
use peerplays_contract_node.Node.Plugins.{on_handler}
use peerplays_contract_node.Node.Plugins.Found.{initialize_found}
use peerplays_contract_node.Node.Course.Signals.{
  Task, load_new_plugins, dump_contract_databases, prepare_wait,
}
use peerplays_contract_node.Node.Course.Run.{
  Outside, connected_slots, initialize_blockchain, start_chain, start_p2p, start_p2p_syncs,
}
use peerplays_contract_node.Node.Life.{
  Life, run_task, Step, signalled, ran, told_to_exit, called, Steps, none_yet, and_then, Lived,
  lived, IsFresh,
}
use peerplays_contract_node.Node.Life.Sound.{IsInjective, IsSound, Grown, Grown-trans}
use peerplays_contract_node.Node.Life.Keeps.{Keeps, IsSound-same, arrives}
use peerplays_contract_node.Node.Life.Calls.{initialize_found_kept}

module _ (p : Persistence) {Chain O Net : Type 0} (tables : Tables Chain) (host : Host Chain)
    (around : Outside p.Store Chain Net) (program_path : String) where
  abbrev slots : Surroundings (Node p.Store Chain O Net)
  slots = connected_slots p tables host around program_path

  abbrev chain_of : P2pHandler (Node p.Store Chain O Net) → Chain
  chain_of h = h.world.handler.chain

  -- A block changes the chain database, and nothing else of the node.
  pub handle_block-world :
      (b : SignedBlock) (sync_mode : Bool) (h : P2pHandler (Node p.Store Chain O Net))
      → (handle_block slots b sync_mode h).1.world ≡ record h.world {
        handler = record h.world.handler {
          chain = (on_block_received around.blocks b (chain_of h)).1;
        };
      }
  unfolding handle_block
  handle_block-world b sync_mode h = ground arith

  abbrev view : Node p.Store Chain O Net → Database
  view n = around.reads n.handler.chain

  run_task_kept :
      (t : Task) (n : Node p.Store Chain O Net)
      → IsSound p host n
      → IsSound p host (run_task p tables host around program_path t n)
        × Grown p n (run_task p tables host around program_path t n)
  unfolding run_task
  run_task_kept load_new_plugins n s = initialize_found_kept p tables host program_path n s
  run_task_kept dump_contract_databases n s = IsSound-same p host n n refl refl refl s.plugins s

  Step-IsSound :
      (s t : Life p Chain O Net)
      → Step p tables host around program_path s t
      → IsSound p host s.handler.world
      → IsSound p host t.handler.world × Grown p s.handler.world t.handler.world
  unfolding handle_transaction
  Step-IsSound s t (signalled g) v =
      IsSound-same p host s.handler.world s.handler.world refl refl refl v.plugins v
  Step-IsSound s t (told_to_exit with_error) v =
      IsSound-same p host s.handler.world s.handler.world refl refl refl v.plugins v
  Step-IsSound s t (ran task before after e) v = run_task_kept task s.handler.world v
  Step-IsSound s t (called c) v =
      answer-keeps slots view (λ w. IsSound p host w × Grown p s.handler.world w)
        (λ b sync_mode h (sound, grown).
          let (sound', grown') =
            arrives p host h.world _ _ (handle_block-world b sync_mode h)
              (IsSound-same p host h.world _ refl refl refl sound.plugins sound) in
          (sound', Grown-trans p grown grown'))
        (λ trx h k. k) c s.handler
        (IsSound-same p host s.handler.world s.handler.world refl refl refl v.plugins v)

  Steps-IsSound :
      (s t : Life p Chain O Net)
      → Steps p tables host around program_path s t
      → IsSound p host s.handler.world
      → IsSound p host t.handler.world × Grown p s.handler.world t.handler.world
  Steps-IsSound s t none_yet v =
      IsSound-same p host s.handler.world s.handler.world refl refl refl v.plugins v
  Steps-IsSound s t (and_then before step) v =
      let (sound, grown) = Steps-IsSound s _ before v in
      let (sound', grown') = Step-IsSound _ t step sound in (sound', Grown-trans p grown grown')

  open_kept :
      Keeps p host (on_handler p {O = O} {Net = Net} tables (open_chain around.open_database))
  unfolding open_chain
  open_kept n s =
      opened (around.open_database n.handler.chain).0 (around.open_database n.handler.chain).1 refl
    where
      opened :
          (r : Result (Unit {0})) (c : Chain)
          → around.open_database n.handler.chain ≡ (r, c)
          → IsSound p host (on_handler p tables (open_chain around.open_database) n).1
            × Grown p n (on_handler p tables (open_chain around.open_database) n).1
      opened (ok u) c e =
          arrives p host n (record n { handler = record n.handler { chain = c; is_open = true } }) _
            (ground (arith, e)) (IsSound-same p host n _ refl refl refl s.plugins s)
      opened (fail f) c e =
          arrives p host n (record n { handler = record n.handler { chain = c } }) _
            (ground (arith, e)) (IsSound-same p host n _ refl refl refl s.plugins s)

  module _ (n : Node p.Store Chain O Net) (fresh : IsFresh n)
      (numbers : IsInjective p (around.open_store n.handler.persistence).1) where
    -- The node once the database of records is open.
    abbrev pub with_records : Node p.Store Chain O Net
    with_records = record n {
      handler = record n.handler { persistence = (around.open_store n.handler.persistence).1 };
    }

    with_records-IsSound : IsSound p host with_records
    unfolding lookup
    with_records-IsSound = record {
      registered = record {
        sorted = rw fresh.no_contracts tt;
        recorded = rw fresh.no_contracts tt;
        injective = numbers;
      };
      watched = rw fresh.no_monitors tt;
      plugins = λ path library e. absurd (ground (arith, e, fresh.no_libraries));
    }

    -- Sound, and with all that was there when the database of records was open.
    abbrev pub Follows : Node p.Store Chain O Net → Type 0
    Follows m = IsSound p host m × Grown p with_records m

    Follows-then :
        (m o : Node p.Store Chain O Net) → Follows m → IsSound p host o × Grown p m o → Follows o
    Follows-then m o (sound, grown) (sound', grown') = (sound', Grown-trans p grown grown')

    start_chain-Follows : Follows (start_chain p tables host around program_path n).1
    unfolding start_chain initialize_blockchain initialize
    start_chain-Follows =
        bind-holds Follows (initialize_blockchain p tables host around program_path)
          (λ done. on_handler p tables (open_chain around.open_database)) n
          (bind-holds Follows (on_handler p tables (initialize around.open_store))
            (λ done. initialize_found p tables host program_path) n
            (IsSound-same p host with_records with_records refl refl refl
              with_records-IsSound.plugins with_records-IsSound)
            (λ done m f.
              Follows-then m _ f (initialize_found_kept p tables host program_path m f.0)))
          (λ done m f. Follows-then m _ f (open_kept m f.0))

    -- The start of the P2P part changes only the P2P node.
    start_p2p-Follows :
        (h after : P2pHandler (Node p.Store Chain O Net))
        → start_p2p p tables host around program_path h ≡ (ok tt, after)
        → Follows h.world
        → Follows after.world
    start_p2p-Follows h after e f =
        let same : record (after.world) { net = h.world.net } ≡ h.world =
          (start_p2p_syncs p tables host around program_path h after e).1 in
        let back : Follows (record (after.world) { net = h.world.net }) =
          subst Follows (sym same) f in
        Follows-then (record (after.world) { net = h.world.net }) after.world back
          (IsSound-same p host (record (after.world) { net = h.world.net }) after.world refl refl
            refl back.0.plugins back.0)

    pub Lived-Follows :
        (t : Life p Chain O Net)
        → Lived p tables host around program_path n t
        → Follows t.handler.world
    Lived-Follows t (lived h started m before a b steps) =
        let at_start : Follows started.world =
          start_p2p-Follows (record h { world = m }) started b
            (subst Follows (ap (λ x. x.1) a) start_chain-Follows) in
        Follows-then started.world t.handler.world at_start (
          Steps-IsSound (record { handler = started; process = prepare_wait before }) t steps
            at_start.0)

    -- The program starts without an exception from a node with nothing loaded, whose database of
    -- records, once opened, has no number at two names. After that come
    -- signals, calls of the P2P node and of `exit`, and the tasks that the signals leave run, in
    -- any order and however they end. Then always: the map of the loaded contracts is sorted, each of them is under the space of
    -- its own record, and no two names have one number; the contract of each monitor is loaded in
    -- the space that the monitor watches; and each loaded library is from the file of its own
    -- path, and exports `registerContract`.
    pub Lived-IsSound :
        (t : Life p Chain O Net)
        → Lived p tables host around program_path n t
        → IsSound p host t.handler.world
    Lived-IsSound t l = (Lived-Follows t l).0

    -- The same start, and any two states of the life after it, one reached from the other: every
    -- contract that is loaded in the first is loaded in the second, in the same space and with
    -- the same name, every record of the first is there with its number, and the monitors of the
    -- first are the first monitors of the second.
    pub Lived-Grown :
        (s t : Life p Chain O Net)
        → Lived p tables host around program_path n s
        → Steps p tables host around program_path s t
        → Grown p s.handler.world t.handler.world
    Lived-Grown s t l steps = (Steps-IsSound s t steps (Lived-IsSound s l)).1
