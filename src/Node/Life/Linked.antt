-- ===== src/Node/Life/Linked.antt =====
-- The chain of the running node: blocks from the peers, among everything else that comes.
mod Tests
use mathlib.Core.List.{Sublist, nil-sublist}
use mathlib.Core.List.Sublist
use peerplays_contract_node.Prelude.{
  ◌≡◌, refl, sym, subst, inl, inr, List, [], ◌∷◌, ◌++◌, arith, String, if◌then◌else◌,
}
use peerplays_contract_node.P2p.Defs.{Hash, SignedBlock}
use peerplays_contract_node.P2p.Handler.{handle_transaction}
use peerplays_contract_node.P2p.Handler.Calls.{answer-relates, blocks_of}
use peerplays_contract_node.Chain.Records.{Persistence}
use peerplays_contract_node.Chain.Monitor.{Tables}
use peerplays_contract_node.Node.Defs.{Host, Node}
use peerplays_contract_node.Node.Blocks.{BlockChain, on_block_received}
use peerplays_contract_node.Node.Blocks.Linked.{
  Pushes, taken_of, IsLinked, taken, left, receive_block,
}
use peerplays_contract_node.Node.Course.Signals.{load_new_plugins, dump_contract_databases}
use peerplays_contract_node.Node.Course.Run.{Outside, connected_slots}
use peerplays_contract_node.Node.Life.{
  Life, run_task, Step, signalled, ran, told_to_exit, called, Steps, none_yet, and_then, Lived,
  IsFresh,
}
use peerplays_contract_node.Node.Life.Sound.{HasPlugins, IsInjective}
use peerplays_contract_node.Node.Life.Heads.{IsQuiet}
use peerplays_contract_node.Node.Life.Heads.Plugins.{initialize_found-Quiet}
use peerplays_contract_node.Node.Life.Reached.{handle_block-world, Lived-IsSound}

IsLinked-append :
    {Chain : Type 0} (blocks : BlockChain Chain) (h k l : Hash) (bs cs : List SignedBlock)
    → IsLinked blocks h bs k
    → IsLinked blocks k cs l
    → IsLinked blocks h (bs ++ cs) l
IsLinked-append blocks h k l [] cs e linked = subst (λ (x : Hash). IsLinked blocks x cs l) e linked
IsLinked-append blocks h k l (b ∷ bs) cs (on_top, first) linked =
    (on_top, IsLinked-append blocks b.id k l bs cs first linked)

module _ (p : Persistence) {Chain O Net : Type 0} (tables : Tables Chain) (host : Host Chain)
    (around : Outside p.Store Chain Net) (program_path : String) where
  open around use {blocks}

  -- The blocks that the P2P node has brought between.
  abbrev received_by :
      {s t : Life p Chain O Net} → Step p tables host around program_path s t → List SignedBlock
  received_by (signalled g) = []
  received_by (ran t before after e) = []
  received_by (told_to_exit with_error) = []
  received_by (called c) = blocks_of c

  unfoldable pub received_of :
      {s t : Life p Chain O Net} → Steps p tables host around program_path s t → List SignedBlock
  received_of none_yet = []
  received_of (and_then steps step) = received_of steps ++ received_by step

  -- Those of them that the slot takes, in the state in which they come.
  abbrev taken_by :
      {s t : Life p Chain O Net} → Step p tables host around program_path s t → List SignedBlock
  taken_by {s} step = taken_of blocks (received_by step) s.handler.world.handler.chain

  unfoldable pub applied_of :
      {s t : Life p Chain O Net} → Steps p tables host around program_path s t → List SignedBlock
  applied_of none_yet = []
  applied_of (and_then steps step) = applied_of steps ++ taken_by step

  abbrev pub head_of : Node p.Store Chain O Net → Hash
  head_of n = blocks.head_block_id n.handler.chain

  -- Of the blocks, those that are taken lead from the head of the first node to that of the second.
  abbrev Leads : List SignedBlock → Node p.Store Chain O Net → Node p.Store Chain O Net → Type 0
  Leads bs n m =
      HasPlugins host n.loaded_libraries
      → HasPlugins host m.loaded_libraries
        × Sublist (taken_of blocks bs n.handler.chain) bs
        × IsLinked blocks (head_of n) (taken_of blocks bs n.handler.chain) (head_of m)

  Leads-same :
      (n m : Node p.Store Chain O Net)
      → (HasPlugins host n.loaded_libraries
          → HasPlugins host m.loaded_libraries × (head_of m ≡ head_of n))
      → Leads [] n m
  Leads-same n m same plugins = let (plugins', e) = same plugins in (plugins', nil-sublist [], e)

  module _
      (pushes : (b : SignedBlock) (c : Chain)
        → b.previous ≡ blocks.head_block_id c
        → Pushes blocks b c)
      (quiet : IsQuiet tables host blocks.head_block_id) where
    Leads-block :
        (b : SignedBlock) (n : Node p.Store Chain O Net)
        → Leads (b ∷ []) n (record n {
          handler = record n.handler { chain = (on_block_received blocks b n.handler.chain).1 };
        })
    Leads-block b n plugins =
        elim (receive_block blocks b n.handler.chain (pushes b n.handler.chain)) [
          | taken takes_it on_top new ↦
              let one : b ∷ [] ≡ taken_of blocks (b ∷ []) n.handler.chain =
                ground (arith, takes_it) in
              let (sub, linked) =
                subst Links one (Sublist.cons-cons b (nil-sublist []), (on_top, new)) in
              (plugins, sub, linked)
          | left leaves_it same ↦
              let no_block : [] ≡ taken_of blocks (b ∷ []) n.handler.chain =
                ground (arith, leaves_it) in
              let (sub, linked) = subst Links no_block (nil-sublist (b ∷ []), same) in
              (plugins, sub, linked)
        ]
      where
        Links : List SignedBlock → Type 0
        Links bs =
            Sublist bs (b ∷ [])
            × IsLinked blocks (blocks.head_block_id n.handler.chain) bs
                (blocks.head_block_id (on_block_received blocks b n.handler.chain).1)

    Step-Leads :
        (s t : Life p Chain O Net) (step : Step p tables host around program_path s t)
        → Leads (received_by step) s.handler.world t.handler.world
    unfolding run_task handle_transaction
    Step-Leads s t (signalled g) = Leads-same s.handler.world s.handler.world (λ l. (l, refl))
    Step-Leads s t (told_to_exit with_error) =
        Leads-same s.handler.world s.handler.world (λ l. (l, refl))
    Step-Leads s t (ran load_new_plugins before after e) =
        Leads-same s.handler.world
          (run_task p tables host around program_path load_new_plugins s.handler.world)
          (initialize_found-Quiet p tables host blocks.head_block_id quiet program_path
            s.handler.world)
    Step-Leads s t (ran dump_contract_databases before after e) =
        Leads-same s.handler.world s.handler.world (λ l. (l, refl))
    Step-Leads s t (called c) =
        answer-relates (connected_slots p tables host around program_path)
          (λ n. around.reads n.handler.chain) Leads (λ n. Leads-same n n (λ l. (l, refl)))
          (λ b sync_mode h.
            subst (Leads (b ∷ []) h.world)
              (sym (handle_block-world p tables host around program_path b sync_mode h))
              (Leads-block b h.world))
          (λ trx h. Leads-same h.world h.world (λ l. (l, refl))) c s.handler

    Steps-Leads :
        (s t : Life p Chain O Net) (steps : Steps p tables host around program_path s t)
        → HasPlugins host s.handler.world.loaded_libraries
        → HasPlugins host t.handler.world.loaded_libraries
          × Sublist (applied_of steps) (received_of steps)
          × IsLinked blocks (head_of s.handler.world) (applied_of steps) (head_of t.handler.world)
    unfolding received_of applied_of
    Steps-Leads s t none_yet plugins = (plugins, nil-sublist [], refl)
    Steps-Leads s t (and_then {t = u} steps step) plugins =
        let (plugins', sub, linked) = Steps-Leads s u steps plugins in
        let (plugins'', sub', linked') = Step-Leads u t step plugins' in
        (
          plugins'',
          Sublist.append sub sub',
          IsLinked-append blocks (head_of s.handler.world) (head_of u.handler.world)
              (head_of t.handler.world) (applied_of steps) (taken_by step) linked linked',
        )

    -- The program starts as for `Lived-IsSound`, and comes to a first and from there to a second
    -- state, by signals, tasks, calls of `exit` and calls of the P2P node, in any order. Pushing a
    -- block that is on the head either works and makes it the head, or comes back and leaves the
    -- head, or throws an `fc::exception` and leaves the head; the registration of a plugin's
    -- contract and the indexes of the monitors leave the head too. Then of the blocks that were
    -- received between, those that the slot takes, which were on the head and over which neither
    -- pushing nor the test behind it threw, lead, each on top of the one before, from the head of
    -- the first state to that of the second.
    pub Lived-IsLinked :
        (n : Node p.Store Chain O Net)
        → IsFresh n
        → IsInjective p (around.open_store n.handler.persistence).1
        → (s t : Life p Chain O Net) → Lived p tables host around program_path n s
        → (steps : Steps p tables host around program_path s t)
        → Sublist (applied_of steps) (received_of steps)
          × IsLinked blocks (head_of s.handler.world) (applied_of steps) (head_of t.handler.world)
    Lived-IsLinked n fresh numbers s t l steps =
        let sound = Lived-IsSound p tables host around program_path n fresh numbers s l in
        let (plugins, sub, linked) = Steps-Leads s t steps sound.plugins in (sub, linked)
