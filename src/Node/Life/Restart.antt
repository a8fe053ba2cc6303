-- ===== src/Node/Life/Restart.antt =====
-- The object spaces of the contracts over the end of the program and its next start.
mod Tests
use peerplays_contract_node.Prelude.{ℕ, ◌≡◌, sym, ap, ◌∙◌, some, String, arith}
use peerplays_contract_node.Chain.Records.{Persistence}
use peerplays_contract_node.Chain.Registry.Map.{find, Entries-find}
use peerplays_contract_node.Chain.Registry.Spaces.{space_of}
use peerplays_contract_node.Chain.Registry.Invariant.{IsOf}
use peerplays_contract_node.Chain.Genesis.{Closing, destroy}
use peerplays_contract_node.Chain.Monitor.{Tables}
use peerplays_contract_node.Node.Defs.{Host, Node}
use peerplays_contract_node.Node.Course.Run.{Outside}
use peerplays_contract_node.Node.Life.{Life, Lived, IsFresh}
use peerplays_contract_node.Node.Life.Sound.{IsInjective, IsSound}
use peerplays_contract_node.Node.Life.Reached.{Lived-Follows, Lived-IsSound}

module _ (p : Persistence) {Chain O Net : Type 0} where
  -- A loaded contract of a sound node is in the space of its record.
  loaded-IsOf :
      (host : Host Chain) (n : Node p.Store Chain O Net) (space : ℕ) (name : String)
      → IsSound p host n
      → find space n.handler.loaded_contracts ≡ some name
      → IsOf p n.handler.persistence space name
  loaded-IsOf host n space name s e =
      Entries-find (IsOf p n.handler.persistence) space name n.handler.loaded_contracts
        s.registered.recorded e

  -- The program starts without an exception from a node with nothing loaded, whose database of
  -- records, once opened, has no number at two names, and lives on in any way. It ends, and starts
  -- again from a node with nothing loaded and with the records that the destructor left, perhaps
  -- among other plugins; flushing, closing and opening again leave the records as they were. When
  -- a contract of one name is loaded in the first life and in the second, at whatever time, it is
  -- in the same object space.
  pub restart_keeps_spaces :
      (tables : Tables Chain) (host later_host : Host Chain) (around : Outside p.Store Chain Net)
      (program_path : String) (closing : Closing p.Store Chain)
      → ((s : p.Store) (name : String)
          → p.find (around.open_store (closing.close_store (closing.flush s))).1 name
            ≡ p.find s name)
      → (n : Node p.Store Chain O Net) → IsFresh n
      → IsInjective p (around.open_store n.handler.persistence).1
      → (s : Life p Chain O Net) → Lived p tables host around program_path n s
      → (later : Node p.Store Chain O Net) → IsFresh later
      → later.handler.persistence ≡ (destroy closing s.handler.world.handler).0
      → (t : Life p Chain O Net) → Lived p tables later_host around program_path later t
      → (name : String) (space later_space : ℕ)
      → find space s.handler.world.handler.loaded_contracts ≡ some name
      → find later_space t.handler.world.handler.loaded_contracts ≡ some name
      → later_space ≡ space
  unfolding destroy
  restart_keeps_spaces tables host later_host around program_path closing kept n fresh numbers s
        first later later_fresh same t second name space later_space a b =
      let sound = Lived-IsSound p tables host around program_path n fresh numbers s first in
      let reopened : (k : String)
          → p.find (around.open_store later.handler.persistence).1 k
            ≡ p.find s.handler.world.handler.persistence k =
        λ k.
          ap (λ r. p.find (around.open_store r).1 k) same
          ∙ kept s.handler.world.handler.persistence k in
      let later_numbers : IsInjective p (around.open_store later.handler.persistence).1 =
        λ c d i e f.
          sound.registered.injective c d i (sym (reopened c) ∙ e) (sym (reopened d) ∙ f) in
      let (sound', grown) =
        Lived-Follows p tables later_host around program_path later later_fresh later_numbers t
          second in
      let (number, recorded, at_space) = loaded-IsOf host s.handler.world space name sound a in
      let (later_number, later_recorded, at_later) =
        loaded-IsOf later_host t.handler.world later_space name sound' b in
      let still = grown.records name number (reopened name ∙ recorded) in
      let equal : later_number ≡ number = ground (arith, still, later_recorded) in
      at_later ∙ ap space_of equal ∙ sym at_space
