-- ===== src/Node/Life/Heads.antt =====
-- The head of the chain, under the monitors of a contract's tables.
pub mod Plugins
use peerplays_contract_node.Prelude.{
  ℕ, ◌≡◌, refl, sym, ap, subst, ◌∙◌, Bool, true, false, Option, none, some, List, [], ◌∷◌, ◌++◌,
  String, Result, ok, fail, arith,
}
use peerplays_contract_node.Prelude.Actions.{
  Action, ◌>>=◌, ◌>>◌, pure, modify, bind-relates, bind-holds,
}
use peerplays_contract_node.P2p.Defs.{Hash}
use peerplays_contract_node.Chain.Records.{Persistence, ChainHandler, contract_object_space_id}
use peerplays_contract_node.Chain.Registry.{Initializer, initialize_contract, get_space_id}
use peerplays_contract_node.Chain.Registry.Spaces.{the_record}
use peerplays_contract_node.Chain.Monitor.{Tables, Attached, connected, attach, monitor_tables}
use peerplays_contract_node.Node.Defs.{StringList, Library, Host, Node, lookup, erase}
use peerplays_contract_node.Node.Libraries.{search_for_plugins}
use peerplays_contract_node.Node.Libraries.Search.{IsPlugin}
use peerplays_contract_node.Node.Plugins.{
  on_chain, on_handler, lift, observe, watch, initialize_named, initialize_body, initialize_plugin,
  initialize_loaded, initialize_plugins,
}
use peerplays_contract_node.Node.Plugins.Outcome.{lookup-erase}
use peerplays_contract_node.Node.Plugins.Found.{on_libraries, initialize_found}
use peerplays_contract_node.Node.Life.Sound.{HasPlugins}
use peerplays_contract_node.Node.Life.Calls.{search_for_plugins_kept}

-- Neither the indexes of the monitors nor the registration of a plugin's contract change the head.
pub record IsQuiet {Chain : Type 0} (tables : Tables Chain) (host : Host Chain)
    (head : Chain → Hash) : Type 0 where
  pub indexes :
      (space table : ℕ) (c : Chain) → head (tables.add_secondary_index space table c).1 ≡ head c
  pub contracts :
      (path : String) (library : Library Chain) (init : Initializer Chain)
      → IsPlugin host path library
      → library.register_contract ≡ ok init
      → (space : ℕ) (c : Chain) → head (init space c).1 ≡ head c

module _ {Chain : Type 0} (tables : Tables Chain) (host : Host Chain) (head : Chain → Hash)
    (quiet : IsQuiet tables host head) where
  attach-head :
      {O : Type 0} (space : ℕ) (ts : List ℕ) (monitors : List (Attached O)) (c : Chain)
      → head (attach tables space ts monitors c).1 ≡ head c
  unfolding attach
  attach-head space [] monitors c = refl
  attach-head {O} space (t ∷ ts) monitors c =
      added (attach-head space ts) (tables.add_secondary_index space t c).0
        (tables.add_secondary_index space t c).1 refl
    where
      added :
          ((ms : List (Attached O)) (k : Chain) → head (attach tables space ts ms k).1 ≡ head k)
          → (r : Result ℕ) (left : Chain) → tables.add_secondary_index space t c ≡ (r, left)
          → head (attach tables space (t ∷ ts) monitors c).1 ≡ head c
      added rest (ok index) left e =
          let kept : head left ≡ head c = ap (λ x. head x.1) (sym e) ∙ quiet.indexes space t c in
          let more = monitors ++ record { index = index; table = connected t } ∷ [] in
          ground (arith, e, kept, rest more left)
      added rest (fail f) left e =
          let kept : head left ≡ head c = ap (λ x. head x.1) (sym e) ∙ quiet.indexes space t c in
          ground (arith, e, kept, rest monitors left)

  pub observe-head :
      {Store : Type 0} (O : Type 0) (name : String) (h : ChainHandler Store Chain)
      → head (observe {O = O} tables name h).1.chain ≡ head h.chain
  unfolding observe monitor_tables
  observe-head {Store} O name h =
      bind-holds (λ (k : ChainHandler Store Chain). head k.chain ≡ head h.chain)
        (λ k. (get_space_id k name, k))
        (λ space.
          on_chain (monitor_tables {O = O} tables space) >>= λ attached. pure (space, attached))
        h refl
        (λ space k e.
          bind-holds (λ (l : ChainHandler Store Chain). head l.chain ≡ head h.chain)
            (on_chain (monitor_tables {O = O} tables space)) (λ attached. pure (space, attached)) k
            (attach-head {O = O} space (tables.inspect_all_indexes k.chain space) [] k.chain ∙ e)
            (λ attached l f. f))
