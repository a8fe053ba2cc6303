-- ===== src/Node/Life/Sound.antt =====
-- What holds of a running node, and what stays once it is there.
use peerplays_contract_node.Prelude.{
  ℕ, ◌≡◌, sym, ap, ◌∙◌, some, List, [], ◌++◌, append-nil, append_assoc, String, All,
}
use peerplays_contract_node.Chain.Records.{Persistence, ChainHandler}
use peerplays_contract_node.Chain.Registry.Map.{find}
use peerplays_contract_node.Chain.Registry.Invariant.{IsRegistered}
use peerplays_contract_node.Node.Defs.{Library, Host, ContractMonitor, Node, lookup}
use peerplays_contract_node.Node.Libraries.{Libraries}
use peerplays_contract_node.Node.Libraries.Search.{IsPlugin}

-- Every loaded library is from the file of its own path, and exports `registerContract`.
abbrev pub HasPlugins : {Chain : Type 0} → Host Chain → Libraries Chain → Type 0
HasPlugins host libs =
    (path : String) (library : Library _)
    → lookup path libs ≡ some library
    → IsPlugin host path library

-- The contract of each monitor is loaded, in the space that the monitor watches.
abbrev pub Watched : {O : Type 0} → List (ℕ × String) → List (ContractMonitor O) → Type 0
Watched loaded monitors = All (λ m. find m.space loaded ≡ some m.contract_name) monitors

pub IsRegistered-same :
    (p : Persistence) {Chain : Type 0} (h k : ChainHandler p.Store Chain)
    → k.loaded_contracts ≡ h.loaded_contracts
    → k.persistence ≡ h.persistence
    → IsRegistered p h
    → IsRegistered p k
IsRegistered-same p h k a b v = record {
  sorted = rw a v.sorted;
  recorded = rw (a, b) v.recorded;
  injective = rw b v.injective;
}

-- No two names have one number.
abbrev pub IsInjective : (p : Persistence) → p.Store → Type 0
IsInjective p s =
    (first second : String) (i : ℕ)
    → p.find s first ≡ some i
    → p.find s second ≡ some i
    → first ≡ second

module _ (p : Persistence) {Chain O Net : Type 0} where
  pub record IsSound (host : Host Chain) (n : Node p.Store Chain O Net) : Type 0 where
    pub registered : IsRegistered p n.handler
    pub watched : Watched n.handler.loaded_contracts n.contract_monitors
    pub plugins : HasPlugins host n.loaded_libraries

  -- No contract, no record and no monitor of the first node is lost or changed in the second.
  pub record Grown (n m : Node p.Store Chain O Net) : Type 0 where
    pub contracts :
        (space : ℕ) (name : String)
        → find space n.handler.loaded_contracts ≡ some name
        → find space m.handler.loaded_contracts ≡ some name
    pub records :
        (name : String) (number : ℕ)
        → p.find n.handler.persistence name ≡ some number
        → p.find m.handler.persistence name ≡ some number
    pub monitors :
        (more : List (ContractMonitor O)) × (m.contract_monitors ≡ n.contract_monitors ++ more)

  pub Grown-same :
      (n m : Node p.Store Chain O Net)
      → m.handler.loaded_contracts ≡ n.handler.loaded_contracts
      → m.handler.persistence ≡ n.handler.persistence
      → m.contract_monitors ≡ n.contract_monitors
      → Grown n m
  Grown-same n m a b c = record {
    contracts = λ space name e. ap (find space) a ∙ e;
    records = λ name number e. ap (λ s. p.find s name) b ∙ e;
    monitors = ([], c ∙ sym (append-nil n.contract_monitors));
  }

  pub Grown-trans : {n m o : Node p.Store Chain O Net} → Grown n m → Grown m o → Grown n o
  Grown-trans {n = n} a b = record {
    contracts = λ space name e. b.contracts space name (a.contracts space name e);
    records = λ name number e. b.records name number (a.records name number e);
    monitors =
        let (first, e) = a.monitors in
        let (second, f) = b.monitors in
        (
          first ++ second,
          f ∙ ap (λ ms. ms ++ second) e ∙ append_assoc n.contract_monitors first second,
        );
  }
