-- ===== src/Node/Life/Keeps.antt =====
-- Every call of the node keeps it sound, and loses nothing.
use peerplays_contract_node.Prelude.{
  ℕ, ◌≡◌, refl, sym, append-nil, ap, subst, ◌∙◌, inl, inr, Option, none, some, List, [], ◌∷◌, ◌++◌,
  String, Result, ok, fail, arith, All-imp, All-append,
}
use peerplays_contract_node.Prelude.Actions.{Action, ◌>>=◌, bind-relates}
use peerplays_contract_node.Chain.Records.{Persistence, ChainHandler}
use peerplays_contract_node.Chain.Registry.{Initializer, get_space_id}
use peerplays_contract_node.Chain.Registry.Map.{find, find_name, find-emplace, find_name-find}
use peerplays_contract_node.Chain.Registry.Spaces.{space_of, after, after-persistence}
use peerplays_contract_node.Chain.Registry.Invariant.{
  IsRegistered, given, find_keeps, loaded_cases, initialize_contract-IsRegistered,
}
use peerplays_contract_node.Chain.Monitor.{Tables, Attached, monitor_tables}
use peerplays_contract_node.Node.Defs.{StringList, Host, ContractMonitor, Node}
use peerplays_contract_node.Node.Plugins.{observe, watch}
use peerplays_contract_node.Node.Life.Sound.{
  HasPlugins, IsSound, Grown, Grown-same, Grown-trans, IsRegistered-same,
}

module _ (p : Persistence) {Chain : Type 0} (name : String) (init : Initializer Chain)
    (h : ChainHandler p.Store Chain) (v : IsRegistered p h) where
  -- `emplace` leaves the entries that there are.
  contracts_kept :
      (space : ℕ) (other : String)
      → find space h.loaded_contracts ≡ some other
      → find space (after p name init h).loaded_contracts ≡ some other
  contracts_kept space other e = elim (loaded_cases p name init h) [
    | inl same ↦ ap (find space) same ∙ e
    | inr added ↦ ground (
      arith,
      added,
      find-emplace (space_of (given p h.persistence name).number) space name h.loaded_contracts
          v.sorted,
    )
  ]

  records_kept :
      (other : String) (number : ℕ)
      → p.find h.persistence other ≡ some number
      → p.find (after p name init h).persistence other ≡ some number
  records_kept other number e =
      rw (after-persistence p name init h) (find_keeps p h.persistence name other number e)

module _ (p : Persistence) {Chain O Net : Type 0} (host : Host Chain) where
  -- The call keeps a sound node sound, and loses nothing.
  abbrev pub Keeps : {A : Type 0} → Action (Node p.Store Chain O Net) A → Type 0
  Keeps m =
      (n : Node p.Store Chain O Net) → IsSound p host n → IsSound p host (m n).1 × Grown p n (m n).1

  pub Keeps-bind :
      {A B : Type 0} (m : Action (Node p.Store Chain O Net) A)
      (k : A → Action (Node p.Store Chain O Net) B)
      → Keeps m
      → ((a : A) → Keeps (k a))
      → Keeps (m >>= k)
  Keeps-bind m k first second =
      bind-relates (λ n u. IsSound p host n → IsSound p host u × Grown p n u)
        (λ n u v f g s.
          let (sound, grown) = f s in
          let (sound', grown') = g sound in (sound', Grown-trans p grown grown'))
        m k first second

  -- Only the chain database, the open flag and the P2P node are other ones.
  pub IsSound-same :
      (n m : Node p.Store Chain O Net)
      → m.handler.loaded_contracts ≡ n.handler.loaded_contracts
      → m.handler.persistence ≡ n.handler.persistence
      → m.contract_monitors ≡ n.contract_monitors
      → HasPlugins host m.loaded_libraries
      → IsSound p host n
      → IsSound p host m × Grown p n m
  IsSound-same n m a b c plugins s = (
    record {
      registered = IsRegistered-same p n.handler m.handler a b s.registered;
      watched = rw (a, c) s.watched;
      plugins = plugins;
    },
    Grown-same p n m a b c,
  )

  pub contract_kept :
      (name : String) (init : Initializer Chain) (n : Node p.Store Chain O Net)
      → IsSound p host n
      → IsSound p host (record n { handler = after p name init n.handler })
        × Grown p n (record n { handler = after p name init n.handler })
  contract_kept name init n s = (
    record {
      registered = initialize_contract-IsRegistered p name init n.handler s.registered;
      watched =
          All-imp _ _ n.contract_monitors
            (λ m e. contracts_kept p name init n.handler s.registered m.space m.contract_name e)
            s.watched;
      plugins = s.plugins;
    },
    record {
      contracts = contracts_kept p name init n.handler s.registered;
      records = records_kept p name init n.handler s.registered;
      monitors = ([], sym (append-nil n.contract_monitors));
    },
  )

  pub arrives :
      (n x y : Node p.Store Chain O Net)
      → y ≡ x
      → IsSound p host x × Grown p n x
      → IsSound p host y × Grown p n y
  arrives n x y e = subst (λ z. IsSound p host z × Grown p n z) (sym e)

  monitor_kept :
      (n : Node p.Store Chain O Net) (c : Chain) (m : ContractMonitor O)
      → find m.space n.handler.loaded_contracts ≡ some m.contract_name
      → IsSound p host n
      → IsSound p host (record n {
        handler = record n.handler { chain = c };
        contract_monitors = n.contract_monitors ++ m ∷ [];
      })
        × Grown p n (record n {
          handler = record n.handler { chain = c };
          contract_monitors = n.contract_monitors ++ m ∷ [];
        })
  monitor_kept n c m e s = (
    record {
      registered =
          IsRegistered-same p n.handler (record n.handler { chain = c }) refl refl s.registered;
      watched = All-append _ n.contract_monitors (m ∷ []) s.watched (e, tt);
      plugins = s.plugins;
    },
    record { contracts = λ k w f. f; records = λ w i f. f; monitors = (m ∷ [], refl) },
  )

  module _ (tables : Tables Chain) where
    watch_named :
        (name : String) (names : Option StringList) (n : Node p.Store Chain O Net) (space : ℕ)
        → IsSound p host n
        → find space n.handler.loaded_contracts ≡ some name
        → get_space_id n.handler name ≡ ok space
        → (r : Result (List (Attached O))) (c : Chain)
        → monitor_tables tables space n.handler.chain ≡ (r, c)
        → IsSound p host (watch p tables name names n).1 × Grown p n (watch p tables name names n).1
    unfolding observe
    watch_named name names n space s e f (fail g) c m =
        arrives n (record n { handler = record n.handler { chain = c } }) _ (ground (arith, f, m))
          (IsSound-same n (record n { handler = record n.handler { chain = c } }) refl refl refl
            s.plugins s)
    watch_named name names n space s e f (ok ms) c m = arrives n _ _ (ground (arith, f, m)) (
        monitor_kept n c
          (record { contract_name = name; space = space; table_names = names; tables = ms }) e s)

    pub watch_kept : (name : String) (names : Option StringList) → Keeps (watch p tables name names)
    unfolding observe get_space_id
    watch_kept name names n s = named (find_name name n.handler.loaded_contracts) refl
      where
        named :
            (o : Option (ℕ × String))
            → find_name name n.handler.loaded_contracts ≡ o
            → IsSound p host (watch p tables name names n).1
              × Grown p n (watch p tables name names n).1
        named none e =
            arrives n n _ (ground (arith, e)) (IsSound-same n n refl refl refl s.plugins s)
        named (some (space, w)) e =
            let (found, same) =
              find_name-find name n.handler.loaded_contracts space w s.registered.sorted e in
            watch_named name names n space s (found ∙ ap some same) (ground (arith, e))
              (monitor_tables tables space n.handler.chain).0
              (monitor_tables tables space n.handler.chain).1 refl
