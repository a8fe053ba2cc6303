-- ===== src/Node/Life/Heads/Plugins.antt =====
-- Plugins are searched for and initialised without a change of the head of the chain.
use peerplays_contract_node.Prelude.{
  ℕ, ◌≡◌, refl, sym, subst, ◌∙◌, Bool, true, false, Option, none, some, List, [], ◌∷◌, ◌++◌, String,
  Result, ok, fail, arith,
}
use peerplays_contract_node.Prelude.Actions.{Action, ◌>>=◌, ◌>>◌, pure, modify, bind-relates}
use peerplays_contract_node.P2p.Defs.{Hash}
use peerplays_contract_node.Chain.Records.{Persistence, contract_object_space_id}
use peerplays_contract_node.Chain.Registry.{Initializer, initialize_contract}
use peerplays_contract_node.Chain.Registry.Spaces.{the_record}
use peerplays_contract_node.Chain.Monitor.{Tables, Attached}
use peerplays_contract_node.Node.Defs.{StringList, Library, Host, Node, lookup, erase}
use peerplays_contract_node.Node.Libraries.{search_for_plugins}
use peerplays_contract_node.Node.Libraries.Search.{IsPlugin}
use peerplays_contract_node.Node.Plugins.{
  on_handler, lift, observe, watch, initialize_named, initialize_body, initialize_plugin,
  initialize_loaded, initialize_plugins,
}
use peerplays_contract_node.Node.Plugins.Outcome.{lookup-erase}
use peerplays_contract_node.Node.Plugins.Found.{on_libraries, initialize_found}
use peerplays_contract_node.Node.Life.Sound.{HasPlugins}
use peerplays_contract_node.Node.Life.Calls.{search_for_plugins_kept}
use peerplays_contract_node.Node.Life.Heads.{IsQuiet, observe-head}

module _ (p : Persistence) {Chain O Net : Type 0} (tables : Tables Chain) (host : Host Chain)
    (head : Chain → Hash) where
  -- The call keeps the head, and that the libraries are plugins.
  abbrev pub Quiet : {A : Type 0} → Action (Node p.Store Chain O Net) A → Type 0
  Quiet m =
      (n : Node p.Store Chain O Net)
      → HasPlugins host n.loaded_libraries
      → HasPlugins host (m n).1.loaded_libraries
        × (head (m n).1.handler.chain ≡ head n.handler.chain)

  Quiet-bind :
      {A B : Type 0} (m : Action (Node p.Store Chain O Net) A)
      (k : A → Action (Node p.Store Chain O Net) B)
      → Quiet m
      → ((a : A) → Quiet (k a))
      → Quiet (m >>= k)
  Quiet-bind =
      bind-relates
        (λ n u.
          HasPlugins host n.loaded_libraries
          → HasPlugins host u.loaded_libraries × (head u.handler.chain ≡ head n.handler.chain))
        (λ n u v f g s.
          let (plugins, same) = f s in
          let (plugins', same') = g plugins in (plugins', same' ∙ same))

  lift-Quiet : {A : Type 0} (r : Result A) → Quiet (lift p tables r)
  lift-Quiet r n s = (s, refl)

  module _ (quiet : IsQuiet tables host head) where
    watch-Quiet : (name : String) (names : Option StringList) → Quiet (watch p tables name names)
    watch-Quiet name names =
        Quiet-bind (on_handler p tables (observe tables name)) keep
          (λ n s. (s, observe-head tables host head quiet O name n.handler))
          (λ (space, attached) n s. (s, refl))
      where
        keep : ℕ × List (Attached O) → Action (Node p.Store Chain O Net) Bool
        keep (space, attached) = do
          modify λ n. record n {
            contract_monitors =
                n.contract_monitors
                ++ record {
                  contract_name = name;
                  space = space;
                  table_names = names;
                  tables = attached;
                }
                  ∷ [];
          }
          pure true

    initialize_contract-Quiet :
        (path : String) (library : Library Chain) (name : String) (init : Initializer Chain)
        → IsPlugin host path library
        → library.register_contract ≡ ok init
        → Quiet (on_handler p tables (initialize_contract p name init))
    unfolding initialize_contract
    initialize_contract-Quiet path library name init plugin e n s =
        let space = contract_object_space_id (the_record p name init n.handler) in
        let kept = quiet.contracts path library init plugin e space n.handler.chain in
        (s, ground (arith, kept))

    initialize_named-Quiet :
        (path : String) (library : Library Chain) (name : String)
        → IsPlugin host path library
        → Quiet (initialize_named p tables library name)
    unfolding initialize_named
    initialize_named-Quiet path library name plugin =
        Quiet-bind (lift p tables table_names) named (lift-Quiet table_names)
          (λ names. λ n s. given names library.register_contract refl n s)
      where
        table_names : Result (Option StringList)
        table_names = elim (library.has "tableNames") [
          | true ↦ elim library.table_names [ ok ns ↦ ok (some ns) | fail e ↦ fail e ]
          | false ↦ ok none
        ]

        finish : Option StringList → Bool → Action (Node p.Store Chain O Net) Bool
        finish names done = elim done [ true ↦ watch p tables name names | false ↦ pure false ]

        registered : Option StringList → Initializer Chain → Action (Node p.Store Chain O Net) Bool
        registered names init =
            on_handler p tables (initialize_contract p name init) >>= finish names

        named : Option StringList → Action (Node p.Store Chain O Net) Bool
        named names = lift p tables library.register_contract >>= registered names

        finish-Quiet : (names : Option StringList) (done : Bool) → Quiet (finish names done)
        finish-Quiet names true = watch-Quiet name names
        finish-Quiet names false = lift-Quiet (ok false)

        given :
            (names : Option StringList) (r : Result (Initializer Chain))
            → library.register_contract ≡ r
            → Quiet (lift p tables r >>= registered names)
        given names (ok init) e =
            Quiet-bind (on_handler p tables (initialize_contract p name init)) (finish names)
              (initialize_contract-Quiet path library name init plugin e) (finish-Quiet names)
        given names (fail f) e = lift-Quiet {A = Bool} (fail f)

    initialize_plugin-Quiet :
        (path : String) (library : Library Chain)
        → IsPlugin host path library
        → Quiet (initialize_plugin p tables library)
    unfolding initialize_plugin initialize_body
    initialize_plugin-Quiet path library plugin =
        Quiet-bind (lift p tables own_name) (initialize_named p tables library)
          (lift-Quiet own_name) (λ name. initialize_named-Quiet path library name plugin)
      where
        own_name : Result String
        own_name = elim (library.has "contractName") [
          | true ↦ library.contract_name
          | false ↦ ok library.file_name
        ]

    initialize_loaded-Quiet : (path : String) → Quiet (initialize_loaded p tables path)
    unfolding initialize_loaded
    initialize_loaded-Quiet path n s = found (lookup path n.loaded_libraries) refl
      where
        Kept : Node p.Store Chain O Net → Type 0
        Kept m = HasPlugins host m.loaded_libraries × (head m.handler.chain ≡ head n.handler.chain)

        arrive :
            (m : Node p.Store Chain O Net)
            → (initialize_loaded p tables path n).1 ≡ m
            → Kept m
            → Kept (initialize_loaded p tables path n).1
        arrive m e k = subst Kept (sym e) k

        answered :
            (library : Library Chain)
            → lookup path n.loaded_libraries ≡ some library
            → (r : Result Bool) (m : Node p.Store Chain O Net)
            → initialize_plugin p tables library n ≡ (r, m)
            → Kept m
            → Kept (initialize_loaded p tables path n).1
        answered library e (fail g) m f k = arrive m (ground (arith, e, f)) k
        answered library e (ok true) m f k = arrive m (ground (arith, e, f)) k
        answered library e (ok false) m f (plugins, same) =
            let erased : HasPlugins host (erase path m.loaded_libraries) =
              λ q l g. plugins q l (ground (arith, lookup-erase path q m.loaded_libraries)) in
            let left : Node p.Store Chain O Net = record m {
              loaded_libraries = erase path m.loaded_libraries;
            } in
            arrive left (ground (arith, e, f)) (erased, same)

        found :
            (o : Option (Library Chain))
            → lookup path n.loaded_libraries ≡ o
            → Kept (initialize_loaded p tables path n).1
        found none e = arrive n (ground (arith, e)) (s, refl)
        found (some library) e =
            answered library e (initialize_plugin p tables library n).0
              (initialize_plugin p tables library n).1 refl
              (initialize_plugin-Quiet path library (s path library e) n s)

    initialize_plugins-Quiet : (paths : List String) → Quiet (initialize_plugins p tables paths)
    unfolding initialize_plugins
    initialize_plugins-Quiet [] = lift-Quiet (ok tt)
    initialize_plugins-Quiet (path ∷ paths) =
        Quiet-bind (initialize_loaded p tables path) (λ done. initialize_plugins p tables paths)
          (initialize_loaded-Quiet path) (λ done. initialize_plugins-Quiet paths)

    pub initialize_found-Quiet :
        (program_path : String) → Quiet (initialize_found p tables host program_path)
    unfolding initialize_found
    initialize_found-Quiet program_path =
        Quiet-bind (on_libraries p tables (search_for_plugins host program_path))
          (initialize_plugins p tables)
          (λ n s. (search_for_plugins_kept host program_path n.loaded_libraries s, refl))
          initialize_plugins-Quiet
