-- ===== src/Node/Life/Calls.antt =====
-- The search for plugins and their initialisation keep the node sound.
use peerplays_contract_node.Prelude.{
  ◌≡◌, refl, subst, inl, inr, Bool, true, false, Option, none, some, List, [], ◌∷◌, String, ◌++◌,
  str_eq, str_eq_iff, Result, ok, fail, Failure, arith, Bool-cases,
}
use peerplays_contract_node.Prelude.Actions.{Action, ◌>>=◌, pure, bind-relates}
use peerplays_contract_node.Chain.Records.{Persistence}
use peerplays_contract_node.Chain.Registry.{Initializer, initialize_contract}
use peerplays_contract_node.Chain.Monitor.{Tables}
use peerplays_contract_node.Node.Defs.{
  StringList, Library, Listing, Host, Node, lookup, erase, emplace,
}
use peerplays_contract_node.Node.Libraries.{
  Libraries, try_file, try_files, load_plugins, search_for_plugins, end_listing, load_listed,
  load_canonical,
}
use peerplays_contract_node.Node.Libraries.Search.{
  IsPlugin, refused, loads, throws, try_file-Tried, lookup-emplace,
}
use peerplays_contract_node.Node.Plugins.{
  on_handler, lift, watch, initialize_named, initialize_body, initialize_plugin, initialize_loaded,
  initialize_plugins,
}
use peerplays_contract_node.Node.Plugins.Outcome.{lookup-erase}
use peerplays_contract_node.Node.Plugins.Found.{on_libraries, initialize_found}
use peerplays_contract_node.Node.Life.Sound.{HasPlugins, IsSound, Grown, Grown-trans}
use peerplays_contract_node.Node.Life.Keeps.{
  Keeps, Keeps-bind, IsSound-same, contract_kept, arrives, watch_kept,
}

-- A search keeps the libraries' condition, also when it throws.
module _ {Chain : Type 0} (host : Host Chain) where
  abbrev KeepsPlugins : {A : Type 0} → Action (Libraries Chain) A → Type 0
  KeepsPlugins m = (libs : Libraries Chain) → HasPlugins host libs → HasPlugins host (m libs).1

  KeepsPlugins-bind :
      {A B : Type 0} (m : Action (Libraries Chain) A) (k : A → Action (Libraries Chain) B)
      → KeepsPlugins m
      → ((a : A) → KeepsPlugins (k a))
      → KeepsPlugins (m >>= k)
  KeepsPlugins-bind =
      bind-relates (λ libs after. HasPlugins host libs → HasPlugins host after)
        (λ l m n f g h. g (f h))

  try_file_kept : (path : String) → KeepsPlugins (try_file host path)
  try_file_kept path libs h = elim (try_file-Tried host path libs) [
    | refused e ↦ rw e h
    | loads library absent plugin e ↦ rw e (added library absent plugin)
    | throws f e ↦ rw e h
  ]
    where
      added :
          (library : Library Chain)
          → lookup path libs ≡ none
          → IsPlugin host path library
          → HasPlugins host (emplace path library libs)
      added library absent plugin q other found = elim (Bool-cases (str_eq path q)) [
        | inl same ↦
            let is_path : path ≡ q = (str_eq_iff path q).0 same in
            let is_library : library ≡ other =
              ground (arith, lookup-emplace path q library libs absent) in
            subst (λ k. IsPlugin host k other) is_path
              (subst (IsPlugin host path) is_library plugin)
        | inr differs ↦ h q other (ground (arith, lookup-emplace path q library libs absent))
      ]

  try_files_kept : (paths : List String) → KeepsPlugins (try_files host paths)
  unfolding try_files
  try_files_kept [] = λ libs h. h
  try_files_kept (path ∷ paths) =
      KeepsPlugins-bind (try_file host path)
        (λ loaded.
          try_files host paths >>= λ more. pure (elim loaded [ true ↦ path ∷ more | false ↦ more ]))
        (try_file_kept path)
        (λ loaded.
          KeepsPlugins-bind (try_files host paths)
            (λ more. pure (elim loaded [ true ↦ path ∷ more | false ↦ more ]))
            (try_files_kept paths) (λ more libs h. h))

  ended_kept :
      (e : Option Failure) (loaded : List String) → KeepsPlugins (end_listing host e loaded)
  ended_kept none loaded libs h = h
  ended_kept (some e) loaded libs h = h

  listed_kept : (r : Result (Option Listing)) → KeepsPlugins (load_listed host r)
  listed_kept (fail e) libs h = h
  listed_kept (ok none) libs h = h
  listed_kept (ok (some listing)) libs h =
      KeepsPlugins-bind (try_files host listing.paths) (end_listing host listing.stop)
        (try_files_kept listing.paths) (ended_kept listing.stop) libs h

  canonical_kept : (r : Result String) → KeepsPlugins (load_canonical host r)
  canonical_kept (fail e) libs h = h
  canonical_kept (ok canonical) libs h = listed_kept (host.list_directory canonical) libs h

  load_plugins_kept : (directory : String) → KeepsPlugins (load_plugins host directory)
  unfolding load_plugins
  load_plugins_kept directory = canonical_kept (host.weakly_canonical directory)

  pub search_for_plugins_kept :
      (program_path : String) → KeepsPlugins (search_for_plugins host program_path)
  unfolding search_for_plugins
  search_for_plugins_kept program_path =
      let plugins = host.join program_path "plugins" in
      let other =
        host.join (host.join (host.join program_path "../lib") host.program_stem) "plugins" in
      KeepsPlugins-bind (load_plugins host plugins)
        (λ loaded. load_plugins host other >>= λ more. pure (loaded ++ more))
        (load_plugins_kept plugins)
        (λ loaded.
          KeepsPlugins-bind (load_plugins host other) (λ more. pure (loaded ++ more))
            (load_plugins_kept other) (λ more libs h. h))

module _ (p : Persistence) {Chain O Net : Type 0} (tables : Tables Chain) (host : Host Chain) where
  lift_kept : {A : Type 0} (r : Result A) → Keeps p host (lift p {O = O} {Net = Net} tables r)
  lift_kept r n s = IsSound-same p host n n refl refl refl s.plugins s

  initialize_named_kept :
      (library : Library Chain) (name : String)
      → Keeps p host (initialize_named p {O = O} {Net = Net} tables library name)
  unfolding initialize_named
  initialize_named_kept library name =
      Keeps-bind p host (lift p tables table_names) named (lift_kept table_names) (λ names.
        Keeps-bind p host (lift p tables library.register_contract) (registered names)
          (lift_kept library.register_contract)
          (λ init.
            Keeps-bind p host (on_handler p tables (initialize_contract p name init)) (finish names)
              (λ n s. contract_kept p host name init n s) (finish_kept names)))
    where
      table_names : Result (Option StringList)
      table_names = elim (library.has "tableNames") [
        | true ↦ elim library.table_names [ ok ns ↦ ok (some ns) | fail e ↦ fail e ]
        | false ↦ ok none
      ]

      finish : Option StringList → Bool → Action (Node p.Store Chain O Net) Bool
      finish names done = elim done [ true ↦ watch p tables name names | false ↦ pure false ]

      registered : Option StringList → Initializer Chain → Action (Node p.Store Chain O Net) Bool
      registered names init = on_handler p tables (initialize_contract p name init) >>= finish names

      named : Option StringList → Action (Node p.Store Chain O Net) Bool
      named names = lift p tables library.register_contract >>= registered names

      finish_kept : (names : Option StringList) (done : Bool) → Keeps p host (finish names done)
      finish_kept names true = watch_kept p host tables name names
      finish_kept names false = lift_kept (ok false)

  initialize_plugin_kept :
      (library : Library Chain)
      → Keeps p host (initialize_plugin p {O = O} {Net = Net} tables library)
  unfolding initialize_plugin initialize_body
  initialize_plugin_kept library =
      Keeps-bind p host (lift p tables own_name) (initialize_named p tables library)
        (lift_kept own_name) (initialize_named_kept library)
    where
      own_name : Result String
      own_name = elim (library.has "contractName") [
        | true ↦ library.contract_name
        | false ↦ ok library.file_name
      ]

  -- What `initialize_loaded` does once it has the library.
  initialize_loaded_kept :
      (path : String) → Keeps p host (initialize_loaded p {O = O} {Net = Net} tables path)
  unfolding initialize_loaded
  initialize_loaded_kept path n s = found (lookup path n.loaded_libraries) refl
    where
      answered :
          (library : Library Chain)
          → lookup path n.loaded_libraries ≡ some library
          → (r : Result Bool) (after : Node p.Store Chain O Net)
          → initialize_plugin p tables library n ≡ (r, after)
          → IsSound p host after × Grown p n after
          → IsSound p host (initialize_loaded p tables path n).1
            × Grown p n (initialize_loaded p tables path n).1
      answered library e (fail g) after f k = arrives p host n after _ (ground (arith, e, f)) k
      answered library e (ok true) after f k = arrives p host n after _ (ground (arith, e, f)) k
      answered library e (ok false) after f (sound, grown) =
          let (sound', grown') =
            IsSound-same p host after
              (record after { loaded_libraries = erase path after.loaded_libraries }) refl refl refl
              (λ q l g.
                sound.plugins q l (ground (arith, lookup-erase path q after.loaded_libraries)))
              sound in
          arrives p host n _ _ (ground (arith, e, f)) (sound', Grown-trans p grown grown')

      found :
          (o : Option (Library Chain))
          → lookup path n.loaded_libraries ≡ o
          → IsSound p host (initialize_loaded p tables path n).1
            × Grown p n (initialize_loaded p tables path n).1
      found none e =
          arrives p host n n _ (ground (arith, e))
            (IsSound-same p host n n refl refl refl s.plugins s)
      found (some library) e =
          let k = initialize_plugin_kept library n s in
          answered library e (initialize_plugin p tables library n).0
            (initialize_plugin p tables library n).1 refl k

  initialize_plugins_kept :
      (paths : List String) → Keeps p host (initialize_plugins p {O = O} {Net = Net} tables paths)
  unfolding initialize_plugins
  initialize_plugins_kept [] = lift_kept (ok tt)
  initialize_plugins_kept (path ∷ paths) =
      Keeps-bind p host (initialize_loaded p tables path)
        (λ done. initialize_plugins p tables paths) (initialize_loaded_kept path)
        (λ done. initialize_plugins_kept paths)

  pub initialize_found_kept :
      (program_path : String)
      → Keeps p host (initialize_found p {O = O} {Net = Net} tables host program_path)
  unfolding initialize_found
  initialize_found_kept program_path =
      Keeps-bind p host (on_libraries p tables (search_for_plugins host program_path))
        (initialize_plugins p tables)
        (λ n s.
          IsSound-same p host n _ refl refl refl
            (search_for_plugins_kept host program_path n.loaded_libraries s.plugins) s)
        initialize_plugins_kept
