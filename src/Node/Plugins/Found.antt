-- ===== src/Node/Plugins/Found.antt =====
-- `initializePlugins(searchForPlugins(...))`, as the start of the program and the handler of
-- SIGUSR1 call it.
use peerplays_contract_node.Prelude.{
  ◌≡◌, ◌≢◌, refl, sym, ap, subst, Bool, true, false, none, some, List, [], ◌∷◌, map, String,
  str_eq_iff, Result, ok, fail, arith, All, Distinct,
}
use peerplays_contract_node.Prelude.Actions.{Action, ◌>>=◌}
use peerplays_contract_node.Chain.Records.{Persistence}
use peerplays_contract_node.Chain.Monitor.{Tables}
use peerplays_contract_node.Node.Defs.{Library, Host, Node, lookup, erase}
use peerplays_contract_node.Node.Libraries.{Libraries, search_for_plugins}
use peerplays_contract_node.Node.Libraries.Search.{IsPlugin}
use peerplays_contract_node.Node.Libraries.Both.{search_for_plugins-Loads}
use peerplays_contract_node.Node.Plugins.{initialize_plugin, initialize_loaded, initialize_plugins}
use peerplays_contract_node.Node.Plugins.Outcome.{initialize_plugin-libraries, lookup-erase}

module _ {Chain : Type 0} where
  abbrev IsLoaded : Libraries Chain → String × Library Chain → Type 0
  IsLoaded libs (path, library) = lookup path libs ≡ some library

  abbrev pub names : List (String × Library Chain) → List String
  names entries = map (λ e. e.0) entries

  -- To unload a library leaves the ones of other names.
  erase-IsLoaded :
      (path : String) (entries : List (String × Library Chain)) (libs : Libraries Chain)
      → All (λ q. path ≢ q) (names entries)
      → All (IsLoaded libs) entries
      → All (IsLoaded (erase path libs)) entries
  erase-IsLoaded path [] libs d l = tt
  erase-IsLoaded path ((q, library) ∷ entries) libs (ne, d) (e, l) = (
    ground (arith, lookup-erase path q libs, str_eq_iff path q),
    erase-IsLoaded path entries libs d l,
  )

  entries_of :
      (host : Host Chain) (libs after : Libraries Chain) (paths : List String)
      → All (λ path. lookup path libs ≡ none) paths
      → All
          (λ path.
            (library : Library Chain) × IsPlugin host path library
            × (lookup path after ≡ some library))
          paths
      → (entries : List (String × Library Chain)) × (names entries ≡ paths)
        × All (λ e. (lookup e.0 libs ≡ none) × IsPlugin host e.0 e.1) entries
        × All (IsLoaded after) entries
  entries_of host libs after [] f l = ([], refl, tt, tt)
  entries_of host libs after (path ∷ paths) (absent, f) ((library, plugin, found), l) =
      let (entries, same, new, loaded) = entries_of host libs after paths f l in
      (
        (path, library) ∷ entries,
        ap (λ ps. path ∷ ps) same,
        ((absent, plugin), new),
        (found, loaded),
      )

module _ (p : Persistence) {Chain O Net : Type 0} (tables : Tables Chain) where
  abbrev pub on_libraries :
      {A : Type 0} → Action (Libraries Chain) A → Action (Node p.Store Chain O Net) A
  on_libraries m n = let (r, l) = m n.loaded_libraries in (r, record n { loaded_libraries = l })

  unfoldable pub initialize_found :
      Host Chain → String → Action (Node p.Store Chain O Net) (Unit {0})
  initialize_found host program_path = do
    loaded ← on_libraries (search_for_plugins host program_path)
    initialize_plugins p tables loaded

  -- The libraries themselves, one after the other, without a look into the map.
  unfoldable pub initialize_each :
      List (String × Library Chain) → Action (Node p.Store Chain O Net) (Unit {0})
  initialize_each [] n = (ok tt, n)
  initialize_each ((path, library) ∷ entries) n =
      let (r, after) = initialize_plugin p tables library n in
      elim r [
        | fail e ↦ (fail e, after)
        | ok true ↦ initialize_each entries after
        | ok false ↦
            initialize_each entries
              (record after { loaded_libraries = erase path after.loaded_libraries })
      ]

  initialize_plugins-each :
      (entries : List (String × Library Chain)) (n : Node p.Store Chain O Net)
      → Distinct (names entries)
      → All (IsLoaded n.loaded_libraries) entries
      → initialize_plugins p tables (names entries) n ≡ initialize_each entries n
  unfolding initialize_plugins initialize_each initialize_loaded
  initialize_plugins-each [] n d l = refl
  initialize_plugins-each ((path, library) ∷ entries) n (ne, d) (e, l) =
      go (initialize_plugin p tables library n).0 (initialize_plugin p tables library n).1 refl
        (λ m k. initialize_plugins-each entries m d k)
    where
      go :
          (r : Result Bool) (after : Node p.Store Chain O Net)
          → initialize_plugin p tables library n ≡ (r, after)
          → ((m : Node p.Store Chain O Net)
              → All (IsLoaded m.loaded_libraries) entries
              → initialize_plugins p tables (names entries) m ≡ initialize_each entries m)
          → initialize_plugins p tables (names ((path, library) ∷ entries)) n
            ≡ initialize_each ((path, library) ∷ entries) n
      go (fail e') after f rec = ground (arith, e, f)
      go (ok true) after f rec =
          let same : after.loaded_libraries ≡ n.loaded_libraries =
            ground (arith, f, initialize_plugin-libraries p tables library n) in
          ground (arith, e, f, rec after (subst (λ m. All (IsLoaded m) entries) (sym same) l))
      go (ok false) after f rec =
          let same : after.loaded_libraries ≡ n.loaded_libraries =
            ground (arith, f, initialize_plugin-libraries p tables library n) in
          ground (
            arith,
            e,
            f,
            rec (record after { loaded_libraries = erase path after.loaded_libraries })
                (erase-IsLoaded path entries after.loaded_libraries ne
                  (subst (λ m. All (IsLoaded m) entries) (sym same) l)),
          )

  -- When the search ends well, with these paths: no path comes twice, and behind each is a library
  -- that was not loaded before and exports `registerContract`. The call then comes to what the
  -- initialisation of these libraries comes to, one after the other and up to the first exception
  -- that passes, where each that answers false is unloaded: the map has every path when the loop
  -- looks it up.
  pub initialize_found_lem :
      (host : Host Chain) (program_path : String) (n : Node p.Store Chain O Net)
      (paths : List String) (libs : Libraries Chain)
      → search_for_plugins host program_path n.loaded_libraries ≡ (ok paths, libs)
      → (entries : List (String × Library Chain)) × (names entries ≡ paths)
        × Distinct paths
        × All (λ e. (lookup e.0 n.loaded_libraries ≡ none) × IsPlugin host e.0 e.1) entries
        × (initialize_found host program_path n
            ≡ initialize_each entries (record n { loaded_libraries = libs }))
  unfolding initialize_found
  initialize_found_lem host program_path n paths libs e =
      let l = search_for_plugins-Loads host program_path n.loaded_libraries libs paths e in
      let (entries, same, new, loaded) =
        entries_of host n.loaded_libraries libs paths l.fresh l.plugins in
      let run =
        initialize_plugins-each entries (record n { loaded_libraries = libs })
          (subst Distinct (sym same) l.distinct) loaded in
      (entries, same, l.distinct, new, ground (arith, e, same, run))
