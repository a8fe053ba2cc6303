-- ===== src/Node/Libraries.antt =====
-- `loadPlugin`, `loadPlugins` and `searchForPlugins` of Modules/ContractNode.cpp.
pub mod Search
pub mod Both
use peerplays_contract_node.Prelude.{
  Bool, true, false, not, ◌&&◌, ◌||◌, Option, none, some, List, [], ◌∷◌, ◌++◌, String, str_eq,
  Result, ok, fail, Failure,
}
use peerplays_contract_node.Prelude.Actions.{Action, pure, ◌>>=◌}
use peerplays_contract_node.Node.Defs.{Library, Listing, Host, has_key, emplace, is_system_error}

abbrev pub Libraries : Type 0 → Type 0
Libraries Chain = List (String × Library Chain)

unfoldable pub is_plugin_extension : String → Bool
is_plugin_extension e = str_eq e ".so" || str_eq e ".dylib" || str_eq e ".dll"

module _ {Chain : Type 0} (host : Host Chain) where
  open host use {open_library, weakly_canonical, list_directory, extension, join, program_stem}

  unfoldable pub load_plugin : String → Action (Libraries Chain) Bool
  load_plugin file libs = elim (open_library file) [
    | ok library ↦ elim (library.is_loaded && library.has "registerContract") [
      | true ↦ (ok true, emplace file library libs)
      | false ↦ (ok false, libs)
    ]
    | fail e ↦ elim (is_system_error e) [ true ↦ (ok false, libs) | false ↦ (fail e, libs) ]
  ]

  -- A file of the directory is tried if it looks like a plugin and is not loaded yet.
  abbrev pub is_candidate : String → Libraries Chain → Bool
  is_candidate path libs = is_plugin_extension (extension path) && not (has_key path libs)

  unfoldable pub try_file : String → Action (Libraries Chain) Bool
  try_file path libs = elim (is_candidate path libs) [
    | true ↦ load_plugin path libs
    | false ↦ (ok false, libs)
  ]

  -- The paths whose file was loaded, in the order of the directory.
  unfoldable pub try_files : List String → Action (Libraries Chain) (List String)
  try_files [] libs = (ok [], libs)
  try_files (path ∷ paths) libs =
      let (r, after) = try_file path libs in
      elim r [
        | fail e ↦ (fail e, after)
        | ok loaded ↦
            let (rest, last) = try_files paths after in
            elim rest [
              | fail e ↦ (fail e, last)
              | ok more ↦ (ok (elim loaded [ true ↦ path ∷ more | false ↦ more ]), last)
            ]
      ]

  -- An error of the iterator comes after the files before it.
  abbrev pub end_listing : Option Failure → List String → Action (Libraries Chain) (List String)
  end_listing none loaded libs = (ok loaded, libs)
  end_listing (some e) loaded libs = (fail e, libs)

  abbrev pub load_listed : Result (Option Listing) → Action (Libraries Chain) (List String)
  load_listed (fail e) libs = (fail e, libs)
  load_listed (ok none) libs = (ok [], libs)
  load_listed (ok (some listing)) libs = (try_files listing.paths >>= end_listing listing.stop) libs

  abbrev pub load_canonical : Result String → Action (Libraries Chain) (List String)
  load_canonical (fail e) libs = (fail e, libs)
  load_canonical (ok canonical) libs = load_listed (list_directory canonical) libs

  -- What the file system throws is not caught here.
  unfoldable pub load_plugins : String → Action (Libraries Chain) (List String)
  load_plugins directory = load_canonical (weakly_canonical directory)

  unfoldable pub search_for_plugins : String → Action (Libraries Chain) (List String)
  search_for_plugins program_path = do
    loaded ← load_plugins (join program_path "plugins")
    more ← load_plugins (join (join (join program_path "../lib") program_stem) "plugins")
    pure (loaded ++ more)
