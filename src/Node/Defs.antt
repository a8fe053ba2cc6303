-- ===== src/Node/Defs.antt =====
-- What `ContractNode` keeps, and what it calls of boost and of the operating system.
use peerplays_contract_node.Prelude.{
  ℕ, Bool, true, false, Option, none, some, List, [], ◌∷◌, String, str_eq, Result, Failure,
  if◌then◌else◌, boost_exception, system_error, fc_exception,
}
use peerplays_contract_node.Chain.Records.{ChainHandler}
use peerplays_contract_node.Chain.Registry.{Initializer}
use peerplays_contract_node.Chain.Monitor.{Attached}

-- `std::map<path, LibraryPointer>` by `count`, `emplace`, `find` and `erase`: the node never walks
-- through it, so that the order of its entries does not show.
module _ {V : Type 0} where
  unfoldable pub lookup : String → List (String × V) → Option V
  lookup k [] = none
  lookup k ((j, v) ∷ m) = if str_eq j k then some v else lookup k m

  abbrev pub has_key : String → List (String × V) → Bool
  has_key k m = elim (lookup k m) [ none ↦ false | some v ↦ true ]

  unfoldable pub emplace : String → V → List (String × V) → List (String × V)
  emplace k v m = if has_key k m then m else (k, v) ∷ m

  unfoldable pub erase : String → List (String × V) → List (String × V)
  erase k [] = []
  erase k ((j, v) ∷ m) = if str_eq j k then erase k m else (j, v) ∷ erase k m

-- `StringList` of ContractApi/ContractApi.hpp, with the strings that its array really holds.
pub record StringList : Type 0 where
  pub values : List String
  pub count : ℕ

-- A shared library, as its object answers; `get` of a symbol may throw.
pub record Library (Chain : Type 0) : Type 0 where
  pub file_name : String
  pub is_loaded : Bool
  pub has : String → Bool
  pub contract_name : Result String
  pub table_names : Result StringList
  pub register_contract : Result (Initializer Chain)

-- A directory as its iterator goes over it: the paths that it comes to, and the error that ends it
-- early, if one does.
pub record Listing : Type 0 where
  pub paths : List String
  pub stop : Option Failure

-- The file system, and the loading of a library, which may throw a `system_error`. `weakly_canonical`,
-- `is_directory` and the iterator of a directory may throw as well; `list_directory` is the last
-- two, and answers `none` for what is no directory.
pub record Host (Chain : Type 0) : Type 0 where
  pub open_library : String → Result (Library Chain)
  pub weakly_canonical : String → Result String
  pub list_directory : String → Result (Option Listing)
  pub extension : String → String
  pub join : String → String → String
  pub program_stem : String

pub record ContractMonitor (O : Type 0) : Type 0 where
  pub contract_name : String
  pub space : ℕ
  pub table_names : Option StringList
  pub tables : List (Attached O)

-- `Net` stands for the state of the P2P node.
pub record Node (Store Chain O Net : Type 0) : Type 0 where
  pub handler : ChainHandler Store Chain
  pub loaded_libraries : List (String × Library Chain)
  pub contract_monitors : List (ContractMonitor O)
  pub net : Net

-- The classes that the `catch` clauses name. Boost throws its `system_error` through
-- `boost::throw_exception`, which makes it a `boost::exception` as well.
abbrev pub is_system_error : Failure → Bool
is_system_error system_error = true
is_system_error e = false

abbrev pub is_boost_exception : Failure → Bool
is_boost_exception boost_exception = true
is_boost_exception system_error = true
is_boost_exception e = false

abbrev pub is_fc_exception : Failure → Bool
is_fc_exception (fc_exception r) = true
is_fc_exception e = false
