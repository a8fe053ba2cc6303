-- ===== src/Infra/Api.antt =====
-- Infra/ApiManager.hpp: the search among advertised APIs with a query, such as "a/b/name".
pub mod Matches
pub mod Allocate
use peerplays_contract_node.Prelude.{
  ℕ, ◌-◌, Bool, true, false, ◌&&◌, Option, none, some, List, [], ◌∷◌, length, ltb, ◌==◌,
}
use peerplays_contract_node.Infra.TypeList.{slice, last, filter}
use peerplays_contract_node.Infra.Strings.{StringT, same_string, split_string}

-- `ApiDemarcation`, without the method that it wraps.
pub record ApiDemarcation : Type 0 where
  pub categorization : List StringT
  pub name : StringT

-- The specialisation at a single category.
abbrev pub in_category : StringT → StringT → ApiDemarcation
in_category category name = record { categorization = category ∷ []; name = name }

-- `IsApiDemarcation` holds of every value, and the delimiter is the slash.
abbrev pub slash : ℕ
slash = 47

-- The conjunction over two lists of one length.
unfoldable pub all_same : List StringT → List StringT → Bool
all_same [] cs = true
all_same (q ∷ qs) [] = true
all_same (q ∷ qs) (c ∷ cs) = same_string q c && all_same qs cs

-- A slice that does not exist does not compile.
unfoldable pub categorizations_match : List StringT → List StringT → Bool
categorizations_match qs cs = elim (length qs == length cs) [
  | true ↦ all_same qs cs
  | false ↦ elim (ltb (length qs) (length cs)) [
    | true ↦ elim (slice cs 0 (length qs)) [ none ↦ false | some front ↦ all_same qs front ]
    | false ↦ false
  ]
]

-- The query is not empty here.
unfoldable pub filter_exact : List StringT → ApiDemarcation → Bool
filter_exact query d = elim (slice query 0 (length query - 1)) [
  | none ↦ false
  | some path ↦
      categorizations_match path d.categorization
      && elim (last query) [ none ↦ false | some name ↦ same_string name d.name ]
]

unfoldable pub filter_inexact : List StringT → ApiDemarcation → Bool
filter_inexact query d = categorizations_match query d.categorization

-- `ExactMatches` and `InexactMatches`, by the parts of the query.
abbrev pub matches_of :
    List ApiDemarcation → List StringT → List ApiDemarcation × List ApiDemarcation
matches_of ds [] = ([], ds)
matches_of ds (q ∷ qs) = (filter (filter_exact (q ∷ qs)) ds, filter (filter_inexact (q ∷ qs)) ds)

unfoldable pub find_matching_advertisements :
    List ApiDemarcation → StringT → List ApiDemarcation × List ApiDemarcation
find_matching_advertisements ds query = matches_of ds (split_string query slash)
