-- ===== src/Infra/Api/Allocate.antt =====
-- `ADD_STATIC_API_ALLOCATOR` of Infra/ApiManager.hpp. The methods that the demarcations wrap are
-- code of the class.
use peerplays_contract_node.Prelude.{
  ◌^◌, ◌<◌, ◌≡◌, true, false, List, [], ◌∷◌, ◌++◌, Option, none, some, length, length-append, All,
  Result, fail, ill_formed, ◌==◌, require, ◌>>◌, arith,
}
use peerplays_contract_node.Infra.Demarcation.{MethodDemarcation, invoke}
use peerplays_contract_node.Infra.TypeList.{first, filter}
use peerplays_contract_node.Infra.Strings.{StringT}
use peerplays_contract_node.Infra.Strings.Split.{IsPart, terminated}
use peerplays_contract_node.Infra.Api.{
  ApiDemarcation, slash, filter_exact, filter_inexact, find_matching_advertisements,
}
use peerplays_contract_node.Infra.Api.Matches.{filter-kept, find_matching_own}

module _ {O R : Type 0} (method_of : ApiDemarcation → MethodDemarcation O R) where
  -- The method of the first exact match.
  abbrev invoke_first : Option ApiDemarcation → O → Result R
  invoke_first none o = fail ill_formed
  invoke_first (some d) o =
      require ((method_of d).argument_count == 0) ill_formed >> invoke (method_of d) o

  unfoldable pub allocate_api : List ApiDemarcation → StringT → O → Result R
  allocate_api advertisements query o =
      let (exact, inexact) = find_matching_advertisements advertisements query in
      require (length exact == 1) ill_formed
      >> (require (length inexact == 0) ill_formed >> invoke_first (first exact) o)

module _ {O R : Type 0} (method_of : ApiDemarcation → MethodDemarcation O R)
    (before after : List ApiDemarcation) (d : ApiDemarcation) where
  abbrev query : List StringT
  query = d.categorization ++ d.name ∷ []

  -- Neither match of the query takes the API.
  abbrev pub IsOther : ApiDemarcation → Type 0
  IsOther e = (filter_exact query e ≡ false) × (filter_inexact query e ≡ false)

  -- Beside one API of those, one more before it that matches the query exactly: the allocation
  -- does not compile.
  pub allocate_api_ambiguous :
      (other : ApiDemarcation) (front : List ApiDemarcation) (o : O)
      → All (IsPart slash) d.categorization
      → IsPart slash d.name
      → length d.categorization < 2 ^ 64
      → before ≡ other ∷ front
      → filter_exact query other ≡ true
      → allocate_api method_of (before ++ d ∷ after) (terminated slash query) o ≡ fail ill_formed
  unfolding allocate_api
  allocate_api_ambiguous other front o clean named w same also = ground (
    arith,
    find_matching_own before after d clean named w,
    same,
    filter-kept (filter_exact query) other front also,
    length-append (filter (filter_exact query) front) (d ∷ filter (filter_exact query) after),
  )
