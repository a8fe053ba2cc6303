-- ===== src/Infra/StaticVariant/Values.antt =====
-- A variant that is made from a value, and what each of its readers answers.
use peerplays_contract_node.Prelude.{
  ℕ, ◌≡◌, ◌<◌, refl, ap, ◌∙◌, some, List, Result, ok, fail, bad_cast, ◌>>=◌, arith, ◌==◌,
  if◌then◌else◌, Bool-cases, inl, inr, ==_iff, get_elem?,
}
use peerplays_contract_node.Prelude.Int.{ℤ, pos}
use peerplays_contract_node.Infra.TypeList.{Eq, index_of}
use peerplays_contract_node.Infra.StaticVariant.{
  StaticVariant, Operations, get, read, is_type, clean, visit, visit_own, which, count,
}
use peerplays_contract_node.Infra.StaticVariant.Assign.{construct_value}
use peerplays_contract_node.Infra.StaticVariant.Lifecycle.{
  raw, holding, init-raw, clean-holding, get-holding, in_range, dispatch_tag_found, type_at,
  is_same_self,
}
use peerplays_contract_node.Infra.TypeList.Uniques.{index_of_found}

module _ {A V : Type 0} ⦃eq : Eq A⦄ (types : List A) (t : A) (i : ℕ)
    (found : index_of t types ≡ some i) where
  -- The types of two indexes are one if the indexes are.
  get_any :
      (u : A) (j : ℕ) (x : V)
      → index_of u types ≡ some j
      → get types u (holding i t x) ≡ (if j == i then ok x else fail bad_cast)
  unfolding get
  get_any u j x at_j = elim (Bool-cases (j == i)) [
    | inl same ↦
        let equal : j ≡ i = (==_iff j i).0 same in
        let one : u ≡ t =
          ground
            (arith, type_at types u j at_j, type_at types t i found, ap (get_elem? types) equal) in
        ap (λ s. get types s (holding i t x)) one
        ∙ get-holding types t i found x
        ∙ ground (arith, same)
    | inr other ↦ ground (arith, at_j, other)
  ]

  visit-holding :
      {R : Type 0} (visitor : A → V → Result R) (x : V)
      → visit_own types visitor (holding i t x) ≡ visitor t x
  unfolding visit_own visit read
  visit-holding visitor x = ground (
    arith,
    in_range types t i found,
    is_same_self t,
    dispatch_tag_found types t i found (λ s. read s (some (t, x)) >>= visitor s),
  )

  -- In a variant that is made from a value of a type with an index in the list, by a copy that does
  -- not throw: `which` is the index, below `count`; `isType` of any type in the list is true for
  -- that index and false for another; `get` of it is the copy, or throws `bad_cast`; `visit` calls
  -- the visitor with the copy, as of its type; and the destructor destroys it.
  pub construct_value_lem :
      (ops : Operations A V) (x made : V) (junk : ℤ) {R : Type 0} (visitor : A → V → Result R)
      (u : A) (j : ℕ)
      → ops.copy t x ≡ ok made
      → index_of u types ≡ some j
      → (v : StaticVariant A V) × (construct_value ops types t x (raw junk) ≡ (ok tt, v))
        × (which v ≡ pos i)
        × (i < count types)
        × (is_type types u v ≡ ok (j == i))
        × (get types u v ≡ (if j == i then ok made else fail bad_cast))
        × (visit_own types visitor v ≡ visitor t made)
        × (clean types v ≡ (ok tt, raw (pos i)))
  unfolding construct_value which count is_type
  construct_value_lem ops x made junk visitor u j copied at_j = (
    holding i t made,
    ground (arith, copied, init-raw types t i found junk made),
    refl,
    (index_of_found t types i found).2,
    ground (arith, at_j),
    get_any u j made at_j,
    visit-holding visitor made,
    clean-holding types t i found made,
  )
