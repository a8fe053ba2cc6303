-- ===== src/Infra/TypeList/Maps.antt =====
-- Maps of types: lists of pairs of a key and a value.
use peerplays_contract_node.Prelude.{
  ◌≡◌, refl, false, List, [], ◌∷◌, some, map, arith, if◌then◌else◌,
}
use peerplays_contract_node.Infra.TypeList.{
  Eq, transform, contains, index_of, key_of, value_of, keys, values, is_valid, map_contains,
  lookup_at, lookup,
}

module _ {ℓ} {A : Type ℓ} ⦃eq : Eq A⦄ where
  -- The map of these pairs, as a list of lists of two.
  abbrev pub of_pairs : List (A × A) → List (List A)
  of_pairs [] = []
  of_pairs ((k, v) ∷ ps) = (k ∷ v ∷ []) ∷ of_pairs ps

  -- The value of the first pair with the key.
  abbrev pub first_value : List (A × A) → A → A → A
  first_value [] key default = default
  first_value ((k, v) ∷ ps) key default = if eq.is_same key k then v else first_value ps key default

  pairs_keys : (ps : List (A × A)) → keys (of_pairs ps) ≡ some (map (λ p. p.0) ps)
  unfolding keys transform key_of
  pairs_keys [] = refl
  pairs_keys ((k, v) ∷ ps) = ground (arith, pairs_keys ps)

  pairs_values : (ps : List (A × A)) → values (of_pairs ps) ≡ some (map (λ p. p.1) ps)
  unfolding values transform value_of
  pairs_values [] = refl
  pairs_values ((k, v) ∷ ps) = ground (arith, pairs_values ps)

  pairs_contain :
      (ps : List (A × A)) (key : A)
      → map_contains (of_pairs ps) key ≡ contains (map (λ p. p.0) ps) key
  unfolding map_contains is_valid
  pairs_contain ps key = ground (arith, pairs_keys ps, pairs_values ps)

  value_at :
      (ps : List (A × A)) (key default : A)
      → lookup_at (map (λ p. p.1) ps) (index_of key (map (λ p. p.0) ps)) default
        ≡ some (first_value ps key default)
  unfolding index_of lookup_at
  value_at [] key default = refl
  value_at ((k, v) ∷ ps) key default = ground (arith, value_at ps key default)

  absent_value :
      (ps : List (A × A)) (key default : A)
      → contains (map (λ p. p.0) ps) key ≡ false
      → first_value ps key default ≡ default
  unfolding index_of contains
  absent_value [] key default h = refl
  absent_value ((k, v) ∷ ps) key default h = ground (arith, absent_value ps key default)

  -- `lookup` in a map that pairs its keys with values compiles, and answers the value of the first
  -- such key, and the default if there is none.
  pub lookup_lem :
      (ps : List (A × A)) (key default : A)
      → lookup (of_pairs ps) key default ≡ some (first_value ps key default)
  unfolding lookup
  lookup_lem ps key default = ground (
    arith,
    pairs_contain ps key,
    pairs_keys ps,
    pairs_values ps,
    value_at ps key default,
    absent_value ps key default,
  )
