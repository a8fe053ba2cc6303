-- ===== src/Infra/TypeList.antt =====
-- Infra/TypeList.hpp. The elements are of any type with an equality, which is `std::is_same`.
pub mod Slices
pub mod Uniques
pub mod Maps
pub mod Distinct
use peerplays_contract_node.Prelude.{
  ℕ, zero, suc, ◌+◌, ◌-◌, ◌%◌, ◌^◌, ◌≡◌, ◌↔◌, Bool, true, false, not, ◌&&◌, List, [], ◌∷◌, ◌++◌,
  Option, none, some, map, length, get_elem?, ltb, leb, ◌==◌, if◌then◌else◌, Result, ok, fail,
  out_of_range,
}

-- `std::is_same`.
pub record Eq {ℓ} (A : Type ℓ) : Type ℓ where
  pub is_same : A → A → Bool
  pub is_same_iff : (a b : A) → (is_same a b ≡ true) ↔ (a ≡ b)

module _ {ℓ} {A : Type ℓ} where
  -- `concat` of two lists and more.
  unfoldable pub concat : List A → List A → List (List A) → List A
  concat old new [] = old ++ new
  concat old new (next ∷ lists) = concat (old ++ new) next lists

  unfoldable pub append : List A → A → List A
  unfolding concat
  append l t = concat l (t ∷ []) []

  unfoldable pub prepend : List A → A → List A
  unfolding concat
  prepend l t = concat (t ∷ []) l []

  unfoldable pub first : List A → Option A
  first l = get_elem? l 0

  -- Of an empty list the index wraps to the largest `size_t`, at which there is nothing either.
  unfoldable pub last : List A → Option A
  last [] = none
  last (t ∷ ts) = get_elem? (t ∷ ts) (length (t ∷ ts) - 1)

  unfoldable pub remove_from : List A → List A → ℕ → Option (List A)
  remove_from left [] index = none
  remove_from left (t ∷ right) zero = some (left ++ right)
  remove_from left (t ∷ right) (suc index) = remove_from (left ++ t ∷ []) right index

  unfoldable pub remove_at : List A → ℕ → Option (List A)
  unfolding remove_from
  remove_at l index = remove_from [] l index

  unfoldable pub filter_onto : (A → Bool) → List A → List A → List A
  filter_onto passes filtered [] = filtered
  filter_onto passes filtered (t ∷ ts) =
      filter_onto passes (if passes t then filtered ++ t ∷ [] else filtered) ts

  unfoldable pub filter : (A → Bool) → List A → List A
  unfolding filter_onto
  filter passes l = filter_onto passes [] l

  unfoldable pub invert_filter : (A → Bool) → A → Bool
  invert_filter passes t = not (passes t)

  unfoldable pub reduce {κ} : {R : Type κ} → (A → R → R) → R → List A → R
  reduce accumulator initial [] = initial
  reduce accumulator initial (t ∷ ts) = reduce accumulator (accumulator t initial) ts

  -- The three specialisations, tried on start = end, start = 0 and the rest; `end - 1` is a
  -- `size_t`.
  unfoldable pub slice_onto : List A → List A → ℕ → ℕ → Option (List A)
  slice_onto results [] start end = if start == end then some results else none
  slice_onto results (t ∷ ts) start end = elim (start == end) [
    | true ↦ some results
    | false ↦ elim (start == 0) [
      | true ↦ slice_onto (results ++ t ∷ []) ts 0 ((end + 2 ^ 64 - 1) % 2 ^ 64)
      | false ↦ slice_onto results ts (start - 1) ((end + 2 ^ 64 - 1) % 2 ^ 64)
    ]
  ]

  unfoldable pub slice : List A → ℕ → ℕ → Option (List A)
  slice l start end = slice_onto [] l start end

  unfoldable pub zip {κ} : {B : Type κ} → List A → List B → Option (List (A × B))
  zip [] [] = some []
  zip [] (b ∷ bs) = none
  zip (a ∷ as') [] = none
  zip (a ∷ as') (b ∷ bs) = elim (zip as' bs) [ none ↦ none | some rest ↦ some ((a, b) ∷ rest) ]

  -- `none` if the transformer has no instance for an element.
  unfoldable pub transform {κ} : {B : Type κ} → (A → Option B) → List A → Option (List B)
  transform transformer [] = some []
  transform transformer (t ∷ ts) = elim (transformer t) [
    | none ↦ none
    | some u ↦ elim (transform transformer ts) [ none ↦ none | some us ↦ some (u ∷ us) ]
  ]

  -- `builder`, of the list so far: `add` and `addList`.
  unfoldable pub builder_add : List A → A → List A
  unfolding concat
  builder_add l t = concat l (t ∷ []) []

  unfoldable pub builder_add_list : List A → List A → List A
  unfolding concat
  builder_add_list l ts = concat l ts []

  -- `runtime::ForEach`: the array of the calls is filled in order.
  unfoldable pub for_each {κ} : {S : Type κ} → List A → (A → S → S) → S → S
  for_each [] c s = s
  for_each (t ∷ ts) c s = for_each ts c (c t s)

  -- `runtime::Dispatch`: the callable at the type with the index.
  unfoldable pub dispatch {κ} : {R : Type κ} → List A → ℕ → (A → Result R) → Result R
  dispatch l index c = elim (get_elem? l index) [ none ↦ fail out_of_range | some t ↦ c t ]

unfoldable pub make_sequence : ℕ → List ℕ
make_sequence zero = []
make_sequence (suc zero) = 0 ∷ []
make_sequence (suc (suc count)) = concat (make_sequence (suc count)) (suc count ∷ []) []

unfoldable pub index {ℓ} : {A : Type ℓ} → List A → Option (List (ℕ × A))
index l = zip (make_sequence (length l)) l

module _ {ℓ} {A : Type ℓ} ⦃eq : Eq A⦄ where
  -- `none` is the index -1.
  unfoldable pub index_of : A → List A → Option ℕ
  index_of search [] = none
  index_of search (t ∷ ts) =
      if eq.is_same search t
      then some 0
      else elim (index_of search ts) [ none ↦ none | some deeper ↦ some (deeper + 1) ]

  unfoldable pub contains : List A → A → Bool
  contains l t = elim (index_of t l) [ none ↦ false | some i ↦ true ]

  unfoldable pub add_unique : List A → A → List A
  add_unique uniques t = if contains uniques t then uniques else uniques ++ t ∷ []

  unfoldable pub concat_unique_onto : List A → List A → List A
  concat_unique_onto uniques [] = uniques
  concat_unique_onto uniques (t ∷ ts) = concat_unique_onto (add_unique uniques t) ts

  -- The lists are one or more: of none `concatUnique` has no specialisation.
  unfoldable pub concat_unique : List A → List A → List (List A) → List A
  concat_unique uniques l [] = concat_unique_onto uniques l
  concat_unique uniques l (next ∷ lists) = concat_unique (concat_unique_onto uniques l) next lists

  -- `removeAt` at the index -1 does not compile.
  unfoldable pub remove_element : List A → A → Option (List A)
  remove_element l t = elim (index_of t l) [ none ↦ none | some i ↦ remove_at l i ]

  -- A map is a list of lists of two elements or more; of a shorter one there is no key or value.
  unfoldable pub key_of : List A → Option A
  key_of [] = none
  key_of (k ∷ rest) = some k

  unfoldable pub value_of : List A → Option A
  value_of [] = none
  value_of (k ∷ []) = none
  value_of (k ∷ v ∷ rest) = some v

  unfoldable pub keys : List (List A) → Option (List A)
  unfolding transform
  keys m = transform key_of m

  unfoldable pub values : List (List A) → Option (List A)
  unfolding transform
  values m = transform value_of m

  unfoldable pub is_valid : List (List A) → Bool
  is_valid m = elim (keys m) [
    | none ↦ false
    | some ks ↦ elim (values m) [ none ↦ false | some vs ↦ true ]
  ]

  unfoldable pub map_contains : List (List A) → A → Bool
  map_contains m key = is_valid m && elim (keys m) [ none ↦ false | some ks ↦ contains ks key ]

  -- `conditional_t` at the index among the keys.
  unfoldable pub lookup_at : List A → Option ℕ → A → Option A
  lookup_at vs none default = some default
  lookup_at vs (some i) default = get_elem? vs i

  -- `none` does not compile.
  unfoldable pub lookup : List (List A) → A → A → Option A
  lookup m key default = elim (map_contains m key) [
    | false ↦ some default
    | true ↦ elim (keys m) [
      | none ↦ none
      | some ks ↦ elim (values m) [ none ↦ none | some vs ↦ lookup_at vs (index_of key ks) default ]
    ]
  ]
