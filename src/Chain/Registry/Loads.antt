-- ===== src/Chain/Registry/Loads.antt =====
-- The contracts that are loaded: what `initializeContract` adds to the map, and when it cannot.
use peerplays_contract_node.Prelude.{
  ℕ, ◌≤◌, ◌<◌, ◌≡◌, ap, ◌∙◌, inl, inr, true, some, String, ok, arith, Option-cases,
}
use peerplays_contract_node.Chain.Records.{contract_object_space_id, Persistence, ChainHandler}
use peerplays_contract_node.Chain.Registry.{Initializer, initialize_contract, get_space_id}
use peerplays_contract_node.Chain.Registry.Map.{
  emplace, find, IsSorted, find-emplace, Entries, Entries-imp, find_name-Entries, or_else,
  Entries-find,
}
use peerplays_contract_node.Chain.Registry.Spaces.{space_of, after, the_record, after-persistence}
use peerplays_contract_node.Chain.Registry.Invariant.{
  IsOf, IsRegistered, given, find_own, find_keeps, initialize_contract-IsRegistered,
}

module _ (p : Persistence) {Chain : Type 0} (name : String) (init : Initializer Chain)
    (h : ChainHandler p.Store Chain) (v : IsRegistered p h)
    (small : (other : String) (i : ℕ)
      → p.find (after p name init h).persistence other ≡ some i
      → i < 246) where
  abbrev number : ℕ
  number = (given p h.persistence name).number

  own : p.find (after p name init h).persistence name ≡ some number
  own = rw (after-persistence p name init h) (find_own p h.persistence name)

  -- While the numbers are small, only the name itself has its space.
  name_of_space :
      (other : String)
      → IsOf p (after p name init h).persistence (space_of number) other
      → other ≡ name
  name_of_space other (j, found, same) =
      let equal : j ≡ number = omega (arith, small name number own, small other j found) in
      (initialize_contract-IsRegistered p name init h v).injective other name number
        (found ∙ ap some equal) own

  space_is_own : or_else (find (space_of number) h.loaded_contracts) name ≡ name
  space_is_own = elim (Option-cases (find (space_of number) h.loaded_contracts)) [
    | inl e ↦ rw e
    | inr (other, e) ↦
        let (j, found, same) = Entries-find (IsOf p h.persistence) _ other _ v.recorded e in
        rw e (
          name_of_space other (
            j,
            rw (after-persistence p name init h) (find_keeps p h.persistence name other j found),
            same,
          ))
  ]

  only_space :
      Entries (λ k w. w ≡ name → k ≡ space_of number) (after p name init h).loaded_contracts
  only_space =
      Entries-imp (IsOf p (after p name init h).persistence) _ _
        (λ k w (j, found, space) e.
          let equal : j ≡ number =
            ground (arith, own, ap (p.find (after p name init h).persistence) e) in
          space ∙ ap space_of equal)
        (initialize_contract-IsRegistered p name init h v).recorded

  -- In a registered state (`IsRegistered`), as long as no record after the call has a number of
  -- 246 or more: a contract whose own registration answers true is loaded under its own name, in
  -- a space of at least 10, and `getSpaceId` finds it.
  pub initialize_contract_loads :
      (init (contract_object_space_id (the_record p name init h)) h.chain).0 ≡ ok true
      → (find
            (contract_object_space_id (the_record p name init h))
            (after p name init h).loaded_contracts
          ≡ some name)
        × (10 ≤ contract_object_space_id (the_record p name init h))
        × (get_space_id (after p name init h) name
            ≡ ok (contract_object_space_id (the_record p name init h)))
  unfolding get_space_id contract_object_space_id
  initialize_contract_loads answered = (
    here,
    omega (arith, small name number own),
    ground (arith, find_name-Entries name (space_of number) _ only_space here),
  )
    where
      loaded :
          (after p name init h).loaded_contracts ≡ emplace (space_of number) name h.loaded_contracts
      loaded = unfold initialize_contract in ground arith

      here : find (space_of number) (after p name init h).loaded_contracts ≡ some name
      here = rw loaded (
          ground (
            arith,
            find-emplace (space_of number) (space_of number) name h.loaded_contracts v.sorted,
            space_is_own,
          ))

-- With a sorted map in which the space of the contract is the key of another name, a contract
-- whose own registration answers true: the call answers true all the same, and no entry of the
-- map changes.
pub initialize_contract_shadowed :
    (p : Persistence) {Chain : Type 0} (name other : String) (init : Initializer Chain)
    (h : ChainHandler p.Store Chain)
    → IsSorted h.loaded_contracts
    → find (contract_object_space_id (the_record p name init h)) h.loaded_contracts ≡ some other
    → (init (contract_object_space_id (the_record p name init h)) h.chain).0 ≡ ok true
    → ((initialize_contract p name init h).0 ≡ ok true)
      × ((k : ℕ) → find k (after p name init h).loaded_contracts ≡ find k h.loaded_contracts)
unfolding initialize_contract
initialize_contract_shadowed p name other init h s taken answered = (
  ground arith,
  λ k. ground (
    arith,
    find-emplace (contract_object_space_id (the_record p name init h)) k name h.loaded_contracts s,
  ),
)
