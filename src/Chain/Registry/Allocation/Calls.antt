-- ===== src/Chain/Registry/Allocation/Calls.antt =====
-- Calls of `initializeContract` in turn are an allocation of numbers to the contracts' names.
use peerplays_contract_node.Prelude.{
  ℕ, ◌<◌, ◌↔◌, ◌≡◌, refl, sym, ap, ◌∙◌, inl, inr, some, List, [], ◌∷◌, ◌++◌, map, append_assoc,
  append-nil, String, str_eq, if◌then◌else◌, arith, Option-cases, All, All-imp, All-map,
}
use peerplays_contract_node.Chain.Records.{contract_object_space_id, Persistence, ChainHandler}
use peerplays_contract_node.Chain.Registry.{Initializer, initialize_contract}
use peerplays_contract_node.Chain.Registry.Spaces.{
  space_of, record_of_contract-Recorded, found_case, absent_case, after, the_record,
  after-persistence,
}
use peerplays_contract_node.Chain.Registry.Allocation.{
  Numbers, Assigns, known, given_new, Allocates, nothing_asked, asked_first, IsInjective,
  Allocates-answers, Allocates-IsInjective,
}

names_of_handed :
    (f : ℕ → ℕ) (asked : List (String × ℕ))
    → map (λ (a : String × ℕ). a.0) (map (λ (a : String × ℕ). (a.0, f a.1)) asked)
      ≡ map (λ a. a.0) asked
names_of_handed f [] = refl
names_of_handed f (a ∷ asked) = ap (λ r. a.0 ∷ r) (names_of_handed f asked)

-- While the numbers are small, names share a space only with themselves.
same_space :
    (numbers : Numbers) (a b : String) (i j : ℕ)
    → IsInjective numbers
    → ((other : String) (k : ℕ) → numbers other ≡ some k → k < 246)
    → numbers a ≡ some i
    → numbers b ≡ some j
    → (a ≡ b) ↔ (space_of i ≡ space_of j)
same_space numbers a b i j once small e f = (
  λ same. ground (arith, ap numbers same, e, f),
  λ same.
      let equal : i ≡ j = omega (arith, small a i e, small b j f) in
      once a b j (e ∙ ap some equal) f,
)

-- Contracts that note, in the chain database, the space that they are handed.
abbrev pub Noting : Type 0 → Type 0
Noting Chain = List (String × ℕ) × Chain

abbrev pub noting : {Chain : Type 0} → String → Initializer Chain → Initializer (Noting Chain)
noting name init space (noted, chain) =
    let (r, left) = init space chain in (r, (noted ++ (name, space) ∷ [], left))

module _ (p : Persistence) {Chain : Type 0} where
  -- Calls of `initializeContract` in turn, whatever each of them comes to.
  unfoldable pub initialize_all :
      List (String × Initializer Chain)
      → ChainHandler p.Store (Noting Chain)
      → ChainHandler p.Store (Noting Chain)
  initialize_all [] h = h
  initialize_all ((name, init) ∷ calls) h = initialize_all calls (after p name (noting name init) h)

  -- One call assigns.
  initialize_contract-Assigns :
      (name : String) (init : Initializer (Noting Chain)) (h : ChainHandler p.Store (Noting Chain))
      → Assigns
          (p.find h.persistence)
          name
          (the_record p name init h).number
          (p.find (after p name init h).persistence)
  initialize_contract-Assigns name init h =
      let (named, found) = record_of_contract-Recorded p h.persistence name in
      let at : (other : String)
          → p.find (after p name init h).persistence other ≡ (
              if str_eq other name
              then some (the_record p name init h).number
              else p.find h.persistence other) =
        λ other. ap (λ s. p.find s other) (after-persistence p name init h) ∙ found other in
      elim (Option-cases (p.find h.persistence name)) [
        | inl absent ↦
            given_new absent
              (λ other i e same.
                p.create_fresh h.persistence name other i e
                  (ap (λ x. x.1.number) (sym (absent_case p h.persistence name absent)) ∙ same))
              at
        | inr (i, e) ↦
            let as_it_is = found_case p h.persistence name i e in
            known (e ∙ ap (λ x. some x.1.number) (sym as_it_is)) (λ other.
              ap (λ s. p.find s other) (after-persistence p name init h)
              ∙ ap (λ x. p.find x.0 other) as_it_is)
      ]

  noted :
      (name : String) (init : Initializer Chain) (h : ChainHandler p.Store (Noting Chain))
      → (after p name (noting name init) h).chain.0
        ≡ h.chain.0 ++ (name, space_of (the_record p name (noting name init) h).number) ∷ []
  unfolding initialize_contract contract_object_space_id
  noted name init h = ground arith

  -- Whatever contracts the node initialises in turn, and whatever their registrations answer or
  -- throw: the records go through an allocation of numbers to the contracts' names, in the order
  -- of the calls, in which a name that has a number keeps it and another gets one that no name
  -- has; and each contract is handed the space of the number that its name gets.
  pub initialize_all_refines :
      (calls : List (String × Initializer Chain)) (h : ChainHandler p.Store (Noting Chain))
      → (asked : List (String × ℕ)) × Allocates
          (p.find h.persistence)
          asked
          (p.find (initialize_all calls h).persistence)
        × (map (λ a. a.0) asked ≡ map (λ c. c.0) calls)
        × ((initialize_all calls h).chain.0 ≡ h.chain.0 ++ map (λ a. (a.0, space_of a.1)) asked)
  unfolding initialize_all
  initialize_all_refines [] h = ([], nothing_asked, refl, sym (append-nil _))
  initialize_all_refines ((name, init) ∷ calls) h =
      let next = after p name (noting name init) h in
      let (asked, allocates, names, spaces) = initialize_all_refines calls next in
      (
        (name, (the_record p name (noting name init) h).number) ∷ asked,
        asked_first (initialize_contract-Assigns name (noting name init) h) allocates,
        ap (λ r. name ∷ r) names,
        spaces
            ∙ ap (λ l. l ++ map (λ a. (a.0, space_of a.1)) asked) (noted name init h)
            ∙ append_assoc h.chain.0 _ _,
      )

  -- When no name shares its number with another before, and no record after has a number from 246
  -- on: of the contracts that the node initialises in turn, two are handed the same object space
  -- exactly when they have the same name.
  pub initialize_all_apart :
      (calls : List (String × Initializer Chain)) (h : ChainHandler p.Store (Noting Chain))
      → IsInjective (p.find h.persistence)
      → ((other : String) (i : ℕ)
          → p.find (initialize_all calls h).persistence other ≡ some i
          → i < 246)
      → (handed : List (String × ℕ)) × ((initialize_all calls h).chain.0 ≡ h.chain.0 ++ handed)
        × (map (λ a. a.0) handed ≡ map (λ c. c.0) calls)
        × All (λ a. All (λ b. (a.0 ≡ b.0) ↔ (a.1 ≡ b.1)) handed) handed
  initialize_all_apart calls h once small =
      let (asked, allocates, names, spaces) = initialize_all_refines calls h in
      let answers = Allocates-answers allocates in
      let once' = Allocates-IsInjective allocates once in
      (
        map (λ a. (a.0, space_of a.1)) asked,
        spaces,
        names_of_handed space_of asked ∙ names,
        All-map (λ a. (a.0, space_of a.1)) _ asked
            (All-imp _ _ asked
              (λ a at_a.
                All-map (λ b. (b.0, space_of b.1)) _ asked
                  (All-imp _ _ asked (λ b at_b. same_space _ a.0 b.0 a.1 b.1 once' small at_a at_b)
                    answers))
              answers),
      )
