-- ===== src/Chain/Registry/Spaces.antt =====
-- The object spaces that contracts get, over restarts and registrations.
use peerplays_contract_node.Prelude.{
  ℕ, ◌+◌, ◌≡◌, refl, sym, ◌∙◌, ◌≢◌, inl, inr, true, Option, none, some, String, str_eq, str_eq_iff,
  if◌then◌else◌, ok, arith, Option-cases, to_uint8,
}
use peerplays_contract_node.Chain.Records.{
  ContractRecord, contract_object_space_id, Persistence, ChainHandler,
}
use peerplays_contract_node.Chain.Registry.{Initializer, record_of_contract, initialize_contract}

abbrev pub space_of : ℕ → ℕ
space_of number = to_uint8 (10 + number)

module _ (p : Persistence) where
  open p use {Store}

  -- The name has a record with this number, and `record_of_contract` answers it.
  abbrev pub Recorded : Store → String → Store × ContractRecord → Type 0
  Recorded s name (t, r) =
      (r.name ≡ name)
      × ((other : String)
          → p.find t other ≡ (if str_eq other name then some r.number else p.find s other))

  pub found_case :
      (s : Store) (name : String) (i : ℕ)
      → p.find s name ≡ some i
      → record_of_contract p s name ≡ (s, record { number = i; name = name })
  unfolding record_of_contract
  found_case s name i e = ground (arith, p.lower_bound_found s name i e, str_eq_iff name name)

  pub absent_case :
      (s : Store) (name : String)
      → p.find s name ≡ none
      → record_of_contract p s name ≡ p.create s name
  unfolding record_of_contract
  absent_case s name e = split (p.lower_bound s name) refl
    where
      split :
          (o : Option ContractRecord)
          → p.lower_bound s name ≡ o
          → record_of_contract p s name ≡ p.create s name
      split none l = ground arith
      split (some r) l = ground (arith, str_eq_iff r.name name, p.lower_bound_absent s name r e l)

  pub record_of_contract-Recorded :
      (s : Store) (name : String) → Recorded s name (record_of_contract p s name)
  record_of_contract-Recorded s name = elim (Option-cases (p.find s name)) [
    | inl e ↦
        rw (absent_case s name e) (p.create_name s name, λ other. p.find_create s name other e)
    | inr (i, e) ↦ rw (found_case s name i e) (refl, λ other. ground (arith, str_eq_iff other name))
  ]

module _ (p : Persistence) {Chain : Type 0} (name : String) (init : Initializer Chain)
    (h : ChainHandler p.Store Chain) where
  abbrev pub after : ChainHandler p.Store Chain
  after = (initialize_contract p name init h).1

  abbrev pub the_record : ContractRecord
  the_record = (record_of_contract p h.persistence name).1

  pub after-persistence : after.persistence ≡ (record_of_contract p h.persistence name).0
  unfolding initialize_contract
  after-persistence = ground arith

  -- Whatever the contract's own registration does, its name then has a record with the number
  -- that this call used, so that every later call hands it the same object space and leaves the
  -- records alone; and no other name's record changes.
  pub initialize_contract_keeps_space :
      (other : String)
      → (record_of_contract p after.persistence name ≡ (after.persistence, the_record))
        × (p.find after.persistence other
            ≡ (if str_eq other name then some the_record.number else p.find h.persistence other))
  initialize_contract_keeps_space other =
      let (named, found) = record_of_contract-Recorded p h.persistence name in
      let here : p.find after.persistence name ≡ some the_record.number =
        ground (arith, after-persistence, found name, str_eq_iff name name) in
      (
        found_case p after.persistence name the_record.number here
            ∙ (λ i. (after.persistence, record { number = the_record.number; name = sym named i })),
        ground (arith, after-persistence, found other),
      )

  -- A call in which the contract's own registration throws or answers false ends as that does,
  -- loads nothing, and leaves the chain as the contract left it.
  pub initialize_contract_refused :
      (init (contract_object_space_id the_record) h.chain).0 ≢ ok true
      → ((initialize_contract p name init h).0
          ≡ (init (contract_object_space_id the_record) h.chain).0)
        × (after.loaded_contracts ≡ h.loaded_contracts)
        × (after.chain ≡ (init (contract_object_space_id the_record) h.chain).1)
  unfolding initialize_contract
  initialize_contract_refused n = ground arith
