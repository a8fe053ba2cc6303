-- ===== src/Chain/Registry/Invariant.antt =====
-- What `initializeContract` keeps of the records and of the map of loaded contracts.
use peerplays_contract_node.Prelude.{
  ℕ, ◌≡◌, refl, sym, ap, ◌∙◌, ◌≢◌, inl, inr, some, String, str_eq, str_eq_iff, arith, Bool-cases,
  Option-cases, ◌⊎◌,
}
use peerplays_contract_node.Chain.Records.{
  ContractRecord, contract_object_space_id, Persistence, ChainHandler,
}
use peerplays_contract_node.Chain.Registry.{Initializer, record_of_contract, initialize_contract}
use peerplays_contract_node.Chain.Registry.Map.{
  emplace, IsSorted, emplace-IsSorted, Entries, emplace-Entries, Entries-imp,
}
use peerplays_contract_node.Chain.Registry.Spaces.{
  space_of, record_of_contract-Recorded, found_case, absent_case, after, after-persistence,
}

-- A loaded contract has a record, and its key is the space of that record's number.
abbrev pub IsOf : (p : Persistence) → p.Store → ℕ → String → Type 0
IsOf p s space name = (number : ℕ) × (p.find s name ≡ some number) × (space ≡ space_of number)

pub record IsRegistered (p : Persistence) {Chain : Type 0} (h : ChainHandler p.Store Chain)
    : Type 0 where
  pub sorted : IsSorted h.loaded_contracts
  pub recorded : Entries (IsOf p h.persistence) h.loaded_contracts
  pub injective :
      (n m : String) (i : ℕ)
      → p.find h.persistence n ≡ some i
      → p.find h.persistence m ≡ some i
      → n ≡ m

module _ (p : Persistence) (s : p.Store) (name : String) where
  abbrev pub now : p.Store
  now = (record_of_contract p s name).0

  abbrev pub given : ContractRecord
  given = (record_of_contract p s name).1

  pub find_own : p.find now name ≡ some given.number
  find_own = ground (arith, (record_of_contract-Recorded p s name).1 name, str_eq_iff name name)

  find_other : (other : String) → other ≢ name → p.find now other ≡ p.find s other
  find_other other ne =
      ground (arith, (record_of_contract-Recorded p s name).1 other, str_eq_iff other name)

  -- Only the name itself can have had the number already.
  find_given :
      ((n m : String) (i : ℕ) → p.find s n ≡ some i → p.find s m ≡ some i → n ≡ m)
      → (other : String) → p.find s other ≡ some given.number
      → other ≡ name
  find_given inj other e = elim (Option-cases (p.find s name)) [
    | inl absent ↦ absurd (
        p.create_fresh s name other given.number e
          (ap (λ x. x.1.number) (sym (absent_case p s name absent))))
    | inr (i, found) ↦
        inj other name given.number e
          (found ∙ ap (λ x. some x.1.number) (sym (found_case p s name i found)))
  ]

  pub find_keeps : (other : String) (i : ℕ) → p.find s other ≡ some i → p.find now other ≡ some i
  find_keeps other i e = elim (Bool-cases (str_eq other name)) [
    | inl same ↦
        let e' : p.find s name ≡ some i =
          ap (p.find s) (sym ((str_eq_iff other name).0 same)) ∙ e in
        ap (λ x. p.find x.0 other) (found_case p s name i e') ∙ e
    | inr differs ↦ find_other other (λ q. ground (arith, str_eq_iff other name)) ∙ e
  ]

  now-injective :
      ((n m : String) (i : ℕ) → p.find s n ≡ some i → p.find s m ≡ some i → n ≡ m)
      → (n m : String) (i : ℕ) → p.find now n ≡ some i
      → p.find now m ≡ some i
      → n ≡ m
  now-injective inj n m i a b = elim (Bool-cases (str_eq n name)) [
    | inl n_same ↦
        let n_name : n ≡ name = (str_eq_iff n name).0 n_same in
        let own : some given.number ≡ some i = sym find_own ∙ ap (p.find now) (sym n_name) ∙ a in
        n_name ∙ sym (is_name m (b ∙ sym own))
    | inr n_differs ↦ elim (Bool-cases (str_eq m name)) [
      | inl m_same ↦
          let m_name : m ≡ name = (str_eq_iff m name).0 m_same in
          let own : some given.number ≡ some i = sym find_own ∙ ap (p.find now) (sym m_name) ∙ b in
          is_name n (a ∙ sym own) ∙ sym m_name
      | inr m_differs ↦
          inj n m i (sym (find_other n (λ q. ground (arith, str_eq_iff n name))) ∙ a)
            (sym (find_other m (λ q. ground (arith, str_eq_iff m name))) ∙ b)
    ]
  ]
    where
      is_name : (k : String) → p.find now k ≡ some given.number → k ≡ name
      is_name k e = elim (Bool-cases (str_eq k name)) [
        | inl same ↦ (str_eq_iff k name).0 same
        | inr differs ↦
            find_given inj k (sym (find_other k (λ q. ground (arith, str_eq_iff k name))) ∙ e)
      ]

module _ (p : Persistence) {Chain : Type 0} (name : String) (init : Initializer Chain)
    (h : ChainHandler p.Store Chain) where
  -- The map after the call: an entry more, if the contract answered true.
  pub loaded_cases :
      ((after p name init h).loaded_contracts ≡ h.loaded_contracts)
      ⊎ ((after p name init h).loaded_contracts
          ≡ emplace (space_of (given p h.persistence name).number) name h.loaded_contracts)
  unfolding initialize_contract contract_object_space_id
  loaded_cases = ground arith

  -- A call keeps a registered state registered: the map is sorted, each loaded contract is under
  -- the space of its own record, and no two names have one number.
  pub initialize_contract-IsRegistered : IsRegistered p h → IsRegistered p (after p name init h)
  initialize_contract-IsRegistered v = record {
    sorted = elim loaded_cases [
      | inl e ↦ rw e v.sorted
      | inr e ↦ rw e (emplace-IsSorted _ name _ v.sorted)
    ];
    recorded = elim loaded_cases [
      | inl e ↦ rw e old
      | inr e ↦ rw e (
          emplace-Entries _ _ name _
            (
              (given p h.persistence name).number,
              rw (after-persistence p name init h) (find_own p h.persistence name),
              refl,
            )
            old)
    ];
    injective = λ n m i.
        rw (after-persistence p name init h) (now-injective p h.persistence name v.injective n m i);
  }
    where
      old : Entries (IsOf p (after p name init h).persistence) h.loaded_contracts
      old =
          Entries-imp (IsOf p h.persistence) _ h.loaded_contracts
            (λ k w (number, found, space). (
              number,
              rw (after-persistence p name init h) (find_keeps p h.persistence name w number found),
              space,
            ))
            v.recorded
