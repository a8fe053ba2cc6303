-- ===== src/Infra/TypeList/Uniques.antt =====
-- Search in lists, and lists without repetitions.
use peerplays_contract_node.Prelude.{
  ℕ, zero, suc, ◌+◌, ◌<◌, ◌≡◌, ◌≢◌, refl, ap, sym, ◌∙◌, Bool, true, false, ◌||◌, List, [], ◌∷◌,
  ◌++◌, none, some, length, get_elem?, take, drop, All, append_assoc, arith, Option-cases,
  Bool-cases, ◌⊎◌, inl, inr, subst,
}
use peerplays_contract_node.Infra.TypeList.{
  Eq, remove_from, remove_at, remove_element, index_of, contains, add_unique, concat_unique_onto,
  concat_unique,
}

module _ {ℓ} {A : Type ℓ} where
  remove_from_lem :
      (left ts : List A) (i : ℕ)
      → i < length ts
      → remove_from left ts i ≡ some (left ++ (take i ts ++ drop (suc i) ts))
  unfolding remove_from
  remove_from_lem left [] i h = absurd (omega arith)
  remove_from_lem left (t ∷ ts) zero h = refl
  remove_from_lem left (t ∷ ts) (suc i) h =
      remove_from_lem (left ++ t ∷ []) ts i (omega arith) ∙ simp append_assoc

module _ {ℓ} {A : Type ℓ} ⦃eq : Eq A⦄ where
  -- The type is not in the list.
  abbrev pub IsAbsent : A → List A → Type ℓ
  IsAbsent s ts = All (λ t. s ≢ t) ts

  pub same_case : (s t : A) → (s ≡ t) ⊎ ((s ≢ t) × (eq.is_same s t ≡ false))
  same_case s t = elim (Bool-cases (eq.is_same s t)) [
    | inl same ↦ inl ((eq.is_same_iff s t).0 same)
    | inr differs ↦ inr (λ e. ground (arith, (eq.is_same_iff s t).1 e), differs)
  ]

  module _ (s t : A) (ts : List A) where
    pub index_of_here : s ≡ t → index_of s (t ∷ ts) ≡ some 0
    unfolding index_of
    index_of_here e = ground (arith, (eq.is_same_iff s t).1 e)

    pub index_of_later :
        eq.is_same s t ≡ false
        → index_of s (t ∷ ts) ≡ elim (index_of s ts) [ none ↦ none | some i ↦ some (i + 1) ]
    unfolding index_of
    index_of_later e = ground arith

  pub index_of_found :
      (s : A) (ts : List A) (i : ℕ)
      → index_of s ts ≡ some i
      → (get_elem? ts i ≡ some s) × IsAbsent s (take i ts) × (i < length ts)
  index_of_found s [] i e = absurd (unfold index_of in cc)
  index_of_found s (t ∷ ts) i e = elim (same_case s t) [
    | inl same ↦ at_zero same (ground (arith, index_of_here s t ts same))
    | inr (differs, other) ↦
        deeper differs (Option-cases (index_of s ts)) (index_of_found s ts)
          (sym (index_of_later s t ts other) ∙ e)
  ]
    where
      at_zero :
          s ≡ t
          → 0 ≡ i
          → (get_elem? (t ∷ ts) i ≡ some s) × IsAbsent s (take i (t ∷ ts)) × (i < length (t ∷ ts))
      at_zero same z =
          subst
            (λ k.
              (get_elem? (t ∷ ts) k ≡ some s)
              × IsAbsent s (take k (t ∷ ts))
              × (k < length (t ∷ ts)))
            z (ap some (sym same), tt, omega arith)

      same_index :
          (j : ℕ)
          → index_of s ts ≡ some j
          → (elim (index_of s ts) [ none ↦ none | some k ↦ some (k + 1) ]) ≡ some i
          → suc j ≡ i
      same_index j f q = ground arith

      deeper :
          s ≢ t
          → (index_of s ts ≡ none) ⊎ ((j : ℕ) × (index_of s ts ≡ some j))
          → ((j : ℕ)
              → index_of s ts ≡ some j
              → (get_elem? ts j ≡ some s) × IsAbsent s (take j ts) × (j < length ts))
          → (elim (index_of s ts) [ none ↦ none | some j ↦ some (j + 1) ]) ≡ some i
          → (get_elem? (t ∷ ts) i ≡ some s) × IsAbsent s (take i (t ∷ ts)) × (i < length (t ∷ ts))
      deeper differs (inl n) found q = absurd (ground arith)
      deeper differs (inr (j, f)) found q =
          let (here, absent, within) = found j f in
          subst
            (λ k.
              (get_elem? (t ∷ ts) k ≡ some s)
              × IsAbsent s (take k (t ∷ ts))
              × (k < length (t ∷ ts)))
            (same_index j f q) (here, (differs, absent), omega arith)

  pub index_of-IsAbsent : (s : A) (ts : List A) → index_of s ts ≡ none → IsAbsent s ts
  index_of-IsAbsent s [] e = tt
  index_of-IsAbsent s (t ∷ ts) e = elim (same_case s t) [
    | inl same ↦ absurd (ground (arith, index_of_here s t ts same))
    | inr (differs, other) ↦
        (differs, index_of-IsAbsent s ts (ground (arith, index_of_later s t ts other)))
  ]

  -- `indexOf` answers the first position of the type, at which the type stands, within the list;
  -- and -1 only if the type is not in the list.
  pub index_of_lem :
      (s : A) (ts : List A)
      → ((index_of s ts ≡ none) × IsAbsent s ts)
        ⊎ ((i : ℕ) × (index_of s ts ≡ some i)
            × (get_elem? ts i ≡ some s)
            × IsAbsent s (take i ts)
            × (i < length ts))
  index_of_lem s ts = elim (Option-cases (index_of s ts)) [
    | inl e ↦ inl (e, index_of-IsAbsent s ts e)
    | inr (i, e) ↦
        let (here, absent, within) = index_of_found s ts i e in inr (i, e, here, absent, within)
  ]

  -- `removeElement` of a type that is in the list takes out its first position only.
  pub remove_element_lem :
      (s : A) (ts : List A) (i : ℕ)
      → index_of s ts ≡ some i
      → IsAbsent s (take i ts) × (remove_element ts s ≡ some (take i ts ++ drop (i + 1) ts))
  unfolding remove_element remove_at
  remove_element_lem s ts i e =
      let (here, absent, within) = index_of_found s ts i e in
      (absent, ground (arith, remove_from_lem [] ts i within))

  contains-IsAbsent : (s : A) (ts : List A) → contains ts s ≡ false → IsAbsent s ts
  unfolding contains
  contains-IsAbsent s ts e = index_of-IsAbsent s ts (ground arith)

  contains-append :
      (s : A) (ts us : List A) → contains (ts ++ us) s ≡ (contains ts s || contains us s)
  unfolding contains index_of
  contains-append s [] us = refl
  contains-append s (t ∷ ts) us = ground (arith, contains-append s ts us)

  -- No type stands twice in the list.
  abbrev pub NoRepeats : List A → Type ℓ
  NoRepeats [] = Unit
  NoRepeats (t ∷ ts) = IsAbsent t ts × NoRepeats ts

  snoc-IsAbsent : (t s : A) (ts : List A) → t ≢ s → IsAbsent t ts → IsAbsent t (ts ++ s ∷ [])
  snoc-IsAbsent t s [] n a = (n, tt)
  snoc-IsAbsent t s (u ∷ ts) n (a, as') = (a, snoc-IsAbsent t s ts n as')

  snoc-NoRepeats : (s : A) (ts : List A) → IsAbsent s ts → NoRepeats ts → NoRepeats (ts ++ s ∷ [])
  snoc-NoRepeats s [] a n = (tt, tt)
  snoc-NoRepeats s (t ∷ ts) (a, as') (n, ns) =
      (snoc-IsAbsent t s ts (λ e. a (sym e)) n, snoc-NoRepeats s ts as' ns)

  add_unique-NoRepeats : (t : A) (us : List A) → NoRepeats us → NoRepeats (add_unique us t)
  unfolding add_unique
  add_unique-NoRepeats t us n = elim (Bool-cases (contains us t)) [
    | inl there ↦ rw there n
    | inr new ↦ rw new (snoc-NoRepeats t us (contains-IsAbsent t us new) n)
  ]

  contains-add_unique :
      (s t : A) (us : List A)
      → contains (add_unique us t) s ≡ (contains us s || contains (t ∷ []) s)
  unfolding add_unique
  contains-add_unique s t us = elim (Bool-cases (contains us t)) [
    | inl there ↦ rw there (kept there (same_case s t))
    | inr new ↦ rw new (contains-append s us (t ∷ []))
  ]
    where
      kept :
          contains us t ≡ true
          → (s ≡ t) ⊎ ((s ≢ t) × (eq.is_same s t ≡ false))
          → contains us s ≡ (contains us s || contains (t ∷ []) s)
      kept there (inl same) = ground (arith, ap (contains us) same)
      kept there (inr (differs, other)) = unfold contains index_of in ground arith

  pub concat_unique_onto-NoRepeats :
      (us ts : List A) → NoRepeats us → NoRepeats (concat_unique_onto us ts)
  unfolding concat_unique_onto
  concat_unique_onto-NoRepeats us [] n = n
  concat_unique_onto-NoRepeats us (t ∷ ts) n =
      concat_unique_onto-NoRepeats (add_unique us t) ts (add_unique-NoRepeats t us n)

  contains-concat_unique_onto :
      (s : A) (us ts : List A)
      → contains (concat_unique_onto us ts) s ≡ (contains us s || contains ts s)
  unfolding concat_unique_onto
  contains-concat_unique_onto s us [] = unfold contains index_of in ground arith
  contains-concat_unique_onto s us (t ∷ ts) = ground (
    arith,
    contains-concat_unique_onto s (add_unique us t) ts,
    contains-add_unique s t us,
    contains-append s (t ∷ []) ts,
  )

  abbrev pub any_contains : A → List (List A) → Bool
  any_contains s [] = false
  any_contains s (l ∷ lists) = contains l s || any_contains s lists

  -- `concatUnique` of one list or more, from a list without repetitions, has none, and holds
  -- exactly the types of that list and of the others.
  pub concat_unique_lem :
      (us l : List A) (lists : List (List A))
      → NoRepeats us
      → NoRepeats (concat_unique us l lists)
        × ((s : A)
            → contains (concat_unique us l lists) s ≡ (contains us s || any_contains s (l ∷ lists)))
  unfolding concat_unique
  concat_unique_lem us l [] n =
      (concat_unique_onto-NoRepeats us l n, λ s. ground (arith, contains-concat_unique_onto s us l))
  concat_unique_lem us l (next ∷ lists) n =
      let (clean, holds) =
        concat_unique_lem (concat_unique_onto us l) next lists
          (concat_unique_onto-NoRepeats us l n) in
      (clean, λ s. ground (arith, holds s, contains-concat_unique_onto s us l))
