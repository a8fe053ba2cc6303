-- ===== src/Infra/TypeList/Distinct.antt =====
-- Lists in which no type repeats: the positions in them, and the test for them.
use peerplays_contract_node.Prelude.{
  ℕ, zero, suc, ◌+◌, ◌≤◌, ◌≡◌, ◌≢◌, sym, List, [], ◌∷◌, ◌++◌, some, length, length-append,
  get_elem?, append_assoc, append-nil, arith, subst, Bool-cases, inl, inr,
}
use peerplays_contract_node.Infra.TypeList.{
  Eq, index_of, contains, add_unique, concat_unique_onto, concat_unique,
}
use peerplays_contract_node.Infra.TypeList.Uniques.{
  IsAbsent, NoRepeats, same_case, index_of_here, index_of_later, concat_unique_onto-NoRepeats,
}

module _ {ℓ} {A : Type ℓ} ⦃eq : Eq A⦄ where
  absent_at : (t u : A) (ts : List A) (i : ℕ) → IsAbsent u ts → get_elem? ts i ≡ some t → u ≢ t
  absent_at t u [] i h e = cc
  absent_at t u (v ∷ ts) zero (h, hs) e = λ q. h (ground (arith, q))
  absent_at t u (v ∷ ts) (suc i) (h, hs) e = absent_at t u ts i hs e

  -- In a list without repetitions the type at a position is found there.
  pub index_of-get_elem? :
      (ts : List A) (t : A) (i : ℕ)
      → NoRepeats ts
      → get_elem? ts i ≡ some t
      → index_of t ts ≡ some i
  index_of-get_elem? [] t i n e = cc
  index_of-get_elem? (u ∷ ts) t zero n e = index_of_here t u ts (ground arith)
  index_of-get_elem? (u ∷ ts) t (suc i) (a, n) e = elim (same_case t u) [
    | inl same ↦ absurd (absent_at t u ts i a e (sym same))
    | inr (differs, other) ↦
        ground (arith, index_of_later t u ts other, index_of-get_elem? ts t i n)
  ]

  length-concat_unique_onto :
      (us ts : List A) → length (concat_unique_onto us ts) ≤ length us + length ts
  unfolding concat_unique_onto add_unique
  length-concat_unique_onto us [] = omega arith
  length-concat_unique_onto us (t ∷ ts) =
      ground (arith, length-concat_unique_onto (add_unique us t) ts, length-append us (t ∷ []))

  -- If nothing was dropped, everything was appended.
  concat_unique_onto_full :
      (us ts : List A)
      → length (concat_unique_onto us ts) ≡ length us + length ts
      → concat_unique_onto us ts ≡ us ++ ts
  unfolding concat_unique_onto add_unique
  concat_unique_onto_full us [] e = sym (append-nil us)
  concat_unique_onto_full us (t ∷ ts) e = elim (Bool-cases (contains us t)) [
    | inl there ↦ absurd (ground (arith, length-concat_unique_onto us ts, e, there))
    | inr new ↦ ground (
      arith,
      new,
      e,
      concat_unique_onto_full (us ++ t ∷ []) ts,
      length-append us (t ∷ []),
      append_assoc us (t ∷ []) ts,
    )
  ]

  -- `concatUnique` of a list alone is as long as the list only if no type repeats in it.
  pub NoRepeats-length : (ts : List A) → length (concat_unique [] ts []) ≡ length ts → NoRepeats ts
  unfolding concat_unique
  NoRepeats-length ts e =
      subst NoRepeats (concat_unique_onto_full [] ts (omega (arith, e)))
        (concat_unique_onto-NoRepeats [] ts tt)
