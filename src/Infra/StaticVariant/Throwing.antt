-- ===== src/Infra/StaticVariant/Throwing.antt =====
-- Assignments that destroy before they construct: what they leave when the construction fails.
use peerplays_contract_node.Prelude.{
  ℕ, ◌≡◌, ap, ◌∙◌, some, List, arith, ok, fail, Failure, undefined_behaviour,
}
use peerplays_contract_node.Prelude.Int.{pos}
use peerplays_contract_node.Infra.TypeList.{Eq, index_of}
use peerplays_contract_node.Infra.StaticVariant.{Operations, init, place, clean, destroy, read}
use peerplays_contract_node.Infra.StaticVariant.Assign.{elsewhere, own, assign_value}
use peerplays_contract_node.Infra.StaticVariant.Lifecycle.{
  raw, holding, dispatch_tag_found, clean-holding,
}

module _ {A V : Type 0} ⦃eq : Eq A⦄ (ops : Operations A V) (types : List A) where
  clean-raw :
      (t : A) (j : ℕ)
      → index_of t types ≡ some j
      → clean types (raw {V = V} (pos j)) ≡ (fail undefined_behaviour, raw (pos j))
  unfolding clean destroy read
  clean-raw t j found = ground (arith, dispatch_tag_found types t j found ok)

  module _ (s : A) (i : ℕ) (w : V) (held : index_of s types ≡ some i) where
    failed_copy :
        (t : A) (j : ℕ) (x : V) (e : Failure)
        → index_of t types ≡ some j
        → ops.copy t x ≡ fail e
        → assign_value ops types t (elsewhere x) (holding i s w) ≡ (fail e, raw (pos j))
    unfolding assign_value init place
    failed_copy t j x e found throws = ground (arith, clean-holding types s i held w, found, throws)

    -- If the copy of the new value throws, the assignment throws what it threw and leaves the
    -- variant with the tag of the new type and no object in its storage, so that the old value is
    -- gone; and the destructor of that variant is undefined.
    pub assign_value_throws :
        (t : A) (j : ℕ) (x : V) (e : Failure)
        → index_of t types ≡ some j
        → ops.copy t x ≡ fail e
        → (assign_value ops types t (elsewhere x) (holding i s w) ≡ (fail e, raw (pos j)))
          × (clean types (assign_value ops types t (elsewhere x) (holding i s w)).1
              ≡ (fail undefined_behaviour, raw (pos j)))
    assign_value_throws t j x e found throws = (
      failed_copy t j x e found throws,
      ap (λ r. clean types r.1) (failed_copy t j x e found throws) ∙ clean-raw t j found,
    )

    -- The assignment of the variant's own value, by the reference that `get` answers, reads that
    -- value after its destructor: it is undefined.
    pub assign_value-own :
        (assign_value ops types s own (holding i s w)).0 ≡ fail undefined_behaviour
    unfolding assign_value read
    assign_value-own = ground (arith, clean-holding types s i held w)
