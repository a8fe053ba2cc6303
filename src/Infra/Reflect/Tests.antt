-- ===== src/Infra/Reflect/Tests.antt =====
-- A struct of two members, and the theorems at it.
use peerplays_contract_node.Prelude.{
  ℕ, ◌≡◌, refl, List, [], ◌∷◌, ◌++◌, some, String, map, length, get_elem?, ok, fail, ill_formed,
}
use peerplays_contract_node.Infra.Reflect.{
  field_reflection, Reflector, MemberName, Object, get_member, get_name, reflect, reflect_derived,
}
use peerplays_contract_node.Infra.Reflect.Members.{reflect_lem}

abbrev bet : List String
bet = "player" ∷ "amount" ∷ []

-- The names of another struct.
abbrev others : List MemberName
others = record { container = "Table"; index = 0; value = "seats" } ∷ []

reflect_lem_example :
    (r : Reflector) × (made : List MemberName) × (reflect "Bet" bet ≡ ok (r, made))
    × (length r.members ≡ 2)
    × ((i : ℕ) (member : String)
        → get_elem? bet i ≡ some member
        → (get_elem? r.members i ≡ some (field_reflection i "Bet" member))
          × (get_name (made ++ others) (field_reflection i "Bet" member) ≡ ok member))
    × ((o : Object ℕ) → map (λ f. get_member f o) r.members ≡ map (o "Bet") bet)
reflect_lem_example = reflect_lem "Bet" bet others

-- A struct with a base class does not compile.
derived_run : reflect_derived "Large" ("Bet" ∷ []) bet ≡ fail ill_formed
unfolding reflect_derived
derived_run = refl
