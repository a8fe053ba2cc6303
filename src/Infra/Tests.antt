-- ===== src/Infra/Tests.antt =====
-- Lists of numbers for lists of types, two APIs, and the theorems at them.
use peerplays_contract_node.Prelude.{
  false, length, All, ℕ, ◌≡◌, ◌||◌, List, [], ◌∷◌, arith, ◌==◌, ==_iff,
}
use peerplays_contract_node.Infra.TypeList.{Eq, contains, concat_unique}
use peerplays_contract_node.Infra.TypeList.Uniques.{NoRepeats, any_contains, concat_unique_lem}
use peerplays_contract_node.Infra.Strings.{StringT, split_string}
use peerplays_contract_node.Infra.Strings.Split.{IsPart, split_string-terminated}
use peerplays_contract_node.Infra.Api.{ApiDemarcation, in_category}
use peerplays_contract_node.Infra.Demarcation.{MethodDemarcation}

abbrev numbers : Eq ℕ
numbers = record { is_same = λ a b. a == b; is_same_iff = ==_iff }

abbrev four : List ℕ
four = 7 ∷ 8 ∷ 7 ∷ 9 ∷ []

one_clean : NoRepeats ⦃eq = numbers⦄ (8 ∷ [])
one_clean = (tt, tt)

concat_unique_lem_example :
    NoRepeats ⦃eq = numbers⦄ (concat_unique ⦃eq = numbers⦄ (8 ∷ []) four ((9 ∷ 6 ∷ []) ∷ []))
    × ((s : ℕ)
        → contains ⦃eq = numbers⦄ (concat_unique ⦃eq = numbers⦄ (8 ∷ []) four ((9 ∷ 6 ∷ []) ∷ [])) s
          ≡ (contains ⦃eq = numbers⦄ (8 ∷ []) s
              || any_contains ⦃eq = numbers⦄ s (four ∷ (9 ∷ 6 ∷ []) ∷ [])))
concat_unique_lem_example =
    concat_unique_lem ⦃eq = numbers⦄ (8 ∷ []) four ((9 ∷ 6 ∷ []) ∷ []) one_clean

-- The strings "a", "b" and "xy"; the code of the slash is 47.
abbrev a : StringT
a = 97 ∷ []

abbrev b : StringT
b = 98 ∷ []

abbrev xy : StringT
xy = 120 ∷ 121 ∷ []

path-IsPart : All (IsPart 47) (a ∷ b ∷ [])
path-IsPart = (((λ e. absurd (omega (arith, e))), tt), (((λ e. absurd (omega (arith, e))), tt), tt))

split_string-terminated_example : split_string (97 ∷ 47 ∷ 98 ∷ 47 ∷ []) 47 ≡ a ∷ b ∷ []
split_string-terminated_example = split_string-terminated 47 (a ∷ b ∷ []) path-IsPart

abbrev api : ApiDemarcation
api = record { categorization = a ∷ b ∷ []; name = xy }

abbrev other : ApiDemarcation
other = in_category b xy

-- The allocator of an API answers the length of the object's list with the API's name.
abbrev allocator : ApiDemarcation → MethodDemarcation (List StringT) ℕ
allocator d = record { argument_count = 0; is_const = false; method = λ o. length (d.name ∷ o) }
