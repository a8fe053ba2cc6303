-- ===== src/Infra/Strings.antt =====
-- Infra/Utilities.hpp: `SplitStringT` and the equality of compile-time strings. A `StringT` is the
-- list of its characters' codes.
pub mod Split
use peerplays_contract_node.Prelude.{ℕ, Bool, true, false, List, [], ◌∷◌, ◌++◌, length, ◌==◌, ◌&&◌}
use peerplays_contract_node.Infra.TypeList.{append}

abbrev pub StringT : Type 0
StringT = List ℕ

-- The conjunction over the characters of two strings of one length.
unfoldable pub same_chars : StringT → StringT → Bool
same_chars [] t = true
same_chars (c ∷ s) [] = true
same_chars (c ∷ s) (d ∷ t) = c == d && same_chars s t

-- `operator==`.
unfoldable pub same_string : StringT → StringT → Bool
same_string s t = elim (length s == length t) [ true ↦ same_chars s t | false ↦ false ]

-- `SplitStringImpl`: the string, the delimiter, the current part, and the parts so far.
unfoldable pub split_onto : StringT → ℕ → StringT → List StringT → List StringT
split_onto [] delimiter [] result = result
split_onto [] delimiter (k ∷ ks) result = append result (k ∷ ks)
split_onto (c ∷ cs) delimiter [] result = elim (c == delimiter) [
  | true ↦ split_onto cs delimiter [] result
  | false ↦ split_onto cs delimiter (c ∷ []) result
]
split_onto (c ∷ cs) delimiter (k ∷ ks) result = elim (c == delimiter) [
  | true ↦ split_onto cs delimiter [] (append result (k ∷ ks))
  | false ↦ split_onto cs delimiter (k ∷ (ks ++ c ∷ [])) result
]

unfoldable pub split_string : StringT → ℕ → List StringT
split_string s delimiter = split_onto s delimiter [] []
