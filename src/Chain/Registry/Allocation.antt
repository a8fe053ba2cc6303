-- ===== src/Chain/Registry/Allocation.antt =====
-- What contracts are promised of their records: an allocation of numbers to names.
use peerplays_contract_node.Prelude.{
  ℕ, ◌≡◌, sym, ◌∙◌, ◌≢◌, Option, none, some, List, [], ◌∷◌, String, str_eq, str_eq_iff,
  if◌then◌else◌, arith, All,
}
pub mod Calls

-- The numbers that names have.
abbrev pub Numbers : Type 0
Numbers = String → Option ℕ

-- A name that asks for a number gets the one that it has, or one that no name has.
pub data Assigns (before : Numbers) (name : String) (number : ℕ) (later : Numbers) : Type 0 where
  known :
      before name ≡ some number
      → ((other : String) → later other ≡ before other)
      → Assigns before name number later
  given_new :
      before name ≡ none
      → ((other : String) (i : ℕ) → before other ≡ some i → number ≢ i)
      → ((other : String) → later other ≡ (if str_eq other name then some number else before other))
      → Assigns before name number later

-- Names that ask in turn, with the numbers that they get.
pub data Allocates : Numbers → List (String × ℕ) → Numbers → Type 0 where
  nothing_asked : {before : Numbers} → Allocates before [] before
  asked_first :
      {before between later : Numbers} {name : String} {number : ℕ} {rest : List (String × ℕ)}
      → Assigns before name number between
      → Allocates between rest later
      → Allocates before ((name, number) ∷ rest) later

Assigns-keeps :
    {before later : Numbers} {name : String} {number : ℕ}
    → Assigns before name number later
    → (other : String) (i : ℕ) → before other ≡ some i
    → later other ≡ some i
Assigns-keeps {before} {later} {name} (known e same) other i f = same other ∙ f
Assigns-keeps {before} {later} {name} (given_new e fresh added) other i f =
    ground (arith, added other, str_eq_iff other name)

Assigns-answers :
    {before later : Numbers} {name : String} {number : ℕ}
    → Assigns before name number later
    → later name ≡ some number
Assigns-answers {before} {later} {name} (known e same) = same name ∙ e
Assigns-answers {before} {later} {name} (given_new e fresh added) =
    ground (arith, added name, str_eq_iff name name)

abbrev pub IsInjective : Numbers → Type 0
IsInjective numbers = (a b : String) (i : ℕ) → numbers a ≡ some i → numbers b ≡ some i → a ≡ b

Assigns-IsInjective :
    {before later : Numbers} {name : String} {number : ℕ}
    → Assigns before name number later
    → IsInjective before
    → IsInjective later
Assigns-IsInjective (known e same) once a b i f g = once a b i (sym (same a) ∙ f) (sym (same b) ∙ g)
Assigns-IsInjective {before} {later} {name} (given_new e fresh added) once a b i f g = ground (
  arith,
  added a,
  added b,
  str_eq_iff a name,
  str_eq_iff b name,
  once a b i,
  fresh a i,
  fresh b i,
)

pub Allocates-keeps :
    {before later : Numbers} {asked : List (String × ℕ)}
    → Allocates before asked later
    → (other : String) (i : ℕ) → before other ≡ some i
    → later other ≡ some i
Allocates-keeps nothing_asked other i e = e
Allocates-keeps (asked_first first rest) other i e =
    Allocates-keeps rest other i (Assigns-keeps first other i e)

pub Allocates-answers :
    {before later : Numbers} {asked : List (String × ℕ)}
    → Allocates before asked later
    → All (λ x. later x.0 ≡ some x.1) asked
Allocates-answers nothing_asked = tt
Allocates-answers (asked_first {name = name} {number = number} first rest) =
    (Allocates-keeps rest name number (Assigns-answers first), Allocates-answers rest)

pub Allocates-IsInjective :
    {before later : Numbers} {asked : List (String × ℕ)}
    → Allocates before asked later
    → IsInjective before
    → IsInjective later
Allocates-IsInjective nothing_asked once = once
Allocates-IsInjective (asked_first first rest) once =
    Allocates-IsInjective rest (Assigns-IsInjective first once)
