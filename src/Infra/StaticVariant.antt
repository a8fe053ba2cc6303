-- ===== src/Infra/StaticVariant.antt =====
-- Infra/StaticVariant.hpp, built with exceptions. A type is a value of `A`, as in the lists of
-- types, and the values of all types are of one type `V`: the storage remembers of which type
-- the object in it was made, and a `reinterpret_cast` to another type, or of a dead object, is
-- undefined. A template is taken at the type that its dispatch picks: `ill_formed` says that it
-- has no instance there, and a program that compiles never picks such a type.
pub mod Assign
pub mod Lifecycle
pub mod Sum
pub mod Compare
pub mod Transfer
pub mod Throwing
pub mod Values
mod Tests
use peerplays_contract_node.Prelude.{
  ℕ, Bool, true, false, not, Option, none, some, List, [], ◌∷◌, ◌++◌, length, leb, max, Result, ok,
  fail, Failure, bad_cast, range_error, out_of_range, undefined_behaviour, ill_formed, ◌>>=◌, ltb,
  ◌==◌,
}
use peerplays_contract_node.Prelude.Actions.{Action, ◌>>◌}
use peerplays_contract_node.Prelude.Int.{ℤ, pos, negsuc, ltb_ℤ, ◌==ℤ◌}
use peerplays_contract_node.Infra.TypeList.{Eq, dispatch, index_of, concat_unique}

-- `MaxSize`.
unfoldable pub max_size : {A : Type 0} → (A → ℕ) → List A → ℕ
max_size size [] = 0
max_size size (t ∷ []) = size t
max_size size (t ∷ u ∷ ts) = max (size t) (max_size size (u ∷ ts))

-- What the class asks of its types: the default constructor, the copy, the move, with what it
-- leaves behind, and the two comparisons. The constructors may throw.
pub record Operations (A V : Type 0) : Type 0 where
  pub create : A → Result V
  pub copy : A → V → Result V
  pub move : A → V → Result V × V
  pub equals : A → V → V → Bool
  pub less : A → V → V → Bool

-- `lost` lists the objects that another was made on top of, so that no destructor runs for them.
pub record StaticVariant (A V : Type 0) : Type 0 where
  pub tag : ℤ
  pub storage : Option (A × V)
  pub lost : List (A × V)

abbrev objects : {A V : Type 0} → Option (A × V) → List (A × V)
objects none = []
objects (some o) = o ∷ []

-- `TypeList::runtime::Dispatch` of a tag, which is signed.
unfoldable pub dispatch_tag : {A R : Type 0} → List A → ℤ → (A → Result R) → Result R
unfolding dispatch
dispatch_tag types (pos i) c = dispatch types i c
dispatch_tag types (negsuc n) c = fail out_of_range

-- `tag < 0 || size_t(tag) >= count()`.
unfoldable pub is_bad_tag : {A : Type 0} → List A → ℤ → Bool
is_bad_tag types (pos i) = leb (length types) i
is_bad_tag types (negsuc n) = true

-- The second `static_assert`.
unfoldable pub has_no_duplicates : {A : Type 0} ⦃eq : Eq A⦄ → List A → Bool
has_no_duplicates types = length (concat_unique [] types []) == length types

unfoldable pub which : {A V : Type 0} → StaticVariant A V → ℤ
which v = v.tag

-- `count`.
unfoldable pub count : {A : Type 0} → List A → ℕ
count types = length types

module _ {A V : Type 0} ⦃eq : Eq A⦄ where
  -- A call whose type the dispatch picks.
  abbrev on_type :
      {R : Type 0} → List A → ℤ → (A → Action (StaticVariant A V) R) → Action (StaticVariant A V) R
  on_type types tag c v = elim (dispatch_tag types tag ok) [ ok t ↦ c t v | fail e ↦ (fail e, v) ]

  -- `*reinterpret_cast<X*>(_storage.data())`.
  unfoldable pub read : A → Option (A × V) → Result V
  read t none = fail undefined_behaviour
  read t (some (made, x)) = elim (eq.is_same t made) [
    | true ↦ ok x
    | false ↦ fail undefined_behaviour
  ]

  -- `new(_storage.data()) X(…)`.
  unfoldable pub place : A → Result V → Action (StaticVariant A V) (Unit {0})
  place t (ok x) v = (ok tt, record v { storage = some (t, x); lost = v.lost ++ objects v.storage })
  place t (fail e) v = (fail e, v)

  abbrev pub set_tag : ℤ → StaticVariant A V → StaticVariant A V
  set_tag tag v = record v { tag = tag }

  -- `init`; with a type that is not in the list it does not compile.
  unfoldable pub init : List A → A → Result V → Action (StaticVariant A V) (Unit {0})
  init types t x v = elim (index_of t types) [
    | none ↦ (fail ill_formed, v)
    | some i ↦ place t x (set_tag (pos i) v)
  ]

  -- `get`, of both kinds.
  unfoldable pub get : List A → A → StaticVariant A V → Result V
  get types t v = elim (index_of t types) [
    | none ↦ fail ill_formed
    | some i ↦ elim (v.tag ==ℤ pos i) [ true ↦ read t v.storage | false ↦ fail bad_cast ]
  ]

  unfoldable pub is_type : List A → A → StaticVariant A V → Result Bool
  is_type types t v = elim (index_of t types) [
    | none ↦ fail ill_formed
    | some i ↦ ok (v.tag ==ℤ pos i)
  ]

  -- The destructor of the object in the storage, as one of the type.
  unfoldable pub destroy : A → Action (StaticVariant A V) (Unit {0})
  destroy t v = elim (read t v.storage) [
    | ok x ↦ (ok tt, record v { storage = none })
    | fail e ↦ (fail e, v)
  ]

  -- `clean`, which is also the destructor.
  unfoldable pub clean : List A → Action (StaticVariant A V) (Unit {0})
  clean types v = on_type types v.tag destroy v

  -- The static `visit`, in each of its overloads: a tag and a storage of the caller's.
  unfoldable pub visit : {R : Type 0} → List A → ℤ → (A → V → Result R) → Option (A × V) → Result R
  visit types tag visitor storage = elim (is_bad_tag types tag) [
    | true ↦ fail range_error
    | false ↦ dispatch_tag types tag (λ t. read t storage >>= visitor t)
  ]

  -- The member `visit`, in each of its overloads.
  unfoldable pub visit_own :
      {R : Type 0} → List A → (A → V → Result R) → StaticVariant A V → Result R
  visit_own types visitor v = visit types v.tag visitor v.storage

  module _ (ops : Operations A V) where
    unfoldable pub init_from_tag : List A → ℤ → Action (StaticVariant A V) (Unit {0})
    init_from_tag types tag v = elim (is_bad_tag types tag) [
      | true ↦ (fail bad_cast, v)
      | false ↦ on_type types tag (λ t. place t (ops.create t)) (set_tag tag v)
    ]

    unfoldable pub construct_default : List A → Action (StaticVariant A V) (Unit {0})
    construct_default types v = init_from_tag types (pos 0) v

    unfoldable pub set_which : List A → ℤ → Action (StaticVariant A V) (Unit {0})
    set_which types tag v = elim (is_bad_tag types tag) [
      | true ↦ (fail range_error, v)
      | false ↦ (clean types >> init_from_tag types tag) v
    ]
