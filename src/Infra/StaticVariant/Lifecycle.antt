-- ===== src/Infra/StaticVariant/Lifecycle.antt =====
-- Variants that hold a value of one of their types, and the steps that make, read and end them.
use peerplays_contract_node.Prelude.{
  ℕ, ◌≡◌, refl, true, false, none, some, List, [], length, get_elem?, get_elem?-within, leb, arith,
  Result, ok, ==_iff, Bool-cases, inl, inr,
}
use peerplays_contract_node.Prelude.Int.{ℤ, pos, negsuc}
use peerplays_contract_node.Infra.TypeList.{Eq, index_of, dispatch}
use peerplays_contract_node.Infra.TypeList.Uniques.{NoRepeats, index_of_found}
use peerplays_contract_node.Infra.TypeList.Distinct.{NoRepeats-length}
use peerplays_contract_node.Infra.StaticVariant.{
  StaticVariant, Operations, read, place, init, get, clean, destroy, dispatch_tag, is_bad_tag,
  init_from_tag, has_no_duplicates,
}

-- No object: before a constructor, and after the destructor.
abbrev pub raw : {A V : Type 0} → ℤ → StaticVariant A V
raw tag = record { tag = tag; storage = none; lost = [] }

-- The variant that holds a value of the type with the index.
abbrev pub holding : {A V : Type 0} → ℕ → A → V → StaticVariant A V
holding i t x = record { tag = pos i; storage = some (t, x); lost = [] }

module _ {A : Type 0} ⦃eq : Eq A⦄ where
  pub is_same_self : (t : A) → eq.is_same t t ≡ true
  is_same_self t = (eq.is_same_iff t t).1 refl

  -- A tag in range names a type.
  pub good_tag :
      {R : Type 0} (types : List A) (tag : ℤ) (c : A → Result R)
      → is_bad_tag types tag ≡ false
      → (i : ℕ) × (t : A) × (tag ≡ pos i)
        × (get_elem? types i ≡ some t)
        × (dispatch_tag types tag c ≡ c t)
  unfolding is_bad_tag dispatch_tag
  good_tag types (negsuc n) c h = cc
  good_tag types (pos i) c h =
      let (t, e) = get_elem?-within types i (ground arith) in
      (i, t, refl, e, unfold dispatch in ground (arith, e))

  pub has_no_duplicates-NoRepeats :
      (types : List A) → has_no_duplicates types ≡ true → NoRepeats types
  unfolding has_no_duplicates
  has_no_duplicates-NoRepeats types h = NoRepeats-length types ((==_iff _ _).0 h)

  pub bad_tag :
      (types : List A) (i : ℕ) → get_elem? types i ≡ none → is_bad_tag types (pos i) ≡ true
  unfolding is_bad_tag
  bad_tag types i e = elim (Bool-cases (leb (length types) i)) [
    | inl past ↦ past
    | inr within ↦ let (t, there) = get_elem?-within types i (ground arith) in absurd (ground arith)
  ]

  module _ (types : List A) (t : A) (i : ℕ) (found : index_of t types ≡ some i) where
    pub type_at : get_elem? types i ≡ some t
    type_at = (index_of_found t types i found).0

    pub in_range : is_bad_tag types (pos i) ≡ false
    unfolding is_bad_tag
    in_range = ground (arith, (index_of_found t types i found).2)

    pub dispatch_tag_found : {R : Type 0} (c : A → Result R) → dispatch_tag types (pos i) c ≡ c t
    unfolding dispatch_tag dispatch
    dispatch_tag_found c = ground (arith, type_at)

module _ {A V : Type 0} ⦃eq : Eq A⦄ where
  module _ (types : List A) (t : A) (i : ℕ) (found : index_of t types ≡ some i) where
    pub init-raw : (tag : ℤ) (x : V) → init types t (ok x) (raw tag) ≡ (ok tt, holding i t x)
    unfolding init place
    init-raw tag x = ground (arith, found)

    pub clean-holding : (x : V) → clean types (holding i t x) ≡ (ok tt, raw (pos i))
    unfolding clean destroy read
    clean-holding x = ground (arith, dispatch_tag_found types t i found ok, is_same_self t)

    pub get-holding : (x : V) → get types t (holding i t x) ≡ ok x
    unfolding get read
    get-holding x = ground (arith, found, is_same_self t)

  pub init_from_tag-raw :
      (ops : Operations A V) (types : List A) (t : A) (i : ℕ) (tag : ℤ) (x : V)
      → index_of t types ≡ some i
      → ops.create t ≡ ok x
      → init_from_tag ops types (pos i) (raw tag) ≡ (ok tt, holding i t x)
  unfolding init_from_tag place
  init_from_tag-raw ops types t i tag x found made =
      ground (arith, in_range types t i found, dispatch_tag_found types t i found ok, made)
