-- ===== src/Infra/StaticVariant/Assign.antt =====
-- The constructors of a variant from another, its assignments, `ImportFrom` and the comparisons.
use peerplays_contract_node.Prelude.{
  Bool, true, false, not, Option, none, some, List, Result, ok, fail, bad_cast, ◌>>=◌,
}
use peerplays_contract_node.Prelude.Actions.{Action, ◌>>◌}
use peerplays_contract_node.Prelude.Int.{ltb_ℤ, ◌==ℤ◌}
use peerplays_contract_node.Infra.TypeList.{Eq, index_of}
use peerplays_contract_node.Infra.StaticVariant.{
  Operations, StaticVariant, on_type, dispatch_tag, read, init, get, clean,
}

module _ {A V : Type 0} ⦃eq : Eq A⦄ (ops : Operations A V) where
  -- The constructors from a value: of a reference, and of one that is moved from, which is beside
  -- the variant in the state.
  unfoldable pub construct_value : List A → A → V → Action (StaticVariant A V) (Unit {0})
  construct_value types t x v = init types t (ops.copy t x) v

  unfoldable pub construct_moved : List A → A → Action (StaticVariant A V × V) (Unit {0})
  construct_moved types t (v, x) =
      let (moved, left) = ops.move t x in let (r, made) = init types t moved v in (r, (made, left))

  -- The copy constructors: from a variant of these types or of others.
  unfoldable pub construct_copy :
      List A → List A → StaticVariant A V → Action (StaticVariant A V) (Unit {0})
  construct_copy types others other v =
      on_type others other.tag
        (λ t fresh. elim (get others t other) [
          | fail e ↦ (fail e, fresh)
          | ok x ↦ init types t (ops.copy t x) fresh
        ])
        v

  -- What the move of the object leaves in the other variant.
  abbrev left_in : A → V → StaticVariant A V → StaticVariant A V
  left_in t x other = record other { storage = some (t, (ops.move t x).1) }

  -- The move constructors; the state has the other variant beside this one.
  unfoldable pub construct_move :
      List A → List A → Action (StaticVariant A V × StaticVariant A V) (Unit {0})
  construct_move types others (v, other) = elim (dispatch_tag others other.tag ok) [
    | fail e ↦ (fail e, (v, other))
    | ok t ↦ elim (get others t other) [
      | fail e ↦ (fail e, (v, other))
      | ok x ↦ let (r, made) = init types t (ops.move t x).0 v in (r, (made, left_in t x other))
    ]
  ]

  -- The argument of an assignment: a value elsewhere, or the one in the variant itself, to which
  -- `get` has given a reference.
  pub data Argument : Type 0 where
    elsewhere : V → Argument
    own : Argument

  abbrev value_of : A → Argument → StaticVariant A V → Result V
  value_of t (elsewhere x) v = ok x
  value_of t own v = read t v.storage

  unfoldable pub assign_value : List A → A → Argument → Action (StaticVariant A V) (Unit {0})
  assign_value types t a v =
      (clean types >> λ after. elim (value_of t a after) [
        | fail e ↦ (fail e, after)
        | ok x ↦ init types t (ops.copy t x) after
      ])
        v

  -- The assignment of another variant, and of itself.
  unfoldable pub assign_copy :
      List A → Option (StaticVariant A V) → Action (StaticVariant A V) (Unit {0})
  assign_copy types none v = (ok tt, v)
  assign_copy types (some other) v = (clean types >> construct_copy types types other) v

  -- The move assignment from another variant.
  unfoldable pub assign_move : List A → Action (StaticVariant A V × StaticVariant A V) (Unit {0})
  assign_move types (v, other) =
      let (r, cleaned) = clean types v in
      elim r [
        | ok u ↦ construct_move types types (cleaned, other)
        | fail e ↦ (fail e, (cleaned, other))
      ]

  -- The move assignment of itself.
  unfoldable pub assign_move_self : Action (StaticVariant A V) (Unit {0})
  assign_move_self v = (ok tt, v)

  -- `ImportFrom`, into a new variant.
  unfoldable pub import_from :
      List A → List A → StaticVariant A V → Action (StaticVariant A V) (Unit {0})
  import_from types others other v =
      on_type others other.tag
        (λ t fresh. elim (get others t other) [
          | fail e ↦ (fail e, fresh)
          | ok x ↦ elim (index_of t types) [
            | none ↦ (fail bad_cast, fresh)
            | some i ↦ init types t (ops.copy t x) fresh
          ]
        ])
        v

  -- `operator==`.
  unfoldable pub equal : List A → StaticVariant A V → StaticVariant A V → Result Bool
  equal types a b = elim (not (a.tag ==ℤ b.tag)) [
    | true ↦ ok false
    | false ↦
        dispatch_tag types a.tag
          λ t. get types t a >>= λ x. get types t b >>= λ y. ok (ops.equals t x y)
  ]

  -- `operator<`.
  unfoldable pub less_than : List A → StaticVariant A V → StaticVariant A V → Result Bool
  less_than types a b = elim (ltb_ℤ a.tag b.tag) [
    | true ↦ ok true
    | false ↦ elim (ltb_ℤ b.tag a.tag) [
      | true ↦ ok false
      | false ↦
          dispatch_tag types a.tag
            λ t. get types t a >>= λ x. get types t b >>= λ y. ok (ops.less t x y)
    ]
  ]

  -- `operator!=`.
  unfoldable pub not_equal : List A → StaticVariant A V → StaticVariant A V → Result Bool
  not_equal types a b = equal types a b >>= λ same. ok (not same)
