-- ===== src/Infra/StaticVariant/Compare.antt =====
-- The comparisons of two variants of one list of types.
use peerplays_contract_node.Prelude.{
  ◌≡◌, ap, Bool, true, ◌&&◌, List, get_elem?, arith, Result, ok, ltb, ◌>>=◌, ◌||◌, ◌==◌,
}
use peerplays_contract_node.Prelude.Int.{pos}
use peerplays_contract_node.Infra.TypeList.{Eq}
use peerplays_contract_node.Infra.StaticVariant.{Operations, get, dispatch_tag}
use peerplays_contract_node.Infra.StaticVariant.Assign.{equal, less_than}
use peerplays_contract_node.Infra.StaticVariant.Lifecycle.{type_at, dispatch_tag_found, get-holding}
use peerplays_contract_node.Infra.StaticVariant.Sum.{Value, IsOf, represent}

module _ {A V : Type 0} ⦃eq : Eq A⦄ (ops : Operations A V) (types : List A) where
  same_type : (a b : Value A V) → IsOf types a → IsOf types b → a.index ≡ b.index → a.type ≡ b.type
  same_type a b h k e = ground (
    arith,
    type_at types a.type a.index h,
    type_at types b.type b.index k,
    ap (get_elem? types) e,
  )

  module _ (test : A → V → V → Bool) (a b : Value A V) where
    abbrev by_values : A → Result Bool
    by_values t = get types t (represent types a) >>= λ x.
        get types t (represent types b) >>= λ y. ok (test t x y)

    -- With types of one position the test is that of the type.
    dispatched :
        IsOf types a
        → IsOf types b
        → a.index ≡ b.index
        → dispatch_tag types (pos a.index) by_values ≡ ok (test a.type a.value b.value)
    dispatched h k e = ground (
      arith,
      dispatch_tag_found types a.type a.index h by_values,
      get-holding types a.type a.index h a.value,
      get-holding types b.type b.index k b.value,
      same_type a b h k e,
    )

  -- Variants are equal if they hold types of the same position, and equal values of it.
  pub equal_lem :
      (a b : Value A V)
      → IsOf types a
      → IsOf types b
      → equal ops types (represent types a) (represent types b)
        ≡ ok (a.index == b.index && ops.equals a.type a.value b.value)
  unfolding equal
  equal_lem a b h k = ground (arith, dispatched ops.equals a b h k)

  -- Variants are ordered by the positions of their types, and by their values within a type.
  pub less_than_lem :
      (a b : Value A V)
      → IsOf types a
      → IsOf types b
      → less_than ops types (represent types a) (represent types b)
        ≡ ok (ltb a.index b.index || a.index == b.index && ops.less a.type a.value b.value)
  unfolding less_than
  less_than_lem a b h k = ground (arith, dispatched ops.less a b h k)

  -- If the order on the values of each type is transitive, so is the order on variants, across
  -- types too.
  pub less_than_trans :
      ((t : A) (x y z : V) → ops.less t x y ≡ true → ops.less t y z ≡ true → ops.less t x z ≡ true)
      → (a b c : Value A V) → IsOf types a
      → IsOf types b
      → IsOf types c
      → less_than ops types (represent types a) (represent types b) ≡ ok true
      → less_than ops types (represent types b) (represent types c) ≡ ok true
      → less_than ops types (represent types a) (represent types c) ≡ ok true
  less_than_trans trans a b c h k l p q = ground (
    arith,
    less_than_lem a b h k,
    less_than_lem b c k l,
    less_than_lem a c h l,
    same_type a b h k,
    trans a.type a.value b.value c.value,
  )
