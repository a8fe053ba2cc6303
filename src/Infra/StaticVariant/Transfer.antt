-- ===== src/Infra/StaticVariant/Transfer.antt =====
-- Values that go from one variant to another, of other types too.
use peerplays_contract_node.Prelude.{
  ℕ, ◌≡◌, refl, ap, Option, none, some, List, arith, Result, ok, fail, bad_cast,
}
use peerplays_contract_node.Prelude.Int.{ℤ, pos}
use peerplays_contract_node.Infra.TypeList.{Eq, index_of}
use peerplays_contract_node.Infra.StaticVariant.{StaticVariant, Operations, clean}
use peerplays_contract_node.Infra.StaticVariant.Assign.{
  construct_copy, construct_move, assign_move, import_from,
}
use peerplays_contract_node.Infra.StaticVariant.Lifecycle.{
  raw, holding, dispatch_tag_found, init-raw, clean-holding, get-holding,
}
use peerplays_contract_node.Infra.StaticVariant.Sum.{NoThrow}

module _ {A V : Type 0} ⦃eq : Eq A⦄ (ops : Operations A V) (types others : List A) (t : A) (j : ℕ)
    (found : index_of t others ≡ some j) where
  abbrev pub imported : V → ℤ → Option ℕ → Result (Unit {0}) × StaticVariant A V
  imported x junk none = (fail bad_cast, raw junk)
  imported x junk (some i) = (ok tt, holding i t x)

  -- An import from a variant of other types, of which the compiler knows no more than the lists,
  -- takes the value if its type is one of this variant's, and throws a `bad_cast` if it is not,
  -- when no constructor throws.
  pub import_from_lem :
      (x : V) (junk : ℤ)
      → NoThrow ops
      → import_from ops types others (holding j t x) (raw junk) ≡ imported x junk (index_of t types)
  unfolding import_from
  import_from_lem x junk total = by_type (index_of t types) refl
    where
      by_type :
          (o : Option ℕ)
          → index_of t types ≡ o
          → import_from ops types others (holding j t x) (raw junk) ≡ imported x junk o
      by_type none e =
          ground (arith, dispatch_tag_found others t j found ok, get-holding others t j found x)
      by_type (some i) e = ground (
        arith,
        dispatch_tag_found others t j found ok,
        get-holding others t j found x,
        total.copies t x,
        init-raw types t i e junk x,
      )

  module _ (i : ℕ) (here : index_of t types ≡ some i) (total : NoThrow ops) where
    -- A copy into a variant that has the type, and the import of that back, is the variant at first.
    pub import_from-construct_copy :
        (x : V) (junk scrap : ℤ)
        → (copied : StaticVariant A V) × (construct_copy ops types others (holding j t x) (raw junk)
            ≡ (ok tt, copied))
          × (import_from ops others types copied (raw scrap) ≡ (ok tt, holding j t x))
    unfolding construct_copy import_from
    import_from-construct_copy x junk scrap = (
      holding i t x,
      ground (
        arith,
        dispatch_tag_found others t j found ok,
        get-holding others t j found x,
        total.copies t x,
        init-raw types t i here junk x,
      ),
      ground (
        arith,
        found,
        dispatch_tag_found types t i here ok,
        get-holding types t i here x,
        total.copies t x,
        init-raw others t j found scrap x,
      ),
    )

  -- A move constructor that does not throw takes the value over; the other variant keeps its tag
  -- and what the move has left of its object, so that its own destructor still runs.
  pub construct_move_lem :
      (i : ℕ) (x y rest : V) (junk : ℤ)
      → index_of t types ≡ some i
      → ops.move t x ≡ (ok y, rest)
      → (construct_move ops types others (raw junk, holding j t x)
          ≡ (ok tt, (holding i t y, holding j t rest)))
        × (clean others (holding j t rest) ≡ (ok tt, raw (pos j)))
  unfolding construct_move
  construct_move_lem i x y rest junk here moved = (
    ground (
      arith,
      dispatch_tag_found others t j found ok,
      get-holding others t j found x,
      ap (λ r. r.0) moved,
      ap (λ r. r.1) moved,
      init-raw types t i here junk y,
    ),
    clean-holding others t j found rest,
  )

-- A move assignment destroys the value that it replaces, and leaves both variants holding one.
pub assign_move_lem :
    {A V : Type 0} ⦃eq : Eq A⦄ (ops : Operations A V) (types : List A) (s t : A) (i j : ℕ)
    (w x y rest : V)
    → index_of s types ≡ some i
    → index_of t types ≡ some j
    → ops.move t x ≡ (ok y, rest)
    → assign_move ops types (holding i s w, holding j t x)
      ≡ (ok tt, (holding j t y, holding j t rest))
unfolding assign_move
assign_move_lem ops types s t i j w x y rest h k moved = ground (
  arith,
  clean-holding types s i h w,
  (construct_move_lem ops types types t j k j x y rest (pos i) k moved).0,
)
