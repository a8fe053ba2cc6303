-- ===== src/Infra/StaticVariant/Sum.antt =====
-- What a variant promises: it is a value of one of its types, whatever is done to it, and every
-- object that is made in it is destroyed.
use peerplays_contract_node.Prelude.{
  ℕ, ◌≡◌, refl, ap, ◌∙◌, true, Option, none, some, List, [], ◌∷◌, get_elem?, All, arith, Result, ok,
  fail, bad_cast, range_error, ◌≢◌, ==_iff,
}
use peerplays_contract_node.Prelude.Actions.{Action}
use peerplays_contract_node.Prelude.Int.{ℤ, pos, negsuc}
use peerplays_contract_node.Infra.TypeList.{Eq, index_of}
use peerplays_contract_node.Infra.TypeList.Uniques.{NoRepeats}
use peerplays_contract_node.Infra.TypeList.Distinct.{index_of-get_elem?}
use peerplays_contract_node.Infra.StaticVariant.{
  StaticVariant, Operations, get, clean, is_bad_tag, construct_default, set_which,
  has_no_duplicates,
}
use peerplays_contract_node.Infra.StaticVariant.Assign.{
  elsewhere, own, construct_copy, construct_move, assign_value, assign_copy, assign_move,
  assign_move_self,
}
use peerplays_contract_node.Infra.StaticVariant.Lifecycle.{
  raw, holding, bad_tag, in_range, dispatch_tag_found, init-raw, clean-holding, get-holding,
  init_from_tag-raw, has_no_duplicates-NoRepeats,
}

-- The value of the sum type, with its position.
pub record Value (A V : Type 0) : Type 0 where
  pub index : ℕ
  pub type : A
  pub value : V

-- Constructors that do not throw; a copy is equal to its original.
pub record NoThrow {A V : Type 0} (ops : Operations A V) : Type 0 where
  pub default_value : A → V
  pub creates : (t : A) → ops.create t ≡ ok (default_value t)
  pub copies : (t : A) (x : V) → ops.copy t x ≡ ok x

-- What is moved is equal to its original.
abbrev pub Moves : {A V : Type 0} → Operations A V → Type 0
Moves ops = (t : _) (x : _) → (ops.move t x).0 ≡ ok x

-- What a program does with a variant between its construction and its end: the assignments of a
-- value elsewhere, of its own value through the reference that `get` of a type answers, of another
-- variant and of itself, the two of these as moves, and `set_which`. The type of an assignment has
-- the position of its first argument, which the compiler finds.
pub data Command (A V : Type 0) : Type 0 where
  assign : Value A V → Command A V
  assign_own : A → ℕ → Command A V
  assign_from : Value A V → Command A V
  assign_self : Command A V
  move_from : Value A V → Command A V
  move_self : Command A V
  choose : ℤ → Command A V

module _ {A V : Type 0} ⦃eq : Eq A⦄ (types : List A) where
  abbrev pub IsOf : Value A V → Type 0
  IsOf a = index_of a.type types ≡ some a.index

  -- The types of the command are in the list, or it would not compile.
  abbrev pub Compiles : Command A V → Type 0
  Compiles (assign a) = IsOf a
  Compiles (assign_from a) = IsOf a
  Compiles assign_self = Unit {0}
  Compiles (assign_own t i) = index_of t types ≡ some i
  Compiles (move_from a) = IsOf a
  Compiles move_self = Unit {0}
  Compiles (choose tag) = Unit {0}

  abbrev pub represent : Value A V → StaticVariant A V
  represent a = holding a.index a.type a.value

  module _ (ops : Operations A V) where
    unfoldable pub perform : Command A V → Action (StaticVariant A V) (Unit {0})
    perform (assign a) v = assign_value ops types a.type (elsewhere a.value) v
    perform (assign_from a) v = assign_copy ops types (some (represent a)) v
    perform assign_self v = assign_copy ops types none v
    perform (assign_own t i) v = elim (get types t v) [
      | ok x ↦ assign_value ops types t own v
      | fail e ↦ (fail e, v)
    ]
    perform (move_from a) v =
        let (r, after) = assign_move ops types (v, represent a) in (r, after.0)
    perform move_self v = assign_move_self ops v
    perform (choose tag) v = set_which ops types tag v

    -- The caller catches what a command throws, and goes on.
    unfoldable pub perform_all :
        List (Command A V) → StaticVariant A V → List (Result (Unit {0})) × StaticVariant A V
    perform_all [] v = ([], v)
    perform_all (c ∷ cs) v =
        let (r, after) = perform c v in let (rs, last) = perform_all cs after in (r ∷ rs, last)

    module _ (total : NoThrow ops) where
      -- The sum: a command replaces the value, or throws and leaves it.
      abbrev chosen : ℕ → Value A V → Option A → Result (Unit {0}) × Value A V
      chosen i a (some t) = (ok tt, record { index = i; type = t; value = total.default_value t })
      chosen i a none = (fail range_error, a)

      abbrev pub specify : Command A V → Value A V → Result (Unit {0}) × Value A V
      specify (assign b) a = (ok tt, b)
      specify (assign_from b) a = (ok tt, b)
      specify assign_self a = (ok tt, a)
      specify (assign_own t i) a = (fail bad_cast, a)
      specify (move_from b) a = (ok tt, b)
      specify move_self a = (ok tt, a)
      specify (choose (pos i)) a = chosen i a (get_elem? types i)
      specify (choose (negsuc n)) a = (fail range_error, a)

      abbrev pub specify_all : List (Command A V) → Value A V → List (Result (Unit {0})) × Value A V
      specify_all [] a = ([], a)
      specify_all (c ∷ cs) a =
          let (r, after) = specify c a in let (rs, last) = specify_all cs after in (r ∷ rs, last)

      -- An assignment of the variant's own value finds none of its type.
      abbrev pub IsDefined : Command A V → Value A V → Type 0
      IsDefined (assign b) a = Unit {0}
      IsDefined (assign_own t i) a = i ≢ a.index
      IsDefined (assign_from b) a = Unit {0}
      IsDefined assign_self a = Unit {0}
      IsDefined (move_from b) a = Unit {0}
      IsDefined move_self a = Unit {0}
      IsDefined (choose tag) a = Unit {0}

      abbrev pub AreDefined : List (Command A V) → Value A V → Type 0
      AreDefined [] a = Unit {0}
      AreDefined (c ∷ cs) a = IsDefined c a × AreDefined cs (specify c a).1

      module _ (moves : Moves ops) (distinct : NoRepeats types) where
        perform-represent :
            (c : Command A V) (a : Value A V)
            → IsOf a
            → Compiles c
            → IsDefined c a
            → (perform c (represent a) ≡ ((specify c a).0, represent (specify c a).1))
              × IsOf (specify c a).1
        unfolding perform assign_value assign_copy assign_move assign_move_self construct_copy
            construct_move set_which get
        perform-represent (assign b) a h k d = (
          ground (
            arith,
            clean-holding types a.type a.index h a.value,
            total.copies b.type b.value,
            init-raw types b.type b.index k (pos a.index) b.value,
          ),
          k,
        )
        perform-represent (assign_from b) a h k d = (
          ground (
            arith,
            clean-holding types a.type a.index h a.value,
            dispatch_tag_found types b.type b.index k ok,
            get-holding types b.type b.index k b.value,
            total.copies b.type b.value,
            init-raw types b.type b.index k (pos a.index) b.value,
          ),
          k,
        )
        perform-represent assign_self a h k d = (refl, h)
        perform-represent move_self a h k d = (refl, h)
        perform-represent (assign_own t i) a h k d = (ground (arith, k, d, ==_iff a.index i), h)
        perform-represent (move_from b) a h k d = (
          ground (
            arith,
            clean-holding types a.type a.index h a.value,
            dispatch_tag_found types b.type b.index k ok,
            get-holding types b.type b.index k b.value,
            moves b.type b.value,
            init-raw types b.type b.index k (pos a.index) b.value,
          ),
          k,
        )
        perform-represent (choose (negsuc n)) a h k d = (unfold is_bad_tag in refl, h)
        perform-represent (choose (pos i)) a h k d = by_type (get_elem? types i) refl
          where
            by_type :
                (o : Option A)
                → get_elem? types i ≡ o
                → (perform (choose (pos i)) (represent a)
                    ≡ ((chosen i a o).0, represent (chosen i a o).1))
                  × IsOf (chosen i a o).1
            by_type none e = (ground (arith, bad_tag types i e), h)
            by_type (some t) e =
                let k = index_of-get_elem? types t i distinct e in
                (
                  ground (
                    arith,
                    clean-holding types a.type a.index h a.value,
                    in_range types t i k,
                    init_from_tag-raw ops types t i (pos a.index) (total.default_value t) k
                        (total.creates t),
                  ),
                  k,
                )

        perform_all-represent :
            (cs : List (Command A V)) (a : Value A V)
            → IsOf a
            → All Compiles cs
            → AreDefined cs a
            → (perform_all cs (represent a)
                ≡ ((specify_all cs a).0, represent (specify_all cs a).1))
              × IsOf (specify_all cs a).1
        unfolding perform_all
        perform_all-represent [] a h k d = (refl, h)
        perform_all-represent (c ∷ cs) a h (k, ks) (d, ds) =
            let (here, h') = perform-represent c a h k d in
            let (later, last) = perform_all-represent cs (specify c a).1 h' ks ds in
            (rw here (rw later refl), last)

      -- If no type repeats in the list (the class asserts it), no constructor throws, and copies
      -- and what is moved are equal to their originals: whatever commands are given to a variant
      -- that holds a value, as far as they compile, and where none assigns the variant its own
      -- value of the type that it holds, it answers each, and holds at last, as the sum type of
      -- its types does. A tag out of range is refused by a `range_error`, and `get` of another type
      -- by a `bad_cast`, which leave the value; nothing else throws, and nothing is undefined.
      pub perform_all_refines :
          (cs : List (Command A V)) (a : Value A V)
          → Moves ops
          → has_no_duplicates types ≡ true
          → IsOf a
          → All Compiles cs
          → AreDefined cs a
          → perform_all cs (represent a) ≡ ((specify_all cs a).0, represent (specify_all cs a).1)
      perform_all_refines cs a moves d h k defined =
          (perform_all-represent moves (has_no_duplicates-NoRepeats types d) cs a h k defined).0

      abbrev pub first_value : A → Value A V
      first_value first = record { index = 0; type = first; value = total.default_value first }

      -- If no type repeats in the list of a variant of at least one type, no constructor throws,
      -- and copies and what is moved are equal to their originals: its default construction, from
      -- whatever the memory held for a tag, any commands that compile, of which none assigns the
      -- variant its own value of the type that it holds, and its destructor leave no object in the
      -- storage, and none that was overwritten without its destructor.
      pub lifetime :
          (first : A) (cs : List (Command A V)) (junk : ℤ)
          → Moves ops
          → has_no_duplicates types ≡ true
          → get_elem? types 0 ≡ some first
          → All Compiles cs
          → AreDefined cs (first_value first)
          → (made : StaticVariant A V) × (construct_default ops types (raw junk) ≡ (ok tt, made))
            × ((clean types (perform_all cs made).1).0 ≡ ok tt)
            × ((clean types (perform_all cs made).1).1.storage ≡ none)
            × ((clean types (perform_all cs made).1).1.lost ≡ [])
      unfolding construct_default
      lifetime first cs junk moves d e k defined =
          let distinct = has_no_duplicates-NoRepeats types d in
          let found : index_of first types ≡ some 0 = index_of-get_elem? types first 0 distinct e in
          let a : Value A V = first_value first in
          let (all, h) = perform_all-represent moves distinct cs a found k defined in
          let last = (specify_all cs a).1 in
          let cleaned : clean types (perform_all cs (represent a)).1
              ≡ (ok tt, raw (pos last.index)) =
            ap (λ r. clean types r.1) all ∙ clean-holding types last.type last.index h last.value in
          (
            represent a,
            init_from_tag-raw ops types first 0 junk (total.default_value first) found
                (total.creates first),
            ap (λ r. r.0) cleaned,
            ap (λ r. r.1.storage) cleaned,
            ap (λ r. r.1.lost) cleaned,
          )
