-- ===== src/Infra/StaticVariant/Tests.antt =====
-- Variants of two and of three types, and the theorems at them.
use peerplays_contract_node.Prelude.{
  All, arith, ℕ, ◌*◌, ◌≡◌, ◌<◌, bad_cast, false, refl, true, List, [], ◌∷◌, none, some, ltb, ◌==◌,
  ==_iff, Result, ok, fail, out_of_range, undefined_behaviour, range_error,
}
use peerplays_contract_node.Prelude.Int.{pos, negsuc}
use peerplays_contract_node.Infra.TypeList.{
  Eq, index_of, concat_unique, concat_unique_onto, add_unique, contains, dispatch,
}
use peerplays_contract_node.Infra.StaticVariant.{
  StaticVariant, Operations, which, count, is_type, visit_own, clean, construct_default,
  has_no_duplicates, get, is_bad_tag, visit, max_size, dispatch_tag, read,
}
use peerplays_contract_node.Infra.StaticVariant.Assign.{
  elsewhere, assign_value, construct_value, import_from, less_than,
}
use peerplays_contract_node.Infra.StaticVariant.Lifecycle.{raw, holding}
use peerplays_contract_node.Infra.StaticVariant.Sum.{
  Value, NoThrow, Command, assign, assign_own, assign_from, assign_self, move_from, move_self,
  choose, represent, perform_all, Compiles, AreDefined, perform_all_refines, lifetime,
}
use peerplays_contract_node.Infra.StaticVariant.Transfer.{imported, import_from_lem}
use peerplays_contract_node.Infra.StaticVariant.Throwing.{assign_value_throws}
use peerplays_contract_node.Infra.StaticVariant.Values.{construct_value_lem}

abbrev numbers : Eq ℕ
numbers = record { is_same = λ a b. a == b; is_same_iff = ==_iff }

abbrev two : List ℕ
two = 4 ∷ 7 ∷ []

abbrev three : List ℕ
three = 7 ∷ 9 ∷ 4 ∷ []

abbrev ops : Operations ℕ ℕ
ops = record {
  create = λ t. ok (t * 100);
  copy = λ t x. ok x;
  move = λ t x. (ok x, 0);
  equals = λ t x y. x == y;
  less = λ t x y. ltb x y;
}

abbrev ops_no_throw : NoThrow ops
ops_no_throw = record { default_value = λ t. t * 100; creates = λ t. refl; copies = λ t x. refl }

-- The copy of every value throws.
abbrev throwing : Operations ℕ ℕ
throwing = record ops { copy = λ t x. fail out_of_range }

abbrev fours : ℕ → Value ℕ ℕ
fours x = record { index = 0; type = 4; value = x }

abbrev sevens : ℕ → Value ℕ ℕ
sevens x = record { index = 1; type = 7; value = x }

abbrev script : List (Command ℕ ℕ)
script =
    assign (sevens 70)
    ∷ choose (pos 5)
    ∷ assign_self
    ∷ assign_own 4 0
    ∷ assign_from (fours 44)
    ∷ move_from (sevens 7)
    ∷ move_self
    ∷ choose (pos 1)
    ∷ choose (negsuc 0)
    ∷ []

two_distinct : has_no_duplicates ⦃eq = numbers⦄ two ≡ true
unfolding has_no_duplicates concat_unique concat_unique_onto add_unique contains index_of
two_distinct = refl

four_first : index_of ⦃eq = numbers⦄ 4 two ≡ some 0
unfolding index_of
four_first = refl

seven_second : index_of ⦃eq = numbers⦄ 7 two ≡ some 1
unfolding index_of
seven_second = refl

four_third : index_of ⦃eq = numbers⦄ 4 three ≡ some 2
unfolding index_of
four_third = refl

script-Compiles : All (Compiles ⦃eq = numbers⦄ two) script
script-Compiles =
    (seven_second, (tt, (tt, (four_first, (four_first, (seven_second, (tt, (tt, (tt, tt)))))))))

-- At the assignment of its own value of the type 4 the variant holds one of the type 7.
script_defined : AreDefined ⦃eq = numbers⦄ two ops ops_no_throw script (fours 1)
script_defined = (tt, (tt, (tt, ((λ e. omega (arith, e)), (tt, (tt, (tt, (tt, (tt, tt)))))))))

perform_all_refines_example :
    perform_all ⦃eq = numbers⦄ two ops script (represent ⦃eq = numbers⦄ two (fours 1)) ≡ (
      ok tt
          ∷ fail range_error
          ∷ ok tt
          ∷ fail bad_cast
          ∷ ok tt
          ∷ ok tt
          ∷ ok tt
          ∷ ok tt
          ∷ fail range_error
          ∷ [],
      holding 1 7 700,
    )
perform_all_refines_example =
    perform_all_refines ⦃eq = numbers⦄ two ops ops_no_throw script (fours 1) (λ t x. refl)
      two_distinct four_first script-Compiles script_defined

abbrev lived : StaticVariant ℕ ℕ → Result (Unit {0}) × StaticVariant ℕ ℕ
lived made = clean ⦃eq = numbers⦄ two (perform_all ⦃eq = numbers⦄ two ops script made).1

lifetime_example :
    (made : StaticVariant ℕ ℕ) × (construct_default ⦃eq = numbers⦄ ops two (raw (negsuc 3))
      ≡ (ok tt, made))
    × ((lived made).0 ≡ ok tt)
    × ((lived made).1.storage ≡ none)
    × ((lived made).1.lost ≡ [])
lifetime_example =
    lifetime ⦃eq = numbers⦄ two ops ops_no_throw 4 script (negsuc 3) (λ t x. refl) two_distinct refl
      script-Compiles script_defined

import_from_lem_example :
    import_from ⦃eq = numbers⦄ ops three two (holding 0 4 44) (raw (pos 0))
    ≡ imported ⦃eq = numbers⦄ ops three two 4 0 four_first 44
        (pos 0)
        (index_of ⦃eq = numbers⦄ 4 three)
import_from_lem_example =
    import_from_lem ⦃eq = numbers⦄ ops three two 4 0 four_first 44 (pos 0) ops_no_throw

eight_nine :
    less_than ⦃eq = numbers⦄ ops two
      (represent ⦃eq = numbers⦄ two (fours 8))
      (represent ⦃eq = numbers⦄ two (fours 9))
    ≡ ok true
unfolding less_than dispatch_tag dispatch get index_of read
eight_nine = refl

nine_three :
    less_than ⦃eq = numbers⦄ ops two
      (represent ⦃eq = numbers⦄ two (fours 9))
      (represent ⦃eq = numbers⦄ two (sevens 3))
    ≡ ok true
unfolding less_than
nine_three = refl

assign_value_throws_example :
    (assign_value ⦃eq = numbers⦄ throwing two 7 (elsewhere 70) (holding 0 4 44)
      ≡ (fail out_of_range, raw (pos 1)))
    × (clean ⦃eq = numbers⦄ two
          (assign_value ⦃eq = numbers⦄ throwing two 7 (elsewhere 70) (holding 0 4 44)).1
        ≡ (fail undefined_behaviour, raw (pos 1)))
assign_value_throws_example =
    assign_value_throws ⦃eq = numbers⦄ throwing two 4 0 44 four_first 7 1 70 out_of_range
      seven_second refl

-- What the theorems above do not say: the size, and the refusals of `visit`.
max_size_run : max_size (λ t. t * 2) three ≡ 18
unfolding max_size
max_size_run = refl

visit_run :
    (visit ⦃eq = numbers⦄ two (pos 1) (λ t x. ok (t * x)) (some (7, 10)) ≡ ok 70)
    × (visit ⦃eq = numbers⦄ two (negsuc 0) (λ t x. ok (t * x)) (some (7, 10)) ≡ fail range_error)
unfolding visit is_bad_tag dispatch_tag dispatch read
visit_run = (refl, refl)

construct_value_lem_example :
    (v : StaticVariant ℕ ℕ) × (construct_value ⦃eq = numbers⦄ ops two 7 70 (raw (pos 5))
      ≡ (ok tt, v))
    × (which v ≡ pos 1)
    × (1 < count two)
    × (is_type ⦃eq = numbers⦄ two 4 v ≡ ok false)
    × (get ⦃eq = numbers⦄ two 4 v ≡ fail bad_cast)
    × (visit_own ⦃eq = numbers⦄ two (λ t x. ok (t * x)) v ≡ ok 490)
    × (clean ⦃eq = numbers⦄ two v ≡ (ok tt, raw (pos 1)))
construct_value_lem_example =
    construct_value_lem ⦃eq = numbers⦄ two 7 1 (unfold index_of in refl) ops 70 70 (pos 5)
      (λ t x. ok (t * x)) 4 0 refl (unfold index_of in refl)
