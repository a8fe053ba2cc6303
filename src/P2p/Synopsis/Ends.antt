-- ===== src/P2p/Synopsis/Ends.antt =====
-- `get_blockchain_synopsis` ends, whatever the reference point.
use peerplays_contract_node.Prelude.{
  ℕ, ◌%◌, add32, block_older_than_undo_history, zero, suc, ◌+◌, ◌-◌, ◌^◌, ◌≤◌, ◌<◌, ◌≡◌, ◌≢◌, refl,
  Bool, true, false, List, [], ◌∷◌, ◌++◌, reverse, reverse-cons, ap, ◌∙◌, length, length-append,
  Option, none, some, arith, Result, ok, fail, out_of_fuel, leb, ltb, ◌==◌, if◌then◌else◌, Failure,
  undefined_behaviour, fc_exception, assert_failed, leb→le, get_elem?, require, ◌>>◌,
}
use native.Mathlib.Nat.{pow-suc}
use peerplays_contract_node.P2p.Defs.{Hash, Database, front, back, pop_back}
use peerplays_contract_node.P2p.Ends.{
  Ends, Done, Ends-bind, Ends-intro, Ends-elim, Ends-imp, Ends-branch, Ends-if, Bounded,
}
use peerplays_contract_node.P2p.BlockIds.{block_is_in_our_chain}
use peerplays_contract_node.P2p.BlockIds.Ends.{block_is_in_our_chain-Ends}
use peerplays_contract_node.P2p.Synopsis.{
  Range, main_chain_range, fork_range, whole_chain_range, synopsis_range, id_in_range, next_low,
  climb, climb_fuel, synopsis_of_range, get_blockchain_synopsis,
}
use peerplays_contract_node.P2p.Synopsis.Ladder.{next_low_lem}

Ends-require :
    {B : Type 0} (P : B → Type 0) (c : Bool) (e : Failure) (k : Result B)
    → e ≢ out_of_fuel
    → (c ≡ true → Ends P k)
    → Ends P (require c e >> k)
Ends-require P true e k h f = f refl
Ends-require P false e k h f = h

module _ (db : Database) (after : ℕ) (b : Bounded db after) where
  -- The loop starts at a block of the range, and its top is a number of 32 bits.
  abbrev Within : Range → Type 0
  Within r = (r.low ≤ r.high) × (1 ≤ r.high) × (r.high + after + 1 < 2 ^ 32)

  abbrev WithinAny : Option Range → Type 0
  WithinAny none = Unit {0}
  WithinAny (some r) = Within r

  id_in_range-Ends : (r : Range) (num : ℕ) → Ends Done (id_in_range db r num)
  unfolding id_in_range
  id_in_range-Ends r num =
      Ends-if Done (leb num r.non_fork_high) _ _
        (λ e. Ends-imp _ Done (db.get_block_id_for_num num) (λ x h. tt) (Ends-intro _ (b.gets num)))
        (λ e. on_branch (get_elem? r.fork_history (num - r.non_fork_high - 1)))
    where
      on_branch :
          (o : Option Hash)
          → Ends Done (elim o [ none ↦ fail undefined_behaviour | some id ↦ ok id ])
      on_branch none = λ same. cc
      on_branch (some id) = tt

  climb-Ends :
      (r : Range) (top rounds fuel low : ℕ) (synopsis : List Hash)
      → rounds + 1 ≤ fuel
      → 1 ≤ low
      → low ≤ r.high
      → r.high ≤ top
      → top + 1 < 2 ^ 32
      → top + 1 - low < 2 ^ rounds
      → Ends Done (climb db r top fuel low synopsis)
  unfolding climb
  climb-Ends r top rounds zero low synopsis f o a c d e = absurd (omega arith)
  climb-Ends r top zero (suc fuel) low synopsis f o a c d e = absurd (omega arith)
  climb-Ends r top (suc rounds) (suc fuel) low synopsis f o a c d e =
      Ends-bind Done Done (id_in_range db r low) _ (id_in_range-Ends r low) (λ id h.
        Ends-branch Done (leb (next_low top low) r.high) _ _
          (λ more.
            let step = next_low_lem top low o (omega arith) d in
            let below = leb→le _ _ more in
            climb-Ends r top rounds fuel (next_low top low) (synopsis ++ id ∷ []) (omega arith)
              (omega arith) below c d (omega (arith, pow-suc 2 rounds)))
          (λ done. tt))

  main_chain_range-Ends :
      (reference : Hash)
      → db.num_from_id reference ≤ db.head_block_num
      → Ends Within (main_chain_range db reference)
  unfolding main_chain_range
  main_chain_range-Ends reference known =
      Ends-require Within (ltb 0 (db.num_from_id reference)) assert_failed _ (λ same. cc)
        (λ above. (ground arith, ground arith, omega (arith, b.narrow)))

  length-reverse : (ids : List Hash) → length (reverse ids) ≡ length ids
  length-reverse [] = refl
  length-reverse (id ∷ ids) =
      rw (reverse-cons id ids)
        (length-append (reverse ids) (id ∷ []) ∙ omega (arith, length-reverse ids))

  length-pop_back : (id : Hash) (ids : List Hash) → length (pop_back (id ∷ ids)) ≡ length ids
  unfolding pop_back
  length-pop_back id [] = refl
  length-pop_back id (jd ∷ ids) = ap suc (length-pop_back jd ids)

  -- The range of a fork, of its length and of the number of its ancestor.
  fork_Within :
      (ancestor low count : ℕ)
      → low ≤ ancestor
      → 1 ≤ count
      → ancestor + count + after + 1 < 2 ^ 32
      → (low ≤ (ancestor + count) % 2 ^ 32)
        × (1 ≤ (ancestor + count) % 2 ^ 32)
        × ((ancestor + count) % 2 ^ 32 + after + 1 < 2 ^ 32)
  fork_Within ancestor low count l o n = (omega arith, omega arith, omega arith)

  abbrev ancestor_num : List Hash → ℕ
  ancestor_num h = if back h == 0 then 0 else db.num_from_id (back h)

  branch_of :
      (reference : Hash) (h : List Hash)
      → db.get_block_ids_on_fork reference ≡ ok h
      → leb 2 (length h) ≡ true
      → (1 ≤ length (reverse (pop_back h)))
        × (ancestor_num h + length (reverse (pop_back h)) + after + 1 < 2 ^ 32)
  branch_of reference [] e two = cc
  branch_of reference (id ∷ ids) e two =
      let n = length-reverse (pop_back (id ∷ ids)) ∙ length-pop_back id ids in
      let o = b.on_fork reference (id ∷ ids) e in
      let below : ancestor_num (id ∷ ids) ≤ db.num_from_id (back (id ∷ ids)) = ground arith in
      (ground arith, omega arith)

  fork_range-Ends : (reference : Hash) → Ends Within (fork_range db reference)
  unfolding fork_range
  fork_range-Ends reference =
      Ends-bind (λ h. db.get_block_ids_on_fork reference ≡ ok h) Within
        (db.get_block_ids_on_fork reference) _ (Ends-intro _ (b.forks reference))
        (λ h e.
          let branch = reverse (pop_back h) in
          let high = (ancestor_num h + length branch) % 2 ^ 32 in
          Ends-require Within (leb 2 (length h)) assert_failed _ (λ same. cc)
            (λ two.
              Ends-require Within (front h == reference) assert_failed _ (λ same. cc)
                (λ same_front.
                  Ends-require Within (high == db.num_from_id (back branch)) assert_failed _
                    (λ same. cc)
                    (λ same_back.
                      Ends-require Within (leb db.last_non_undoable_block_num (ancestor_num h))
                        (fc_exception block_older_than_undo_history) _ (λ same. cc)
                        (λ young.
                          let (l, n) = branch_of reference h e two in
                          fork_Within (ancestor_num h) db.last_non_undoable_block_num
                            (length branch) (leb→le _ _ young) l n)))))

  synopsis_range-Ends : (reference : Hash) → Ends WithinAny (synopsis_range db reference)
  unfolding synopsis_range whole_chain_range
  synopsis_range-Ends reference =
      Ends-if WithinAny (reference == 0) _ _
        (λ e.
          Ends-if WithinAny (db.head_block_num == 0) _ _ (λ none. tt)
            (λ some. (b.undo, ground arith, b.narrow)))
        (λ e.
          Ends-bind _ WithinAny (block_is_in_our_chain db reference) _
            (block_is_in_our_chain-Ends db after b reference)
            (λ ours known.
              Ends-bind Within WithinAny _ _
                (Ends-if Within ours (main_chain_range db reference) (fork_range db reference)
                  (λ yes. main_chain_range-Ends reference (known yes))
                  (λ no. fork_range-Ends reference))
                (λ r within. within)))

  -- On a database whose calls end, whose last block that cannot be undone is not above the head,
  -- and whose block numbers, on the main chain and on forks, leave room below 2 ^ 32 for `after`
  -- (`Bounded`): `get_blockchain_synopsis` ends for every reference point, on the main chain, on a
  -- fork or unknown, with a result or with what a call has thrown; its loop takes 33 turns at most.
  pub get_blockchain_synopsis-Ends :
      (reference : Hash) → get_blockchain_synopsis db reference after ≢ fail out_of_fuel
  unfolding get_blockchain_synopsis synopsis_of_range
  get_blockchain_synopsis-Ends reference =
      Ends-elim Done (get_blockchain_synopsis db reference after) (
        Ends-bind WithinAny Done (synopsis_range db reference) _ (synopsis_range-Ends reference)
          each)
    where
      each :
          (o : Option Range)
          → WithinAny o
          → Ends Done (elim o [ none ↦ ok [] | some r ↦ synopsis_of_range db after r ])
      each none h = tt
      each (some r) (l, o, n) =
          let top : add32 r.high after ≡ r.high + after = omega arith in
          rw top (
            climb-Ends r (r.high + after) 32 climb_fuel (if r.low == 0 then 1 else r.low) []
              (omega arith) (ground arith) (ground arith) (omega arith) n (ground arith))
