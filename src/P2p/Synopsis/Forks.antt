-- ===== src/P2p/Synopsis/Forks.antt =====
-- `get_blockchain_synopsis` up to a block on a fork.
use peerplays_contract_node.Prelude.{
  ℕ, ◌+◌, ◌-◌, ◌^◌, ◌≤◌, ◌<◌, ◌≡◌, refl, ap, ◌∙◌, List, [], ◌∷◌, ◌++◌, length, length-append, arith,
  leb, ok, fail, max, ◌≢◌, reverse, get_or, get_elem?-get_or, fc_exception,
  block_older_than_undo_history, if◌then◌else◌, ◌==◌,
}
use mathlib.Core.List.{reverse-cons, reverse-reverse}
use peerplays_contract_node.P2p.Defs.{Hash, Database, back, pop_back}
use peerplays_contract_node.P2p.BlockIds.{block_is_in_our_chain}
use peerplays_contract_node.P2p.BlockIds.Fill.{Serves}
use peerplays_contract_node.P2p.Synopsis.{
  Range, id_in_range, fork_range, synopsis_range, get_blockchain_synopsis,
}
use peerplays_contract_node.P2p.Synopsis.Chains.{Reports, synopsis_of_range-Reports}

back-append : (ids : List Hash) (id : Hash) → back (ids ++ id ∷ []) ≡ id
unfolding back
back-append [] id = refl
back-append (jd ∷ []) id = refl
back-append (jd ∷ kd ∷ ids) id = back-append (kd ∷ ids) id

pop_back-append : (ids : List Hash) (id : Hash) → pop_back (ids ++ id ∷ []) ≡ ids
unfolding pop_back
pop_back-append [] id = refl
pop_back-append (jd ∷ []) id = refl
pop_back-append (jd ∷ kd ∷ ids) id = ap (◌∷◌ jd) (pop_back-append (kd ∷ ids) id)

-- The chain that ends in a fork: the main chain up to `split`, then the branch, oldest first.
pub id_on_branch : (ℕ → Hash) → ℕ → List Hash → ℕ → Hash
id_on_branch main split branch n = if leb n split then main n else get_or branch (n - split - 1) 0

module _ (db : Database) (main : ℕ → Hash) (s : Serves db main) (reference other ancestor : Hash)
    (older : List Hash) (split : ℕ) (given : reference ≢ 0)
    (forked : db.get_block_id_for_num (db.num_from_id reference) ≡ ok other)
    (differs : reference ≢ other)
    (history : db.get_block_ids_on_fork reference ≡ ok (reference ∷ reverse older ++ ancestor ∷ []))
    (leaves : split ≡ (if ancestor == 0 then 0 else db.num_from_id ancestor))
    (counted : db.num_from_id reference ≡ split + length older + 1) where
  abbrev fork_of : Range
  fork_of = record {
    low = db.last_non_undoable_block_num;
    high = split + length older + 1;
    non_fork_high = split;
    fork_history = older ++ reference ∷ [];
  }

  branch_lem :
      reverse (pop_back (reference ∷ reverse older ++ ancestor ∷ [])) ≡ older ++ reference ∷ []
  branch_lem =
      ap reverse (pop_back-append (reference ∷ reverse older) ancestor)
      ∙ (reverse-cons reference (reverse older))
      ∙ ap (λ xs. xs ++ reference ∷ []) (reverse-reverse older)

  fork_range_lem :
      split + length older + 1 < 2 ^ 32
      → fork_range db reference ≡ (
          if leb db.last_non_undoable_block_num split
          then ok fork_of
          else fail (fc_exception block_older_than_undo_history))
  unfolding fork_range
  fork_range_lem w = ground (
    arith,
    back-append (reference ∷ reverse older) ancestor,
    branch_lem,
    back-append older reference,
    length-append older (reference ∷ []),
    length-append (reverse older) (ancestor ∷ []),
  )

  id_in_range-branch :
      (n : ℕ)
      → 1 ≤ n
      → n ≤ split + length older + 1
      → split ≤ db.head_block_num
      → id_in_range db fork_of n ≡ ok (id_on_branch main split (older ++ reference ∷ []) n)
  unfolding id_in_range id_on_branch
  id_in_range-branch n a b h = ground (
    arith,
    s.served n,
    length-append older (reference ∷ []),
    get_elem?-get_or (older ++ reference ∷ []) (n - split - 1) 0,
  )

  -- With a reference point that is not the main chain's block of its number, whose fork the
  -- database lists from it back to an ancestor numbered `split` (0 for the zero id), where the
  -- last block that cannot be undone is not above `split`, `split` is not above the head, and
  -- the numbers with `after` stay below 2 ^ 32 - 1: the synopsis lists ids of the main chain up
  -- to `split` and of the branch behind it, climbing by halves as for the main chain; the loop
  -- ends, with 32 entries at most.
  pub fork_synopsis :
      (after : ℕ)
      → db.last_non_undoable_block_num ≤ split
      → split ≤ db.head_block_num
      → split + length older + 1 + after + 1 < 2 ^ 32
      → Reports
          (id_on_branch main split (older ++ reference ∷ []))
          (split + length older + 1 + after)
          (split + length older + 1)
          (max 1 db.last_non_undoable_block_num)
          (get_blockchain_synopsis db reference after)
  unfolding get_blockchain_synopsis synopsis_range block_is_in_our_chain
  fork_synopsis after u h w =
      let (ns, l, r, n) =
        synopsis_of_range-Reports db after fork_of
          (id_on_branch main split (older ++ reference ∷ [])) (omega arith) (omega arith) w
          (λ k k1 k2. id_in_range-branch k k1 k2 h) in
      (ns, l, ground (arith, fork_range_lem, r), n)

  -- A reference point on such a fork, one that leaves the main chain before the last block that
  -- cannot be undone, is refused by an exception, if its number is below 2 ^ 32.
  pub fork_synopsis_too_old :
      (after : ℕ)
      → split < db.last_non_undoable_block_num
      → split + length older + 1 < 2 ^ 32
      → get_blockchain_synopsis db reference after
        ≡ fail (fc_exception block_older_than_undo_history)
  unfolding get_blockchain_synopsis synopsis_range block_is_in_our_chain
  fork_synopsis_too_old after u w = ground (arith, fork_range_lem)
