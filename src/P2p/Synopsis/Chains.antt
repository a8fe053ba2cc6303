-- ===== src/P2p/Synopsis/Chains.antt =====
-- `get_blockchain_synopsis` of the whole chain, and up to a block of the main chain.
use peerplays_contract_node.Prelude.{
  ℕ, ◌+◌, ◌^◌, ◌≤◌, ◌<◌, ◌≡◌, List, [], map, length, arith, ltb, Result, ok, min, max, ◌≢◌,
  if◌then◌else◌,
}
use native.Mathlib.Nat.{add-zero}
use peerplays_contract_node.P2p.Defs.{Hash, Database, back}
use peerplays_contract_node.P2p.BlockIds.{block_is_in_our_chain}
use peerplays_contract_node.P2p.BlockIds.Fill.{Serves}
use peerplays_contract_node.P2p.Synopsis.{
  Range, id_in_range, main_chain_range, whole_chain_range, synopsis_range, synopsis_of_range,
  get_blockchain_synopsis,
}
use peerplays_contract_node.P2p.Synopsis.Ladder.{Ladder, climb-Climbs, back-Ladder}

-- A result that lists ids by the numbers of a ladder, of 32 rungs at most.
abbrev pub Reports : (ℕ → Hash) → ℕ → ℕ → ℕ → Result (List Hash) → Type 0
Reports ids top high low result =
    (ns : List ℕ) × Ladder top high low ns × (result ≡ ok (map ids ns)) × (length ns ≤ 32)

pub synopsis_of_range-Reports :
    (db : Database) (after : ℕ) (range : Range) (ids : ℕ → Hash)
    → 1 ≤ range.high
    → range.low ≤ range.high
    → range.high + after + 1 < 2 ^ 32
    → ((n : ℕ) → 1 ≤ n → n ≤ range.high → id_in_range db range n ≡ ok (ids n))
    → Reports ids
        (range.high + after)
        range.high
        (max 1 range.low)
        (synopsis_of_range db after range)
unfolding synopsis_of_range
synopsis_of_range-Reports db after range ids a b c served =
    let (ns, l, r, n) =
      climb-Climbs db range (range.high + after) ids 32 33 (max 1 range.low) [] (omega arith)
        (omega arith) (omega arith) (omega arith) c (omega arith)
        (λ k k1 k2. served k (omega arith) k2) in
    (ns, l, ground (arith, r), n)

module _ (db : Database) (main : ℕ → Hash) (s : Serves db main) where
  -- With no reference point, on a database that has blocks and serves its main chain by number,
  -- whose last block that cannot be undone is not above the head, and with the head's number
  -- plus `after` below 2 ^ 32 - 1: the synopsis lists main-chain ids from the last block that
  -- cannot be undone (from 1 if that is 0) up to the head, climbing by halves of the distance to
  -- the head plus `after`; the loop ends, with 32 entries at most.
  pub whole_chain_synopsis :
      (after : ℕ)
      → 0 < db.head_block_num
      → db.last_non_undoable_block_num ≤ db.head_block_num
      → db.head_block_num + after + 1 < 2 ^ 32
      → Reports main
          (db.head_block_num + after)
          db.head_block_num
          (max 1 db.last_non_undoable_block_num)
          (get_blockchain_synopsis db 0 after)
  unfolding get_blockchain_synopsis synopsis_range whole_chain_range id_in_range
  whole_chain_synopsis after p u w =
      let (ns, l, r, n) =
        synopsis_of_range-Reports db after
          (record {
            low = db.last_non_undoable_block_num;
            high = db.head_block_num;
            non_fork_high = db.head_block_num;
            fork_history = [];
          })
          main p u w (λ k k1 k2. ground (arith, s.served k)) in
      (ns, l, ground (arith, r), n)

  -- With a block of the main chain as the reference point, of an id that is not zero and a
  -- number that stays below 2 ^ 32 - 1 with `after` added: the synopsis lists main-chain ids
  -- from the smaller of that number and the last block that cannot be undone (from 1 if that is
  -- 0) up to the reference point, climbing by halves of the distance to it plus `after`; the
  -- loop ends, with 32 entries at most.
  pub main_chain_synopsis :
      (num after : ℕ)
      → 1 ≤ num
      → num ≤ db.head_block_num
      → main num ≢ 0
      → num + after + 1 < 2 ^ 32
      → Reports main
          (num + after)
          num
          (max 1 (min num db.last_non_undoable_block_num))
          (get_blockchain_synopsis db (main num) after)
  unfolding get_blockchain_synopsis synopsis_range main_chain_range id_in_range
      block_is_in_our_chain
  main_chain_synopsis num after a b z w =
      let (ns, l, r, n) =
        synopsis_of_range-Reports db after
          (record {
            low =
                if ltb num db.last_non_undoable_block_num
                then num
                else db.last_non_undoable_block_num;
            high = num;
            non_fork_high = num;
            fork_history = [];
          })
          main a (ground arith) w (λ k k1 k2. ground (arith, s.served k)) in
      let low_is : (if ltb num db.last_non_undoable_block_num
            then num
            else db.last_non_undoable_block_num)
          ≡ min num db.last_non_undoable_block_num =
        ground arith in
      (ns, rw (← low_is) l, ground (arith, r, s.served num, s.numbered num), n)

  -- With a block of the main chain as the reference point, of an id that is not zero, and
  -- nothing to come after it, the reference point itself ends the synopsis, so that a peer on
  -- the same chain finds it first.
  pub main_chain_synopsis_last :
      (num : ℕ)
      → 1 ≤ num
      → num ≤ db.head_block_num
      → main num ≢ 0
      → (ids : List Hash) × (get_blockchain_synopsis db (main num) 0 ≡ ok ids)
        × (back ids ≡ main num)
  main_chain_synopsis_last num a b z =
      let (ns, l, r, n) = main_chain_synopsis num 0 a b z (omega (arith, s.narrow)) in
      (map main ns, r, back-Ladder main num _ ns (omega arith) (rw (add-zero) at l))
