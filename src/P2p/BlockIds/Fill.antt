-- ===== src/P2p/BlockIds/Fill.antt =====
-- The loop of `get_block_ids` over block numbers, on a database that serves its main chain.
use peerplays_contract_node.Prelude.{
  ℕ, zero, suc, ◌+◌, ◌-◌, ◌^◌, ◌≤◌, ◌<◌, ◌≡◌, refl, ap, ◌∙◌, min, List, [], ◌∷◌, ◌++◌, map,
  append_assoc, append-nil, length, length-append, span, arith, max, if◌then◌else◌, ◌==◌, ok,
}
use peerplays_contract_node.P2p.Defs.{Hash, Database, back}
use peerplays_contract_node.P2p.BlockIds.{fill, remaining, get_block_ids, last_known_block}

-- The ids of the main chain are served, and carry their block numbers.
pub record Serves (db : Database) (main : ℕ → Hash) : Type 0 where
  pub served : (n : ℕ) → 1 ≤ n → n ≤ db.head_block_num → db.get_block_id_for_num n ≡ ok (main n)
  pub numbered : (n : ℕ) → 1 ≤ n → n ≤ db.head_block_num → db.num_from_id (main n) ≡ n
  pub narrow : db.head_block_num + 1 < 2 ^ 32

module _ (db : Database) (main : ℕ → Hash) (s : Serves db main) (limit : ℕ) where
  fill_from :
      (count fuel num : ℕ) (result : List Hash)
      → 1 ≤ num
      → count ≡ min (limit - length result) (db.head_block_num + 1 - num)
      → count < fuel
      → fill db limit fuel num result ≡ ok (result ++ map main (span num count))
  unfolding fill
  fill_from zero (suc fuel) num result h e f = ground (arith, append-nil result)
  fill_from (suc count) (suc fuel) num result h e f = ground (
    arith,
    s.served num h,
    s.narrow,
    fill_from count fuel (num + 1) (result ++ main num ∷ []),
    length-append result (main num ∷ []),
    append_assoc result (main num ∷ []) (map main (span (num + 1) count)),
  )
  fill_from count zero num result h e f = elim f [ ]

  -- The first block number of the answer: that of the last known block, or 1 for none.
  abbrev pub first_num : Hash → ℕ
  first_num last = max 1 (db.num_from_id last)

  -- How many ids the answer holds.
  abbrev pub count_from : Hash → ℕ
  count_from last = min limit (db.head_block_num + 1 - first_num last)

  fill_start :
      (last : Hash)
      → fill db limit (limit + 2) (db.num_from_id last) []
        ≡ ok (map main (span (first_num last) (count_from last)))
  unfolding fill
  fill_start last = split (db.num_from_id last) refl
    where
      split :
          (num : ℕ)
          → db.num_from_id last ≡ num
          → fill db limit (limit + 2) (db.num_from_id last) []
            ≡ ok (map main (span (first_num last) (count_from last)))
      split zero e = ground (arith, s.narrow, fill_from (count_from last) (limit + 1) 1 [])
      split (suc n) e =
          let first : first_num last ≡ db.num_from_id last = omega arith in
          rw first (
            fill_from (min limit (db.head_block_num + 1 - db.num_from_id last)) (limit + 2)
              (db.num_from_id last) [] (omega arith) (omega arith) (omega arith))

  pub back-span :
      (start count : ℕ) → back (map main (span start (suc count))) ≡ main (start + count)
  unfolding back
  back-span start zero = ap main (omega arith)
  back-span start (suc count) = back-span (start + 1) count ∙ ap main (omega arith)

  remaining-span :
      (start count : ℕ)
      → 1 ≤ start
      → start + count ≤ db.head_block_num
      → remaining db (map main (span start (suc count))) ≡ db.head_block_num - (start + count)
  unfolding remaining
  remaining-span start count a b = ground (arith, back-span start count, s.numbered (start + count))

  -- On a database that has blocks and serves its main chain by number (`Serves`): if the search
  -- finds a last known block, the answer is a run of consecutive ids of the main chain, from
  -- that block on (from block 1 if its number is 0), as many as there are and `limit` allows;
  -- the count of remaining items is that of the blocks behind the run, or 0 if the run is empty.
  pub get_block_ids_consecutive :
      (synopsis : List Hash) (last : Hash)
      → last_known_block db synopsis ≡ ok last
      → 0 < db.head_block_num
      → get_block_ids db synopsis limit
        ≡ ok (
          map main (span (first_num last) (count_from last)),
          (if count_from last == 0
              then 0
              else db.head_block_num + 1 - first_num last - count_from last),
        )
  unfolding get_block_ids remaining
  get_block_ids_consecutive synopsis last e p = split (count_from last) refl
    where
      split :
          (count : ℕ)
          → count_from last ≡ count
          → get_block_ids db synopsis limit
            ≡ ok (
              map main (span (first_num last) (count_from last)),
              (if count_from last == 0
                  then 0
                  else db.head_block_num + 1 - first_num last - count_from last),
            )
      split zero c = ground (arith, fill_start last, c)
      split (suc count) c =
          ground (arith, fill_start last, c, remaining-span (first_num last) count)
