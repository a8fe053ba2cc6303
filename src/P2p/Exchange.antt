-- ===== src/P2p/Exchange.antt =====
-- Two nodes: the synopsis that one makes, and the block ids that the other answers it.
pub mod Rounds
pub mod Forked
use peerplays_contract_node.Prelude.{
  ℕ, zero, suc, ◌+◌, ◌-◌, ◌*◌, ◌^◌, ◌≤◌, ◌<◌, ◌≡◌, ◌≢◌, refl, sym, ap, ◌∙◌, subst, Bool, true,
  false, List, [], ◌∷◌, ◌++◌, map, reverse, reverse-cons, min, max, span, arith, Result, ok, fail,
  ◌>>=◌, if◌then◌else◌, ◌==◌, inl, inr,
}
use peerplays_contract_node.P2p.Defs.{Hash, Database, back, pop_back}
use peerplays_contract_node.P2p.BlockIds.{
  block_is_in_our_chain, is_shared, find_shared, means_no_blocks, last_known_block, get_block_ids,
}
use peerplays_contract_node.P2p.BlockIds.Fill.{
  Serves, get_block_ids_consecutive, first_num, count_from,
}
use peerplays_contract_node.P2p.Synopsis.{get_blockchain_synopsis}
use peerplays_contract_node.P2p.Synopsis.Ladder.{Ladder, back-Ladder}
use peerplays_contract_node.P2p.Synopsis.Chains.{whole_chain_synopsis}

-- A node whose blocks have ids that are not zero and are known to it.
pub record Knows (db : Database) (main : ℕ → Hash) : Type 0 where
  pub serves : Serves db main
  pub known : (n : ℕ) → 1 ≤ n → n ≤ db.head_block_num → db.is_known_block (main n) ≡ true
  pub not_zero : (n : ℕ) → 1 ≤ n → n ≤ db.head_block_num → main n ≢ 0

reverse-back :
    (id : Hash) (ids : List Hash)
    → reverse (id ∷ ids) ≡ back (id ∷ ids) ∷ reverse (pop_back (id ∷ ids))
unfolding back pop_back
reverse-back id [] = refl
reverse-back id (jd ∷ ids) =
    reverse-cons id (jd ∷ ids)
    ∙ ap (λ r. r ++ id ∷ []) (reverse-back jd ids)
    ∙ ap (λ r. back (jd ∷ ids) ∷ r) (sym (reverse-cons id (pop_back (jd ∷ ids))))

module _ (db : Database) (main : ℕ → Hash) (k : Knows db main) where
  pub is_shared-main : (n : ℕ) → 1 ≤ n → n ≤ db.head_block_num → is_shared db (main n) ≡ ok true
  unfolding is_shared block_is_in_our_chain
  is_shared-main n a b =
      ground (arith, k.known n a b, k.serves.served n a b, k.serves.numbered n a b)

  -- A synopsis that ends with a block of ours: that is the last known block.
  pub last_known-back :
      (n : ℕ) (synopsis : List Hash)
      → 1 ≤ n
      → n ≤ db.head_block_num
      → synopsis ≢ []
      → back synopsis ≡ main n
      → last_known_block db synopsis ≡ ok (main n)
  unfolding last_known_block find_shared means_no_blocks back
  last_known-back n [] a b x e = absurd (x refl)
  last_known-back n (id ∷ []) a b x e = ground (arith, is_shared-main n a b, k.not_zero n a b)
  last_known-back n (id ∷ jd ∷ ids) a b x e =
      ground (arith, reverse-back id (jd ∷ ids), is_shared-main n a b)

pub Ladder-nonempty :
    (main : ℕ → Hash) (top high low : ℕ) (ns : List ℕ) → Ladder top high low ns → map main ns ≢ []
Ladder-nonempty main top high low [] l = λ e. l
Ladder-nonempty main top high low (n ∷ ns) l = λ e. cc

-- A node asks another for the ids of the blocks that it lacks.
unfoldable pub exchange : Database → Database → ℕ → Result (List Hash × ℕ)
exchange mine theirs limit =
    get_blockchain_synopsis mine 0 0 >>= λ synopsis. get_block_ids theirs synopsis limit

module _ (main : ℕ → Hash) (theirs : Database) (k : Knows theirs main) (limit : ℕ) where
  -- The answer from a known block on.
  pub answer_from :
      (synopsis : List Hash) (n : ℕ)
      → last_known_block theirs synopsis ≡ ok (main n)
      → 1 ≤ n
      → n ≤ theirs.head_block_num
      → 1 ≤ limit
      → get_block_ids theirs synopsis limit
        ≡ ok (
          map main (span n (min limit (theirs.head_block_num + 1 - n))),
          theirs.head_block_num + 1 - n - limit,
        )
  answer_from synopsis n found a b o =
      let first : first_num theirs main k.serves limit (main n) ≡ n =
        ground (arith, k.serves.numbered n a b) in
      shorten (max 1 (theirs.num_from_id (main n))) first
        (get_block_ids_consecutive theirs main k.serves limit synopsis (main n) found (omega arith))
    where
      shorten :
          (start : ℕ)
          → start ≡ n
          → {found : Result (List Hash × ℕ)}
          → found
            ≡ ok (
              map main (span start (min limit (theirs.head_block_num + 1 - start))),
              (if min limit (theirs.head_block_num + 1 - start) == 0
                  then 0
                  else theirs.head_block_num
                    + 1
                    - start
                    - min limit (theirs.head_block_num + 1 - start)),
            )
          → found
            ≡ ok (
              map main (span n (min limit (theirs.head_block_num + 1 - n))),
              theirs.head_block_num + 1 - n - limit,
            )
      shorten start e f = ground (arith, e, f)

  -- A node that has the first blocks of the other's main chain, at least one, and serves them by
  -- number, and whose last block that cannot be undone is not above its head: the other's answer
  -- to its synopsis starts with its own head and goes on along the chain, as far as the other has
  -- blocks and `limit` allows; with a limit of 1 or more, the count beside it is that of the
  -- other's blocks behind the answer.
  pub exchange_lem :
      (mine : Database)
      → Serves mine main
      → 1 ≤ mine.head_block_num
      → mine.head_block_num ≤ theirs.head_block_num
      → mine.last_non_undoable_block_num ≤ mine.head_block_num
      → 1 ≤ limit
      → exchange mine theirs limit
        ≡ ok (
          map main (
              span mine.head_block_num
                (min limit (theirs.head_block_num + 1 - mine.head_block_num))),
          theirs.head_block_num + 1 - mine.head_block_num - limit,
        )
  unfolding exchange
  exchange_lem mine s a b u o =
      let (ns, l, r, n) = whole_chain_synopsis mine main s 0 a u (omega (arith, s.narrow)) in
      let l' : Ladder mine.head_block_num mine.head_block_num
          (max 1 mine.last_non_undoable_block_num) ns =
        subst (λ t. Ladder t mine.head_block_num (max 1 mine.last_non_undoable_block_num) ns)
          (omega arith) l in
      let last = back-Ladder main mine.head_block_num _ ns (omega arith) l' in
      let found =
        last_known-back theirs main k mine.head_block_num (map main ns) a b
          (Ladder-nonempty main _ _ _ ns l) last in
      ap (λ synopsis. synopsis >>= λ ids. get_block_ids theirs ids limit) r
      ∙ answer_from (map main ns) mine.head_block_num found a b o
