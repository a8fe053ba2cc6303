-- ===== src/P2p/Exchange/Rounds.antt =====
-- A node that exchanges, takes the blocks that it is told of, and exchanges again.
use peerplays_contract_node.Prelude.{
  ℕ, zero, suc, ◌+◌, ◌-◌, ◌*◌, ◌≤◌, ◌≡◌, subst, ap, ◌∙◌, map, min, span, arith, Result, ok, ◌>>=◌,
}
use native.Mathlib.Nat.{suc-mul}
use peerplays_contract_node.P2p.Defs.{Hash, Database, back}
use peerplays_contract_node.P2p.BlockIds.Fill.{Serves, back-span}
use peerplays_contract_node.P2p.Exchange.{Knows, exchange, exchange_lem}

-- A node at each height up to `top` of one main chain.
pub record Grows (at_height : ℕ → Database) (main : ℕ → Hash) (top : ℕ) : Type 0 where
  pub head : (h : ℕ) → (at_height h).head_block_num ≡ h
  pub serves : (h : ℕ) → h ≤ top → Serves (at_height h) main
  pub undo : (h : ℕ) → (at_height h).last_non_undoable_block_num ≤ h

module _ (main : ℕ → Hash) (theirs : Database) (k : Knows theirs main) (at_height : ℕ → Database)
    (grows : Grows at_height main theirs.head_block_num) (limit : ℕ) where
  -- The height after some rounds: that of the last block of each answer.
  abbrev pub height_after : ℕ → ℕ → Result ℕ
  height_after zero height = ok height
  height_after (suc rounds) height = exchange (at_height height) theirs limit >>= λ (ids, left).
      height_after rounds (theirs.num_from_id (back ids))

  round :
      (height : ℕ)
      → 1 ≤ height
      → height ≤ theirs.head_block_num
      → 1 ≤ limit
      → exchange (at_height height) theirs limit
        ≡ ok (
          map main (span height (min limit (theirs.head_block_num + 1 - height))),
          theirs.head_block_num + 1 - height - limit,
        )
  round height a b o =
      subst
        (λ n.
          exchange (at_height height) theirs limit
          ≡ ok (
            map main (span n (min limit (theirs.head_block_num + 1 - n))),
            theirs.head_block_num + 1 - n - limit,
          ))
        (grows.head height)
        (exchange_lem main theirs k limit (at_height height) (grows.serves height b)
          (omega (arith, grows.head height)) (omega (arith, grows.head height))
          (omega (arith, grows.head height, grows.undo height)) o)

  new_height :
      (height count : ℕ)
      → 1 ≤ height
      → height + count ≤ theirs.head_block_num
      → theirs.num_from_id (back (map main (span height (suc count)))) ≡ height + count
  new_height height count a b =
      ap theirs.num_from_id (back-span theirs main k.serves limit height count)
      ∙ k.serves.numbered (height + count) (omega arith) b

  -- One node knows and serves its main chain, with ids that are not zero (`Knows`); another has the
  -- first blocks of that chain, from height 1 on, serves them by number at each height, and has
  -- its last block that cannot be undone not above its head (`Grows`). If it takes the blocks of
  -- each answer, with a limit of 1 or more, each exchange brings it the limit less 1 higher, until
  -- it is at the other's head: with a limit of 2 or more it gets there.
  pub height_after_lem :
      (rounds height : ℕ)
      → 1 ≤ height
      → height ≤ theirs.head_block_num
      → 1 ≤ limit
      → height_after rounds height ≡ ok (min theirs.head_block_num (height + rounds * (limit - 1)))
  height_after_lem zero height a b o = ap ok (omega arith)
  height_after_lem (suc rounds) height a b o =
      let count : ℕ = min limit (theirs.head_block_num + 1 - height) - 1 in
      let counted : min limit (theirs.head_block_num + 1 - height) ≡ suc count = omega arith in
      ap (λ r. r >>= λ (ids, left). height_after rounds (theirs.num_from_id (back ids)))
        (round height a b o)
      ∙ ap (λ n. height_after rounds (theirs.num_from_id (back (map main (span height n))))) counted
      ∙ ap (height_after rounds) (new_height height count a (omega arith))
      ∙ height_after_lem rounds (height + count) (omega arith) (omega arith) o
      ∙ ap ok (omega (arith, suc-mul rounds (limit - 1)))
