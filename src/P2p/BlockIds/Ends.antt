-- ===== src/P2p/BlockIds/Ends.antt =====
-- `get_block_ids` ends, whatever the synopsis holds.
use peerplays_contract_node.Prelude.{
  ℕ, zero, suc, ◌+◌, ◌≤◌, ◌≡◌, ◌≢◌, add32, true, ◌&&◌, List, [], ◌∷◌, ◌++◌, reverse, length,
  length-append, arith, ok, fail, out_of_fuel, leb, ltb, ◌==◌,
}
use peerplays_contract_node.P2p.Defs.{Hash, Database}
use peerplays_contract_node.P2p.Ends.{
  Ends, Done, Ends-bind, Ends-intro, Ends-elim, Ends-imp, Ends-branch, Ends-if, Bounded,
}
use peerplays_contract_node.P2p.BlockIds.{
  block_is_in_our_chain, is_shared, find_shared, last_known_block, means_no_blocks, fill,
  get_block_ids,
}

module _ (db : Database) (after : ℕ) (b : Bounded db after) where
  pub block_is_in_our_chain-Ends :
      (id : Hash)
      → Ends
          (λ ours. ours ≡ true → db.num_from_id id ≤ db.head_block_num)
          (block_is_in_our_chain db id)
  unfolding block_is_in_our_chain
  block_is_in_our_chain-Ends id =
      Ends-bind (λ found. db.get_block_id_for_num (db.num_from_id id) ≡ ok found) _
        (db.get_block_id_for_num (db.num_from_id id)) _ (Ends-intro _ (b.gets _))
        (λ found e same. b.in_chain _ found e)

  is_shared-Ends : (id : Hash) → Ends Done (is_shared db id)
  unfolding is_shared
  is_shared-Ends id =
      Ends-if Done (id == 0) _ _ (λ e. tt)
        (λ e.
          Ends-if Done (db.is_known_block id) _ _
            (λ known.
              Ends-imp _ Done (block_is_in_our_chain db id) (λ x h. tt)
                (block_is_in_our_chain-Ends id))
            (λ unknown. tt))

  find_shared-Ends : (ids : List Hash) → Ends Done (find_shared db ids)
  unfolding find_shared
  find_shared-Ends [] = λ same. cc
  find_shared-Ends (id ∷ ids) =
      Ends-bind Done Done (is_shared db id) _ (is_shared-Ends id)
        (λ shared h. Ends-branch Done shared _ _ (λ e. tt) (λ e. find_shared-Ends ids))

  last_known_block-Ends : (synopsis : List Hash) → Ends Done (last_known_block db synopsis)
  unfolding last_known_block
  last_known_block-Ends synopsis =
      Ends-if Done (means_no_blocks synopsis) _ _ (λ e. tt)
        (λ e. find_shared-Ends (reverse synopsis))

  -- A turn at a number above 0 adds an id.
  fill-Ends :
      (limit fuel num : ℕ) (result : List Hash)
      → 1 ≤ num
      → limit + 1 ≤ fuel + length result
      → 1 ≤ fuel
      → Ends Done (fill db limit fuel num result)
  unfolding fill
  fill-Ends limit zero num result p f o = elim o [ ]
  fill-Ends limit (suc fuel) num result p f o =
      Ends-branch Done (leb num db.head_block_num && ltb (length result) limit) _ _
        (λ more.
          Ends-branch Done (ltb 0 num) _ _
            (λ above.
              Ends-bind Done Done (db.get_block_id_for_num num) _
                (Ends-imp _ Done (db.get_block_id_for_num num) (λ x h. tt)
                  (Ends-intro _ (b.gets num)))
                (λ id h.
                  fill-Ends limit fuel (add32 num 1) (result ++ id ∷ []) (ground (arith, b.narrow))
                    (omega (arith, length-append result (id ∷ []))) (ground arith)))
            (λ below. ground arith))
        (λ done. tt)

  fill_from_any : (limit fuel num : ℕ) → limit + 2 ≤ fuel → Ends Done (fill db limit fuel num [])
  unfolding fill
  fill_from_any limit zero zero f = absurd (omega arith)
  fill_from_any limit (suc fuel) zero f =
      Ends-branch Done (leb 0 db.head_block_num && ltb 0 limit) _ _
        (λ more. fill-Ends limit fuel 1 [] (omega arith) (omega arith) (omega arith)) (λ done. tt)
  fill_from_any limit fuel (suc num) f =
      fill-Ends limit fuel (suc num) [] (omega arith) (omega arith) (omega arith)

  -- On a database whose calls end and whose block numbers leave room below 2 ^ 32 (`Bounded`):
  -- `get_block_ids` ends for every synopsis and every limit, with a result or with what a call has
  -- thrown; its loop takes `limit + 2` turns at most.
  pub get_block_ids-Ends :
      (synopsis : List Hash) (limit : ℕ) → get_block_ids db synopsis limit ≢ fail out_of_fuel
  unfolding get_block_ids
  get_block_ids-Ends synopsis limit = Ends-elim Done (get_block_ids db synopsis limit) (
      Ends-if Done (db.head_block_num == 0) _ _ (λ e. tt)
        (λ e.
          Ends-bind Done Done (last_known_block db synopsis) _ (last_known_block-Ends synopsis)
            (λ last h.
              Ends-bind Done Done (fill db limit (limit + 2) (db.num_from_id last) []) _
                (fill_from_any limit (limit + 2) (db.num_from_id last) (omega arith))
                (λ ids k. tt))))
