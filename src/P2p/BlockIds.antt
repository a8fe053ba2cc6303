-- ===== src/P2p/BlockIds.antt =====
-- `NodeInterface::get_block_ids` of Modules/P2pHandler.cpp, with `blockIsInOurChain`: the ids of
-- the blocks that a peer lacks, told from the synopsis of its chain.
pub mod Search
pub mod Fill
pub mod Ends
use peerplays_contract_node.Prelude.{
  ℕ, zero, suc, ◌+◌, ◌-◌, Bool, true, false, ◌&&◌, List, [], ◌∷◌, ◌++◌, reverse, length, leb, ltb,
  ◌==◌, if◌then◌else◌, add32, Result, ok, fail, ◌>>=◌, fc_exception, out_of_fuel,
  peer_is_on_an_unreachable_fork,
}
use peerplays_contract_node.P2p.Defs.{Hash, Database, back}

unfoldable pub block_is_in_our_chain : Database → Hash → Result Bool
block_is_in_our_chain db id = do
  preferred ← db.get_block_id_for_num (db.num_from_id id)
  ok (id == preferred)

-- The test of the search loop, with the short cuts of `||` and `&&`.
unfoldable pub is_shared : Database → Hash → Result Bool
is_shared db id =
    let on_chain = block_is_in_our_chain db id in
    if id == 0 then ok true else if db.is_known_block id then on_chain else ok false

-- The first shared block of the list, which is the synopsis backwards.
unfoldable pub find_shared : Database → List Hash → Result Hash
find_shared db [] = fail (fc_exception peer_is_on_an_unreachable_fork)
find_shared db (id ∷ ids) =
    is_shared db id >>= λ shared. elim shared [ true ↦ ok id | false ↦ find_shared db ids ]

-- A peer with no blocks sends no synopsis, or that of one zero id in old versions.
unfoldable pub means_no_blocks : List Hash → Bool
means_no_blocks [] = true
means_no_blocks (id ∷ []) = id == 0
means_no_blocks (id ∷ jd ∷ ids) = false

unfoldable pub last_known_block : Database → List Hash → Result Hash
last_known_block db synopsis =
    let found = find_shared db (reverse synopsis) in
    if means_no_blocks synopsis then ok 0 else found

-- The loop over block numbers; `num` is a `uint32_t`.
unfoldable pub fill : Database → ℕ → ℕ → ℕ → List Hash → Result (List Hash)
fill db limit zero num result = fail out_of_fuel
fill db limit (suc fuel) num result =
    elim (leb num db.head_block_num && ltb (length result) limit) [
      | false ↦ ok result
      | true ↦ elim (ltb 0 num) [
        | false ↦ fill db limit fuel (add32 num 1) result
        | true ↦ db.get_block_id_for_num num >>= λ id.
            fill db limit fuel (add32 num 1) (result ++ id ∷ [])
      ]
    ]

-- What is left on the chain behind the last id of the result.
unfoldable pub remaining : Database → List Hash → ℕ
remaining db [] = 0
remaining db (id ∷ ids) =
    let last = db.num_from_id (back (id ∷ ids)) in
    if ltb last db.head_block_num then db.head_block_num - last else 0

-- The ids, and the value of `remaining_item_count`.
unfoldable pub get_block_ids : Database → List Hash → ℕ → Result (List Hash × ℕ)
get_block_ids db synopsis limit =
    let ids = do
      last_known ← last_known_block db synopsis
      result ← fill db limit (limit + 2) (db.num_from_id last_known) []
      ok (result, remaining db result)
    in if db.head_block_num == 0 then ok ([], 0) else ids
