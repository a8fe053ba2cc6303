-- ===== src/Node/Blocks/Linked.antt =====
-- Blocks that come from peers, in any order and of any quality, extend the chain link by link.
use peerplays_contract_node.Prelude.{
  ◌≡◌, inl, inr, Bool, true, false, ◌&&◌, ◌==◌, ==_iff, Bool-cases, List, [], ◌∷◌, ok, fail, Reason,
  fc_exception, arith, if◌then◌else◌,
}
use peerplays_contract_node.P2p.Defs.{Hash, SignedBlock}
use peerplays_contract_node.Node.Blocks.{BlockChain, push_checked, on_block_received}

module _ {Chain : Type 0} (blocks : BlockChain Chain) where
  -- Pushing a block that is on the head works and makes it the head, or comes back and leaves the
  -- head where it was, or throws an `fc::exception` and leaves it too.
  pub data Pushes (block : SignedBlock) (c : Chain) : Type 0 where
    works :
        (after : Chain)
        → blocks.push_block block c ≡ (ok tt, after)
        → blocks.head_block_id after ≡ block.id
        → Pushes block c
    stays :
        (after : Chain)
        → blocks.push_block block c ≡ (ok tt, after)
        → blocks.head_block_id after ≡ blocks.head_block_id c
        → Pushes block c
    throws :
        (r : Reason) (after : Chain)
        → blocks.push_block block c ≡ (fail (fc_exception r), after)
        → blocks.head_block_id after ≡ blocks.head_block_id c
        → Pushes block c

  -- The slot takes the block: it is on the head, and the body of the `try` throws nothing.
  abbrev pub takes : SignedBlock → Chain → Bool
  takes b c =
      (b.previous == blocks.head_block_id c)
      && elim (push_checked blocks b c).0 [ ok u ↦ true | fail e ↦ false ]

  -- One block or none, if the slot takes it.
  abbrev pub taken_of : List SignedBlock → Chain → List SignedBlock
  taken_of [] c = []
  taken_of (b ∷ bs) c = if takes b c then b ∷ [] else []

  -- A run of blocks from one head to another, each on top of the one before.
  abbrev pub IsLinked : Hash → List SignedBlock → Hash → Type 0
  IsLinked h [] k = k ≡ h
  IsLinked h (b ∷ bs) k = (b.previous ≡ h) × IsLinked b.id bs k

  -- A block is taken and is the head, or is not taken and leaves the head.
  pub data Received (b : SignedBlock) (c : Chain) : Type 0 where
    taken :
        takes b c ≡ true
        → b.previous ≡ blocks.head_block_id c
        → blocks.head_block_id (on_block_received blocks b c).1 ≡ b.id
        → Received b c
    left :
        takes b c ≡ false
        → blocks.head_block_id (on_block_received blocks b c).1 ≡ blocks.head_block_id c
        → Received b c

  Received-on_head :
      (b : SignedBlock) (c : Chain)
      → (b.previous == blocks.head_block_id c) ≡ true
      → b.previous ≡ blocks.head_block_id c
      → Pushes b c
      → Received b c
  unfolding on_block_received push_checked
  Received-on_head b c on same (works after e h) =
      taken (ground (arith, on, e, h)) same (ground (arith, on, e, h))
  Received-on_head b c on same (stays after e h) =
      elim (Bool-cases (blocks.head_block_id after == b.id)) [
        | inl head ↦
            taken (ground (arith, on, e, head)) same
              (ground (arith, on, e, ==_iff (blocks.head_block_id after) b.id, head))
        | inr other ↦ left (ground (arith, on, e, other)) (ground (arith, on, e, h))
      ]
  Received-on_head b c on same (throws r after e h) =
      left (ground (arith, on, e)) (ground (arith, on, e, h))

  pub receive_block :
      (b : SignedBlock) (c : Chain)
      → (b.previous ≡ blocks.head_block_id c → Pushes b c)
      → Received b c
  unfolding on_block_received
  receive_block b c pushes = elim (Bool-cases (b.previous == blocks.head_block_id c)) [
    | inl on ↦
        let same = (==_iff b.previous (blocks.head_block_id c)).0 on in
        Received-on_head b c on same (pushes same)
    | inr off ↦ left (ground (arith, off)) (ground (arith, off))
  ]
