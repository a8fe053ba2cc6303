-- ===== src/P2p/BlockIds/Search.antt =====
-- The search of `get_block_ids` for the last block of the peer's synopsis that is on our chain.
use peerplays_contract_node.Prelude.{
  subst, All-reverse, ◌<◌, ℕ, ◌≡◌, refl, sym, ap, ◌∙◌, ◌≢◌, ◌⊎◌, inl, inr, Bool, true, false, List,
  [], ◌∷◌, ◌++◌, reverse, append_assoc, arith, All, Result, ok, fail, fc_exception,
  peer_is_on_an_unreachable_fork,
}
use mathlib.Core.List.{reverse-append, reverse-cons, reverse-reverse}
use peerplays_contract_node.P2p.Defs.{Hash, Database}
use peerplays_contract_node.P2p.BlockIds.{
  block_is_in_our_chain, is_shared, find_shared, means_no_blocks, last_known_block, get_block_ids,
}

-- The block of that number on our chain is the given one.
abbrev pub OnChain : Database → Hash → Type 0
OnChain db id = db.get_block_id_for_num (db.num_from_id id) ≡ ok id

abbrev pub IsShared : Database → Hash → Type 0
IsShared db id = (id ≡ 0) ⊎ ((db.is_known_block id ≡ true) × OnChain db id)

-- The database knows no such block, or has another one of that number on our chain.
abbrev pub IsForeign : Database → Hash → Type 0
IsForeign db id =
    (id ≢ 0)
    × ((db.is_known_block id ≡ false)
        ⊎ ((other : Hash) × (db.get_block_id_for_num (db.num_from_id id) ≡ ok other)
            × (other ≢ id)))

module _ (db : Database) where
  is_shared-true : (id : Hash) → is_shared db id ≡ ok true → IsShared db id
  unfolding is_shared block_is_in_our_chain
  is_shared-true id h = ground arith

  is_shared-false : (id : Hash) → is_shared db id ≡ ok false → IsForeign db id
  unfolding is_shared block_is_in_our_chain
  is_shared-false id h = ground arith

  pub foreign-is_shared : (id : Hash) → IsForeign db id → is_shared db id ≡ ok false
  unfolding is_shared block_is_in_our_chain
  foreign-is_shared id (n, inl k) = ground arith
  foreign-is_shared id (n, inr (o, e, d)) = ground arith

  -- A list splits at an id that is shared, and all before it is foreign.
  abbrev Found : List Hash → Hash → Type 0
  Found ids id =
      (before : List Hash) × (after : List Hash) × (ids ≡ before ++ id ∷ after)
      × All (IsForeign db) before
      × IsShared db id

  Found-cons :
      (jd : Hash) (ids : List Hash) (id : Hash)
      → IsForeign db jd
      → Found ids id
      → Found (jd ∷ ids) id
  Found-cons jd ids id f (before, after, e, all, shared) =
      (jd ∷ before, after, ap (◌∷◌ jd) e, (f, all), shared)

  find_shared-Found : (ids : List Hash) (id : Hash) → find_shared db ids ≡ ok id → Found ids id
  unfolding find_shared
  find_shared-Found [] id h = cc
  find_shared-Found (jd ∷ ids) id h = split (is_shared db jd) refl (find_shared-Found ids id)
    where
      split :
          (r : Result Bool)
          → is_shared db jd ≡ r
          → (find_shared db ids ≡ ok id → Found ids id)
          → Found (jd ∷ ids) id
      split (ok true) e rec =
          let same : jd ≡ id = ground arith in
          ([], ids, ap (λ k. k ∷ ids) same, tt, subst (IsShared db) same (is_shared-true jd e))
      split (ok false) e rec = Found-cons jd ids id (is_shared-false jd e) (rec (ground arith))
      split (fail f) e rec = absurd (ground arith)

  find_shared-foreign :
      (ids : List Hash)
      → All (IsForeign db) ids
      → find_shared db ids ≡ fail (fc_exception peer_is_on_an_unreachable_fork)
  unfolding find_shared
  find_shared-foreign [] f = refl
  find_shared-foreign (id ∷ ids) (f, fs) =
      ground (arith, foreign-is_shared id f, find_shared-foreign ids fs)

  -- From a synopsis that does not mean an empty chain, a block that the search finds is the
  -- newest one that is shared: it is zero, or known and on our chain, and every id behind it is
  -- foreign.
  pub last_known_block-newest :
      (synopsis : List Hash) (id : Hash)
      → means_no_blocks synopsis ≡ false
      → last_known_block db synopsis ≡ ok id
      → (older : List Hash) × (newer : List Hash) × (synopsis ≡ older ++ id ∷ newer)
        × All (IsForeign db) newer
        × IsShared db id
  unfolding last_known_block
  last_known_block-newest synopsis id n h =
      let (before, after, e, foreign, shared) =
        find_shared-Found (reverse synopsis) id (ground arith) in
      (reverse after, reverse before, turn before after e, All-reverse _ before foreign, shared)
    where
      turn :
          (before after : List Hash)
          → reverse synopsis ≡ before ++ id ∷ after
          → synopsis ≡ reverse after ++ id ∷ reverse before
      turn before after e =
          sym (reverse-reverse synopsis)
          ∙ ap reverse e
          ∙ (simp (reverse-append, reverse-cons, append_assoc))

  -- On a chain with blocks, a peer whose synopsis does not mean an empty chain and lists only
  -- foreign blocks gets the exception that says so, and no ids.
  pub get_block_ids-foreign :
      (synopsis : List Hash) (limit : ℕ)
      → 0 < db.head_block_num
      → means_no_blocks synopsis ≡ false
      → All (IsForeign db) synopsis
      → get_block_ids db synopsis limit ≡ fail (fc_exception peer_is_on_an_unreachable_fork)
  unfolding get_block_ids last_known_block
  get_block_ids-foreign synopsis limit p n f =
      ground (arith, find_shared-foreign (reverse synopsis) (All-reverse _ synopsis f))
