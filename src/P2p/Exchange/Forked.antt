-- ===== src/P2p/Exchange/Forked.antt =====
-- An exchange of two nodes whose chains part.
use peerplays_contract_node.Prelude.{
  ℕ, ◌+◌, ◌-◌, ◌/◌, ◌≤◌, ◌<◌, ◌≡◌, refl, ap, ◌∙◌, subst, Bool, true, false, List, [], ◌∷◌, ◌++◌,
  All, All-reverse, map, reverse, reverse-cons, min, max, span, arith, Result, ok, fail, ◌>>=◌,
  dec_lt,
}
use peerplays_contract_node.P2p.Defs.{Hash, Database}
use peerplays_contract_node.P2p.BlockIds.{
  find_shared, is_shared, means_no_blocks, last_known_block, get_block_ids,
}
use peerplays_contract_node.P2p.BlockIds.Fill.{Serves}
use peerplays_contract_node.P2p.BlockIds.Search.{IsForeign, foreign-is_shared}
use peerplays_contract_node.P2p.Synopsis.Ladder.{Ladder}
use peerplays_contract_node.P2p.Synopsis.Chains.{whole_chain_synopsis}
use peerplays_contract_node.P2p.Exchange.{Knows, exchange, answer_from, is_shared-main}

find_shared-append :
    (db : Database) (xs ys : List Hash) (id : Hash)
    → find_shared db xs ≡ ok id
    → find_shared db (xs ++ ys) ≡ ok id
unfolding find_shared
find_shared-append db [] ys id h = cc
find_shared-append db (x ∷ xs) ys id h =
    by_test (is_shared db x) refl (find_shared-append db xs ys id)
  where
    by_test :
        (r : Result Bool)
        → is_shared db x ≡ r
        → (find_shared db xs ≡ ok id → find_shared db (xs ++ ys) ≡ ok id)
        → find_shared db (x ∷ xs ++ ys) ≡ ok id
    by_test (ok true) e rest = ground arith
    by_test (ok false) e rest = ground (arith, rest)
    by_test (fail f) e rest = ground arith

find_shared-foreign :
    (db : Database) (xs ys : List Hash)
    → All (IsForeign db) xs
    → find_shared db (xs ++ ys) ≡ find_shared db ys
unfolding find_shared
find_shared-foreign db [] ys h = refl
find_shared-foreign db (x ∷ xs) ys (h, hs) =
    ground (arith, foreign-is_shared db x h, find_shared-foreign db xs ys hs)

module _ (ours main : ℕ → Hash) (theirs : Database) (k : Knows theirs main) (common top : ℕ)
    (agree : (n : ℕ) → 1 ≤ n → n ≤ common → ours n ≡ main n)
    (apart : (n : ℕ) → common < n → n ≤ top → IsForeign theirs (ours n))
    (reached : common ≤ theirs.head_block_num) where
  map-IsForeign :
      (ns : List ℕ) (low : ℕ)
      → Ladder top top low ns
      → common < low
      → All (IsForeign theirs) (map ours ns)
  map-IsForeign [] low l h = tt
  map-IsForeign (n ∷ []) low (e, a, b) h = (apart n (omega (arith, e)) (omega (arith, e)), tt)
  map-IsForeign (n ∷ m ∷ ns) low (e, a, l) h = (
    apart n (omega (arith, e)) (omega (arith, e)),
    map-IsForeign (m ∷ ns) (low + ((top - low) / 2 + 1)) l (omega arith),
  )

  -- The last rung that is not above the common blocks is found.
  abbrev FoundRung : ℕ → List ℕ → Type 0
  FoundRung low ns =
      (n : ℕ) × (low ≤ n)
      × (n ≤ common)
      × (common < n + ((top - n) / 2 + 1))
      × (find_shared theirs (reverse (map ours ns)) ≡ ok (main n))

  lowest : (low : ℕ) → 1 ≤ low → low ≤ common → find_shared theirs (ours low ∷ []) ≡ ok (main low)
  unfolding find_shared
  lowest low o h = ground (arith, agree low o h, is_shared-main theirs main k low o (omega arith))

  with_lowest :
      (n m low : ℕ) (ns : List ℕ)
      → n ≡ low
      → reverse (map ours (n ∷ m ∷ ns)) ≡ reverse (map ours (m ∷ ns)) ++ ours low ∷ []
  with_lowest n m low ns e =
      reverse-cons (ours n) (map ours (m ∷ ns))
      ∙ ap (λ j. reverse (map ours (m ∷ ns)) ++ ours j ∷ []) e

  Ladder-FoundRung :
      (ns : List ℕ) (low : ℕ)
      → Ladder top top low ns
      → 1 ≤ low
      → low ≤ common
      → common ≤ top
      → FoundRung low ns
  Ladder-FoundRung [] low l o h c = absurd l
  Ladder-FoundRung (n ∷ []) low (e, a, b) o h c =
      (low, omega arith, h, omega arith, rw e (lowest low o h))
  Ladder-FoundRung (n ∷ m ∷ ns) low (e, a, l) o h c =
      elim (dec_lt common (low + ((top - low) / 2 + 1))) [
        | yes above ↦ (
          low,
          omega arith,
          h,
          above,
          ap (find_shared theirs) (with_lowest n m low ns e)
              ∙ find_shared-foreign theirs (reverse (map ours (m ∷ ns))) (ours low ∷ []) (
                  All-reverse (IsForeign theirs) (map ours (m ∷ ns))
                    (map-IsForeign (m ∷ ns) (low + ((top - low) / 2 + 1)) l above))
              ∙ lowest low o h,
        )
        | no below ↦
            let (x, up, within, near, found) =
              Ladder-FoundRung (m ∷ ns) (low + ((top - low) / 2 + 1)) l (omega arith) (omega arith)
                c in
            (
              x,
              omega arith,
              within,
              near,
              ap (find_shared theirs) (with_lowest n m low ns e)
                  ∙ find_shared-append theirs (reverse (map ours (m ∷ ns))) (ours low ∷ []) (main x)
                      found,
            )
      ]

  known_from :
      (low n : ℕ) (ns : List ℕ)
      → Ladder top top low ns
      → 1 ≤ low
      → low ≤ common
      → find_shared theirs (reverse (map ours ns)) ≡ ok (main n)
      → last_known_block theirs (map ours ns) ≡ ok (main n)
  unfolding last_known_block means_no_blocks
  known_from low n [] l o h found = absurd l
  known_from low n (j ∷ []) (e, a, b) o h found =
      ground (arith, found, agree low o h, k.not_zero low o (omega arith))
  known_from low n (j ∷ m ∷ ns) l o h found = found

-- Two nodes that serve their chains by number, of which the one that answers knows its blocks, with
-- ids that are not zero (`Knows`). The chains agree up to a common block, 1 or higher, and part
-- behind it: the one that asks has its last block that cannot be undone not above the common
-- block, and its later blocks are not zero and unknown to the other or not on its chain. With a
-- limit of 1 or more, the answer starts at a common block and goes on along the other's chain; from
-- there to the common block it is at most half as far as to the head of the node that asks. The
-- count beside it is that of the other's blocks behind the answer.
pub exchange_forked :
    (ours main : ℕ → Hash) (mine theirs : Database) (k : Knows theirs main) (common limit : ℕ)
    → Serves mine ours
    → ((n : ℕ) → 1 ≤ n → n ≤ common → ours n ≡ main n)
    → ((n : ℕ) → common < n → n ≤ mine.head_block_num → IsForeign theirs (ours n))
    → 1 ≤ common
    → common ≤ mine.head_block_num
    → common ≤ theirs.head_block_num
    → mine.last_non_undoable_block_num ≤ common
    → 1 ≤ limit
    → (n : ℕ) × (1 ≤ n)
      × (n ≤ common)
      × (common - n ≤ (mine.head_block_num - n) / 2)
      × (exchange mine theirs limit
          ≡ ok (
            map main (span n (min limit (theirs.head_block_num + 1 - n))),
            theirs.head_block_num + 1 - n - limit,
          ))
unfolding exchange
exchange_forked ours main mine theirs k common limit s agree apart o c t u m =
    let low : ℕ = max 1 mine.last_non_undoable_block_num in
    let (ns, l, r, count) =
      whole_chain_synopsis mine ours s 0 (omega arith) (omega arith) (omega (arith, s.narrow)) in
    let ladder : Ladder mine.head_block_num mine.head_block_num low ns =
      subst (λ h. Ladder h mine.head_block_num low ns) (omega arith) l in
    let (n, a, b, near, found) =
      Ladder-FoundRung ours main theirs k common mine.head_block_num agree apart t ns low ladder
        (omega arith) (omega arith) c in
    (
      n,
      omega arith,
      b,
      omega arith,
      ap (λ synopsis. synopsis >>= λ ids. get_block_ids theirs ids limit) r
          ∙ answer_from main theirs k limit (map ours ns) n
              (known_from ours main theirs k common mine.head_block_num agree apart t low n ns
                ladder (omega arith) (omega arith) found)
              (omega arith) (omega arith) m,
    )
