-- ===== src/P2p/Synopsis/Ladder.antt =====
-- The block numbers that the loop of `get_blockchain_synopsis` visits.
use peerplays_contract_node.Prelude.{
  ℕ, zero, suc, ◌+◌, ◌-◌, ◌/◌, ◌^◌, ◌≤◌, ◌<◌, ◌≡◌, refl, ap, inl, inr, List, [], ◌∷◌, ◌++◌, map,
  append_assoc, length, arith, Bool-cases, leb, leb→le, ok, fail, out_of_fuel,
}
use native.Mathlib.Nat.{pow-suc}
use peerplays_contract_node.P2p.Defs.{Hash, Database, back}
use peerplays_contract_node.P2p.Synopsis.{Range, id_in_range, next_low, climb}

-- The numbers climb from `low`, each by half of what is left up to `top`, rounded up and at
-- least 1, and end with the last of them that is not above `high`.
abbrev pub Ladder : ℕ → ℕ → ℕ → List ℕ → Type 0
Ladder top high low [] = ⊥
Ladder top high low (n ∷ []) = (n ≡ low) × (low ≤ high) × (high < low + ((top - low) / 2 + 1))
Ladder top high low (n ∷ m ∷ ns) =
    (n ≡ low) × (low ≤ high) × Ladder top high (low + ((top - low) / 2 + 1)) (m ∷ ns)

pub next_low_lem :
    (top low : ℕ)
    → 1 ≤ low
    → low ≤ top
    → top + 1 < 2 ^ 32
    → next_low top low ≡ low + ((top - low) / 2 + 1)
unfolding next_low
next_low_lem top low o h w = omega arith

module _ (db : Database) (range : Range) (top : ℕ) (ids : ℕ → Hash) where
  -- What the loop returns after the entries so far.
  abbrev pub Climbs : ℕ → ℕ → ℕ → List Hash → Type 0
  Climbs rounds fuel low synopsis =
      (ns : List ℕ) × Ladder top range.high low ns
      × (climb db range top fuel low synopsis ≡ ok (synopsis ++ map ids ns))
      × (length ns ≤ rounds)

  climb_more :
      (rounds fuel low : ℕ) (synopsis : List Hash)
      → 1 ≤ low
      → low + ((top - low) / 2 + 1) ≤ range.high
      → range.high ≤ top
      → top + 1 < 2 ^ 32
      → id_in_range db range low ≡ ok (ids low)
      → Climbs rounds fuel (low + ((top - low) / 2 + 1)) (synopsis ++ ids low ∷ [])
      → Climbs (suc rounds) (suc fuel) low synopsis
  unfolding climb
  climb_more rounds fuel low synopsis o a b c e ([], l, r, n) = absurd l
  climb_more rounds fuel low synopsis o a b c e (m ∷ ns, l, r, n) = (
    low ∷ m ∷ ns,
    (refl, omega arith, l),
    ground (arith, next_low_lem top low, append_assoc synopsis (ids low ∷ []) (map ids (m ∷ ns))),
    omega arith,
  )

  pub climb-Climbs :
      (rounds fuel low : ℕ) (synopsis : List Hash)
      → rounds ≤ fuel
      → 1 ≤ low
      → low ≤ range.high
      → range.high ≤ top
      → top + 1 < 2 ^ 32
      → top + 1 - low < 2 ^ rounds
      → ((n : ℕ) → low ≤ n → n ≤ range.high → id_in_range db range n ≡ ok (ids n))
      → Climbs rounds fuel low synopsis
  unfolding climb
  climb-Climbs zero fuel low synopsis f o a b c d served = absurd (omega arith)
  climb-Climbs (suc rounds) zero low synopsis f o a b c d served = elim f [ ]
  climb-Climbs (suc rounds) (suc fuel) low synopsis f o a b c d served =
      elim (Bool-cases (leb (low + ((top - low) / 2 + 1)) range.high)) [
        | inl more ↦
            climb_more rounds fuel low synopsis o (leb→le _ _ more) b c (served low (omega arith) a)
              (climb-Climbs rounds fuel (low + ((top - low) / 2 + 1)) (synopsis ++ ids low ∷ [])
                (omega arith) (omega arith) (leb→le _ _ more) b c (omega (arith, pow-suc 2 rounds))
                (λ n l h. served n (omega arith) h))
        | inr done ↦ (
          low ∷ [],
          (refl, a, ground arith),
          ground (arith, next_low_lem top low, served low),
          omega arith,
        )
      ]

pub Ladder-le : (top high low : ℕ) (ns : List ℕ) → Ladder top high low ns → low ≤ high
Ladder-le top high low [] l = absurd l
Ladder-le top high low (n ∷ []) l = l.1
Ladder-le top high low (n ∷ m ∷ ns) l = l.1

-- A ladder to the top itself ends there.
pub back-Ladder :
    (ids : ℕ → Hash) (top low : ℕ) (ns : List ℕ)
    → low ≤ top
    → Ladder top top low ns
    → back (map ids ns) ≡ ids top
unfolding back
back-Ladder ids top low [] h l = absurd l
back-Ladder ids top low (n ∷ []) h l = ap ids (omega arith)
back-Ladder ids top low (n ∷ m ∷ ns) h (e, a, l) =
    back-Ladder ids top (low + ((top - low) / 2 + 1)) (m ∷ ns) (Ladder-le top top _ (m ∷ ns) l) l

-- From 1 towards the largest number of 32 bits a round adds nothing, so that no number of rounds
-- ends the loop in any range that has a block 1 with an id: `true_high - 1 + 2` wraps to 0.
pub climb-out_of_fuel :
    (db : Database) (range : Range) (id : Hash)
    → 1 ≤ range.high
    → id_in_range db range 1 ≡ ok id
    → (fuel : ℕ) (synopsis : List Hash)
    → climb db range (2 ^ 32 - 1) fuel 1 synopsis ≡ fail out_of_fuel
unfolding climb next_low
climb-out_of_fuel db range id h served zero synopsis = refl
climb-out_of_fuel db range id h served (suc fuel) synopsis =
    ground (arith, climb-out_of_fuel db range id h served fuel (synopsis ++ id ∷ []))
