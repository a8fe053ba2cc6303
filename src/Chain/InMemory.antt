-- ===== src/Chain/InMemory.antt =====
-- A persistence database in memory: what the model asks of the index by name can be had.
use peerplays_contract_node.Prelude.{
  ℕ, ◌+◌, ◌<◌, ◌≡◌, ◌≢◌, refl, Option, none, some, List, [], ◌∷◌, String, str_eq, if◌then◌else◌,
  max, arith,
}
use peerplays_contract_node.Chain.Records.{ContractRecord, Persistence}

-- The records by name; the number after the greatest is free.
abbrev pub Records : Type 0
Records = List (String × ℕ)

abbrev pub seek : Records → String → Option ℕ
seek [] name = none
seek ((n, i) ∷ s) name = if str_eq name n then some i else seek s name

abbrev pub next : Records → ℕ
next [] = 0
next ((n, i) ∷ s) = max (i + 1) (next s)

seek-next : (s : Records) (name : String) (i : ℕ) → seek s name ≡ some i → i < next s
seek-next [] name i e = cc
seek-next ((n, j) ∷ s) name i e = ground (arith, seek-next s name i)

abbrev pub search_records : Records → String → Option ContractRecord
search_records s name = elim (seek s name) [
  | none ↦ none
  | some i ↦ some (record { number = i; name = name })
]

pub search-found :
    (s : Records) (name : String) (i : ℕ)
    → seek s name ≡ some i
    → search_records s name ≡ some (record { number = i; name = name })
search-found s name i e = ground arith

pub search-absent :
    (s : Records) (name : String) (r : ContractRecord)
    → seek s name ≡ none
    → search_records s name ≡ some r
    → r.name ≢ name
search-absent s name r e l = ground arith

pub next-fresh : (s : Records) (name other : String) (i : ℕ) → seek s other ≡ some i → next s ≢ i
next-fresh s name other i e = ground (arith, seek-next s other i)

abbrev pub in_memory : Persistence
in_memory = record {
  Store = Records;
  lower_bound = search_records;
  create = λ s name. ((name, next s) ∷ s, record { number = next s; name = name });
  find = seek;
  lower_bound_found = search-found;
  lower_bound_absent = search-absent;
  create_name = λ s name. refl;
  find_create = λ s name other e. refl;
  create_fresh = next-fresh;
}
