-- ===== src/Node/Dump/Lines.antt =====
-- What a dump has written: its objects, its contracts, and its headings.
use peerplays_contract_node.Prelude.{
  ℕ, ◌≡◌, ◌≢◌, refl, ap, Option, none, some, List, [], ◌∷◌, ◌++◌, String, Result, ok, fail,
}
use peerplays_contract_node.Prelude.Int.{ℤ, pos, negsuc}
use peerplays_contract_node.Chain.Registry.Map.{Loaded}
use peerplays_contract_node.Node.Dump.{Line, dumping, blank, table, dumped}

abbrev pub all_names : Loaded → List String
all_names [] = []
all_names ((id, name) ∷ contracts) = name ∷ all_names contracts

module _ {O : Type 0} where
  abbrev pub objects_of : List (Line O) → List O
  objects_of [] = []
  objects_of (dumping name ∷ lines) = objects_of lines
  objects_of (blank ∷ lines) = objects_of lines
  objects_of (table t ∷ lines) = objects_of lines
  objects_of (dumped o ∷ lines) = o ∷ objects_of lines

  abbrev pub names_of : List (Line O) → List String
  names_of [] = []
  names_of (dumping name ∷ lines) = name ∷ names_of lines
  names_of (blank ∷ lines) = names_of lines
  names_of (table t ∷ lines) = names_of lines
  names_of (dumped o ∷ lines) = names_of lines

  abbrev pub concat_indexes : List (List O) → List O
  concat_indexes [] = []
  concat_indexes (index ∷ indexes) = index ++ concat_indexes indexes

  -- The objects of the contracts, in the order of their spaces and of the indexes.
  abbrev pub all_objects : (ℕ → List (List O)) → Loaded → List O
  all_objects indexes [] = []
  all_objects indexes ((id, name) ∷ contracts) =
      concat_indexes (indexes id) ++ all_objects indexes contracts

  pub objects_of-append :
      (xs ys : List (Line O)) → objects_of (xs ++ ys) ≡ objects_of xs ++ objects_of ys
  objects_of-append [] ys = refl
  objects_of-append (dumping name ∷ xs) ys = objects_of-append xs ys
  objects_of-append (blank ∷ xs) ys = objects_of-append xs ys
  objects_of-append (table u ∷ xs) ys = objects_of-append xs ys
  objects_of-append (dumped o ∷ xs) ys = ap (λ os. o ∷ os) (objects_of-append xs ys)

  pub names_of-append : (xs ys : List (Line O)) → names_of (xs ++ ys) ≡ names_of xs ++ names_of ys
  names_of-append [] ys = refl
  names_of-append (dumping name ∷ xs) ys = ap (λ ns. name ∷ ns) (names_of-append xs ys)
  names_of-append (blank ∷ xs) ys = names_of-append xs ys
  names_of-append (table u ∷ xs) ys = names_of-append xs ys
  names_of-append (dumped o ∷ xs) ys = names_of-append xs ys

  module _ (type_of : O → Option (Result ℕ)) where
    abbrev pub StandsUnder : ℤ → Option (Result ℕ) → Type 0
    StandsUnder t none = Unit {0}
    StandsUnder t (some (ok u)) = t ≡ pos u
    StandsUnder t (some (fail e)) = ⊥

    -- Under the heading `t`, or none: each object with a type stands under that of its type, and no
    -- heading repeats the one before it.
    abbrev pub Headed : ℤ → List (Line O) → Type 0
    Headed t [] = Unit {0}
    Headed t (dumping name ∷ lines) = Headed (negsuc 0) lines
    Headed t (blank ∷ lines) = Headed t lines
    Headed t (table u ∷ lines) = (t ≢ pos u) × Headed (pos u) lines
    Headed t (dumped o ∷ lines) = StandsUnder t (type_of o) × Headed t lines

    pub Headed-append :
        (t : ℤ) (xs ys : List (Line O))
        → Headed t xs
        → ((u : ℤ) → Headed u ys)
        → Headed t (xs ++ ys)
    Headed-append t [] ys h k = k t
    Headed-append t (dumping name ∷ xs) ys h k = Headed-append (negsuc 0) xs ys h k
    Headed-append t (blank ∷ xs) ys h k = Headed-append t xs ys h k
    Headed-append t (table u ∷ xs) ys (n, h) k = (n, Headed-append (pos u) xs ys h k)
    Headed-append t (dumped o ∷ xs) ys (s, h) k = (s, Headed-append t xs ys h k)
