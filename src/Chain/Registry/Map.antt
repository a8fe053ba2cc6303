-- ===== src/Chain/Registry/Map.antt =====
-- `std::map<uint8_t, std::string>`, in the order of its keys, and `std::find_if` over it.
use peerplays_contract_node.Prelude.{
  ℕ, ◌<◌, ◌≡◌, refl, Option, none, some, List, [], ◌∷◌, String, str_eq, str_eq_iff, if◌then◌else◌,
  ltb, ◌==◌, arith, ℕ_discrete, sym, subst, Bool-cases, inl, inr,
}

abbrev pub Loaded : Type 0
Loaded = List (ℕ × String)

-- Leaves an entry with the key as it is.
unfoldable pub emplace : ℕ → String → Loaded → Loaded
emplace k v [] = (k, v) ∷ []
emplace k v ((j, w) ∷ m) =
    if ltb k j then (k, v) ∷ (j, w) ∷ m else if k == j then (j, w) ∷ m else (j, w) ∷ emplace k v m

unfoldable pub find : ℕ → Loaded → Option String
find k [] = none
find k ((j, w) ∷ m) = if k == j then some w else find k m

-- The first entry, by key, with that name.
unfoldable pub find_name : String → Loaded → Option (ℕ × String)
find_name name [] = none
find_name name ((j, w) ∷ m) = if str_eq w name then some (j, w) else find_name name m

-- Keys rise along the list, above `k`.
abbrev pub Above : ℕ → Loaded → Type 0
Above k [] = Unit {0}
Above k ((j, w) ∷ m) = (k < j) × Above j m

abbrev pub IsSorted : Loaded → Type 0
IsSorted [] = Unit {0}
IsSorted ((j, w) ∷ m) = Above j m

emplace-Above : (k b : ℕ) (v : String) (m : Loaded) → b < k → Above b m → Above b (emplace k v m)
unfolding emplace
emplace-Above k b v [] h a = (h, tt)
emplace-Above k b v ((j, w) ∷ m) h a = ground (arith, emplace-Above k j v m)

pub emplace-IsSorted : (k : ℕ) (v : String) (m : Loaded) → IsSorted m → IsSorted (emplace k v m)
unfolding emplace
emplace-IsSorted k v [] h = tt
emplace-IsSorted k v ((j, w) ∷ m) h = ground (arith, emplace-Above k j v m)

find-below : (k b : ℕ) (m : Loaded) → Above b m → k < b → find k m ≡ none
unfolding find
find-below k b [] a h = refl
find-below k b ((j, w) ∷ m) a h = ground (arith, find-below k j m)

Above-IsSorted : (b : ℕ) (m : Loaded) → Above b m → IsSorted m
Above-IsSorted b [] a = tt
Above-IsSorted b ((j, w) ∷ m) a = a.1

abbrev pub or_else : Option String → String → String
or_else none v = v
or_else (some w) v = w

-- The map after `emplace`: the old entry of the key stays, if there was one.
pub find-emplace :
    (k i : ℕ) (v : String) (m : Loaded)
    → IsSorted m
    → find i (emplace k v m) ≡ (if i == k then some (or_else (find k m) v) else find i m)
unfolding find emplace
find-emplace k i v [] s = ground arith
find-emplace k i v ((j, w) ∷ m) s =
    ground
      (arith, find-emplace k i v m (Above-IsSorted j m s), find-below i j m s, find-below k j m s)

-- Every entry satisfies `P`.
abbrev pub Entries : (ℕ → String → Type 0) → Loaded → Type 0
Entries P [] = Unit {0}
Entries P ((j, w) ∷ m) = P j w × Entries P m

pub emplace-Entries :
    (P : ℕ → String → Type 0) (k : ℕ) (v : String) (m : Loaded)
    → P k v
    → Entries P m
    → Entries P (emplace k v m)
unfolding emplace
emplace-Entries P k v [] p h = (p, tt)
emplace-Entries P k v ((j, w) ∷ m) p h = ground (arith, emplace-Entries P k v m p h.1)

pub Entries-imp :
    (P Q : ℕ → String → Type 0) (m : Loaded)
    → ((k : ℕ) (v : String) → P k v → Q k v)
    → Entries P m
    → Entries Q m
Entries-imp P Q [] f h = tt
Entries-imp P Q ((j, w) ∷ m) f h = (f j w h.0, Entries-imp P Q m f h.1)

-- `find_name` answers the key of the only entries with the name.
pub find_name-Entries :
    (name : String) (space : ℕ) (m : Loaded)
    → Entries (λ k v. v ≡ name → k ≡ space) m
    → find space m ≡ some name
    → find_name name m ≡ some (space, name)
unfolding find find_name
find_name-Entries name space [] e h = cc
find_name-Entries name space ((j, w) ∷ m) (e, es) h =
    ground (arith, str_eq_iff w name, e, find_name-Entries name space m es)

pub Entries-find :
    (P : ℕ → String → Type 0) (k : ℕ) (v : String) (m : Loaded)
    → Entries P m
    → find k m ≡ some v
    → P k v
unfolding find
Entries-find P k v [] h e = cc
Entries-find P k v ((j, w) ∷ m) (h, hs) e = elim (ℕ_discrete k j) [
  | yes same ↦
      let name_same : w ≡ v = ground arith in
      subst (λ i. P i v) (sym same) (subst (λ u. P j u) name_same h)
  | no other ↦ Entries-find P k v m hs (ground arith)
]

find-absent : (b : ℕ) (m : Loaded) → Above b m → find b m ≡ none
unfolding find
find-absent b [] a = refl
find-absent b ((j, w) ∷ m) a = ground (arith, find-below b j m)

-- What `find_name` answers is what is under that key, and has the name.
pub find_name-find :
    (name : String) (m : Loaded) (space : ℕ) (w : String)
    → IsSorted m
    → find_name name m ≡ some (space, w)
    → (find space m ≡ some w) × (w ≡ name)
unfolding find find_name
find_name-find name [] space w s e = absurd (ground arith)
find_name-find name ((j, v) ∷ m) space w s e = elim (Bool-cases (str_eq v name)) [
  | inl same ↦ ground (arith, str_eq_iff v name)
  | inr differs ↦
      let e' : find_name name m ≡ some (space, w) = ground arith in
      let (found, named) = find_name-find name m space w (Above-IsSorted j m s) e' in
      elim (ℕ_discrete space j) [
        | yes at_head ↦ absurd (ground (arith, at_head, found, find-absent j m s))
        | no behind ↦ (ground (arith, found), named)
      ]
]
