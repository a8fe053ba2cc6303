-- ===== src/Infra/Api/Matches.antt =====
-- What matches a query.
use peerplays_contract_node.Prelude.{
  ℕ, zero, suc, ◌-◌, ◌^◌, ◌≤◌, ◌<◌, ◌≡◌, ◌↔◌, refl, sym, ap, ◌∙◌, Bool, true, false, ◌&&◌, some,
  List, [], ◌∷◌, ◌++◌, append_assoc, append-nil, arith, length, length-append, take, get_elem?, All,
  All-append, Bool-cases, inl, inr, dec_lt,
}
use peerplays_contract_node.Infra.TypeList.{slice, last, filter, filter_onto}
use peerplays_contract_node.Infra.TypeList.Slices.{slice_lem}
use peerplays_contract_node.Infra.Strings.{StringT, same_string}
use peerplays_contract_node.Infra.Strings.Split.{
  same_string_iff, IsPart, terminated, split_string-terminated,
}
use peerplays_contract_node.Infra.Api.{
  ApiDemarcation, slash, all_same, categorizations_match, filter_exact, filter_inexact,
  find_matching_advertisements, matches_of,
}

all_same_iff : (qs cs : List StringT) → length qs ≡ length cs → (all_same qs cs ≡ true) ↔ (qs ≡ cs)
unfolding all_same
all_same_iff [] [] e = (λ h. refl, λ h. refl)
all_same_iff [] (c ∷ cs) e = absurd (omega arith)
all_same_iff (q ∷ qs) [] e = absurd (omega arith)
all_same_iff (q ∷ qs) (c ∷ cs) e =
    let rest = all_same_iff qs cs (omega arith) in
    let here = same_string_iff q c in
    (λ h. ground (arith, rest, here), λ h. ground (arith, rest, here))

module _ {ℓ} {A : Type ℓ} where
  length-take : (n : ℕ) (xs : List A) → n ≤ length xs → length (take n xs) ≡ n
  length-take zero xs h = refl
  length-take (suc n) [] h = absurd (omega arith)
  length-take (suc n) (x ∷ xs) h = ground (arith, length-take n xs)

  take-length : (xs : List A) → take (length xs) xs ≡ xs
  take-length [] = refl
  take-length (x ∷ xs) = ap (λ t. x ∷ t) (take-length xs)

  take-append : (xs ys : List A) → take (length xs) (xs ++ ys) ≡ xs
  take-append [] ys = refl
  take-append (x ∷ xs) ys = ap (λ t. x ∷ t) (take-append xs ys)

  get_elem?-append : (xs : List A) (y : A) → get_elem? (xs ++ y ∷ []) (length xs) ≡ some y
  get_elem?-append [] y = refl
  get_elem?-append (x ∷ xs) y = get_elem?-append xs y

  filtered_onto :
      (passes : A → Bool) (rs ts : List A)
      → filter_onto passes rs ts ≡ rs ++ filter_onto passes [] ts
  unfolding filter_onto
  filtered_onto passes rs [] = sym (append-nil rs)
  filtered_onto passes rs (t ∷ ts) = elim (Bool-cases (passes t)) [
    | inl kept ↦ rw kept (
        filtered_onto passes (rs ++ t ∷ []) ts
        ∙ append_assoc rs (t ∷ []) _
        ∙ ap (λ l. rs ++ l) (sym (filtered_onto passes (t ∷ []) ts)))
    | inr dropped ↦ rw dropped (filtered_onto passes rs ts)
  ]

  pub filter-kept :
      (passes : A → Bool) (x : A) (xs : List A)
      → passes x ≡ true
      → filter passes (x ∷ xs) ≡ x ∷ filter passes xs
  unfolding filter filter_onto
  filter-kept passes x xs kept = rw kept (filtered_onto passes (x ∷ []) xs)

  pub filter-dropped :
      (passes : A → Bool) (x : A) (xs : List A)
      → passes x ≡ false
      → filter passes (x ∷ xs) ≡ filter passes xs
  unfolding filter filter_onto
  filter-dropped passes x xs dropped = rw dropped refl

  pub filter-append :
      (passes : A → Bool) (xs ys : List A)
      → filter passes (xs ++ ys) ≡ filter passes xs ++ filter passes ys
  filter-append passes [] ys = unfold filter filter_onto in refl
  filter-append passes (x ∷ xs) ys = elim (Bool-cases (passes x)) [
    | inl kept ↦
        filter-kept passes x (xs ++ ys) kept
        ∙ ap (λ l. x ∷ l) (filter-append passes xs ys)
        ∙ ap (λ l. l ++ filter passes ys) (sym (filter-kept passes x xs kept))
    | inr dropped ↦
        filter-dropped passes x (xs ++ ys) dropped
        ∙ filter-append passes xs ys
        ∙ ap (λ l. l ++ filter passes ys) (sym (filter-dropped passes x xs dropped))
  ]

  last-append : (xs : List A) (y : A) → last (xs ++ y ∷ []) ≡ some y
  unfolding last
  last-append [] y = refl
  last-append (x ∷ xs) y = ground (arith, length-append xs (y ∷ []), get_elem?-append (x ∷ xs) y)

fitting_match :
    (qs cs : List StringT)
    → length cs < 2 ^ 64
    → length qs ≤ length cs
    → categorizations_match qs cs ≡ all_same qs (take (length qs) cs)
unfolding categorizations_match
fitting_match qs cs w h =
    ground (arith, slice_lem cs 0 (length qs) (omega arith) h (omega arith), whole)
  where
    whole : length qs ≡ length cs → take (length qs) cs ≡ cs
    whole e = ap (λ n. take n cs) e ∙ take-length cs

pub longer_match :
    (qs cs : List StringT) → length cs < length qs → categorizations_match qs cs ≡ false
unfolding categorizations_match
longer_match qs cs h = ground arith

-- One categorization matches another, of fewer than 2 ^ 64 categories, if and only if it is the
-- front of it, or all of it.
pub categorizations_match_iff :
    (qs cs : List StringT)
    → length cs < 2 ^ 64
    → (categorizations_match qs cs ≡ true) ↔ ((length qs ≤ length cs) × (take (length qs) cs ≡ qs))
categorizations_match_iff qs cs w = elim (dec_lt (length cs) (length qs)) [
  | yes longer ↦ (
    λ h. absurd (ground (arith, longer_match qs cs longer)),
    λ h. absurd (omega (arith, longer, h.0)),
  )
  | no fits ↦
      let h : length qs ≤ length cs = omega (arith, fits) in
      let same = all_same_iff qs (take (length qs) cs) (sym (length-take (length qs) cs h)) in
      (
        λ e. (h, sym (same.0 (sym (fitting_match qs cs w h) ∙ e))),
        λ e. fitting_match qs cs w h ∙ same.1 (sym e.1),
      )
]

matches_of_parts :
    (path : List StringT) (name : StringT) (ds : List ApiDemarcation)
    → matches_of ds (path ++ name ∷ []) ≡ (
      filter (filter_exact (path ++ name ∷ [])) ds,
      filter (filter_inexact (path ++ name ∷ [])) ds,
    )
matches_of_parts [] name ds = refl
matches_of_parts (q ∷ qs) name ds = refl

module _ (path : List StringT) (name : StringT) (w : length path < 2 ^ 64) where
  abbrev parts : List StringT
  parts = path ++ name ∷ []

  front_slice : slice parts 0 (length parts - 1) ≡ some path
  front_slice =
      slice_lem parts 0 (length parts - 1) (omega arith) (omega arith)
        (omega (arith, length-append path (name ∷ [])))
      ∙ ap (λ n. some (take n parts)) (omega (arith, length-append path (name ∷ [])))
      ∙ ap some (take-append path (name ∷ []))

  exact_parts :
      (d : ApiDemarcation)
      → filter_exact parts d
        ≡ (categorizations_match path d.categorization && same_string name d.name)
  unfolding filter_exact
  exact_parts d = ground (arith, front_slice, last-append path name)

  -- A query of a path and a name, both within 2 ^ 64 categories, matches an API "exactly" if and
  -- only if its name is that of the API and its path is the front of the API's categorization:
  -- it need not be all of it.
  pub filter_exact_iff :
      (d : ApiDemarcation)
      → length d.categorization < 2 ^ 64
      → (filter_exact parts d ≡ true) ↔ (
          (length path ≤ length d.categorization)
          × (take (length path) d.categorization ≡ path)
          × (name ≡ d.name))
  filter_exact_iff d v =
      let fits = categorizations_match_iff path d.categorization v in
      let named = same_string_iff name d.name in
      (
        λ h. ground (arith, exact_parts d, fits, named),
        λ h. ground (arith, exact_parts d, fits, named),
      )

  pub found_by_parts :
      (ds : List ApiDemarcation)
      → All (IsPart slash) parts
      → find_matching_advertisements ds (terminated slash parts)
        ≡ (filter (filter_exact parts) ds, filter (filter_inexact parts) ds)
  unfolding find_matching_advertisements
  found_by_parts ds h =
      ap (matches_of ds) (split_string-terminated slash parts h) ∙ matches_of_parts path name ds

-- An advertised API, whose name and fewer than 2 ^ 64 categories are not empty and have no slash
-- in them, is among the exact matches of the query that spells its categorization and its name,
-- each part with a slash behind it; the APIs before and after it in the list that match keep
-- their order around it.
pub find_matching_own :
    (before after : List ApiDemarcation) (d : ApiDemarcation)
    → All (IsPart slash) d.categorization
    → IsPart slash d.name
    → length d.categorization < 2 ^ 64
    → (find_matching_advertisements
        (before ++ d ∷ after)
        (terminated slash (d.categorization ++ d.name ∷ []))).0
      ≡ filter (filter_exact (d.categorization ++ d.name ∷ [])) before
        ++ d ∷ filter (filter_exact (d.categorization ++ d.name ∷ [])) after
find_matching_own before after d clean named w =
    ap (λ r. r.0)
      (found_by_parts d.categorization d.name w (before ++ d ∷ after)
        (All-append (IsPart slash) d.categorization (d.name ∷ []) clean (named, tt)))
    ∙ filter-append passes before (d ∷ after)
    ∙ ap (λ l. filter passes before ++ l) (filter-kept passes d after itself)
  where
    passes : ApiDemarcation → Bool
    passes = filter_exact (d.categorization ++ d.name ∷ [])

    itself : filter_exact (d.categorization ++ d.name ∷ []) d ≡ true
    itself =
        (filter_exact_iff d.categorization d.name w d w).1
          (omega arith, take-length d.categorization, refl)
