-- ===== src/Infra/Strings/Split.antt =====
-- What the parts of a split string are, and the way back.
use peerplays_contract_node.Prelude.{
  ℕ, ◌≡◌, ◌≢◌, ◌↔◌, refl, sym, ap, ◌∙◌, Bool, true, false, List, [], ◌∷◌, ◌++◌, append_assoc,
  append-nil, arith, length, All, All-append, ◌==◌,
}
use peerplays_contract_node.Infra.TypeList.{append, concat}
use peerplays_contract_node.Infra.Strings.{
  StringT, same_chars, same_string, split_onto, split_string,
}

same_chars_iff : (s t : StringT) → length s ≡ length t → (same_chars s t ≡ true) ↔ (s ≡ t)
unfolding same_chars
same_chars_iff [] [] e = (λ h. refl, λ h. refl)
same_chars_iff [] (d ∷ t) e = absurd (omega arith)
same_chars_iff (c ∷ s) [] e = absurd (omega arith)
same_chars_iff (c ∷ s) (d ∷ t) e =
    let rest = same_chars_iff s t (omega arith) in
    (λ h. ground (arith, rest), λ h. ground (arith, rest))

-- Two strings are equal for `operator==` exactly if they have the same characters.
pub same_string_iff : (s t : StringT) → (same_string s t ≡ true) ↔ (s ≡ t)
unfolding same_string
same_string_iff s t =
    (λ h. ground (arith, same_chars_iff s t), λ h. ground (arith, same_chars_iff s t, ap length h))

-- A part: it is not empty, and the delimiter is not in it.
abbrev pub IsPart : ℕ → StringT → Type 0
IsPart d [] = ⊥
IsPart d (k ∷ ks) = All (λ c. c ≢ d) (k ∷ ks)

-- Each part with the delimiter behind it.
abbrev pub terminated : ℕ → List StringT → StringT
terminated d [] = []
terminated d (p ∷ ps) = p ++ d ∷ terminated d ps

module _ (d : ℕ) where
  append-part : (ps : List StringT) (p : StringT) → append ps p ≡ ps ++ p ∷ []
  unfolding append concat
  append-part ps p = refl

  -- The characters of a part go to the current one.
  grown :
      (cs : StringT) (rest : StringT) (k : ℕ) (ks : StringT) (result : List StringT)
      → All (λ c. c ≢ d) cs
      → split_onto (cs ++ d ∷ rest) d (k ∷ ks) result
        ≡ split_onto rest d [] (result ++ (k ∷ (ks ++ cs)) ∷ [])
  unfolding split_onto
  grown [] rest k ks result h = ground (arith, append-part result (k ∷ ks), append-nil ks)
  grown (c ∷ cs) rest k ks result (h, hs) =
      ground (arith, grown cs rest k (ks ++ c ∷ []) result hs, append_assoc ks (c ∷ []) cs)

  part_taken :
      (p : StringT) (rest : StringT) (result : List StringT)
      → IsPart d p
      → split_onto (p ++ d ∷ rest) d [] result ≡ split_onto rest d [] (result ++ p ∷ [])
  unfolding split_onto
  part_taken [] rest result h = elim h [ ]
  part_taken (k ∷ ks) rest result (h, hs) = ground (arith, grown ks rest k [] result hs)

  parts_taken :
      (ps result : List StringT)
      → All (IsPart d) ps
      → split_onto (terminated d ps) d [] result ≡ result ++ ps
  unfolding split_onto
  parts_taken [] result h = sym (append-nil result)
  parts_taken (p ∷ ps) result (h, hs) =
      part_taken p (terminated d ps) result h
      ∙ parts_taken ps (result ++ p ∷ []) hs
      ∙ append_assoc result (p ∷ []) ps

  -- Parts that are not empty and have no delimiter in them, each followed by the delimiter, are
  -- split into themselves.
  pub split_string-terminated :
      (ps : List StringT) → All (IsPart d) ps → split_string (terminated d ps) d ≡ ps
  unfolding split_string
  split_string-terminated ps h = parts_taken ps [] h

  -- The characters so far: none, or a part.
  abbrev IsCurrent : StringT → Type 0
  IsCurrent [] = Unit {0}
  IsCurrent (k ∷ ks) = IsPart d (k ∷ ks)

  either_way :
      (b : Bool) (ps qs : List StringT)
      → (b ≡ true → All (IsPart d) ps)
      → (b ≡ false → All (IsPart d) qs)
      → All (IsPart d) (elim b [ true ↦ ps | false ↦ qs ])
  either_way true ps qs f g = f refl
  either_way false ps qs f g = g refl

  differs : (c : ℕ) → (c == d) ≡ false → c ≢ d
  differs c e = ground arith

  append-IsPart :
      (ps : List StringT) (p : StringT)
      → All (IsPart d) ps
      → IsPart d p
      → All (IsPart d) (append ps p)
  append-IsPart ps p hs h = rw (append-part ps p) (All-append (IsPart d) ps (p ∷ []) hs (h, tt))

  split_onto-IsPart :
      (cs current : StringT) (result : List StringT)
      → IsCurrent current
      → All (IsPart d) result
      → All (IsPart d) (split_onto cs d current result)
  unfolding split_onto
  split_onto-IsPart [] [] result h hs = hs
  split_onto-IsPart [] (k ∷ ks) result h hs = append-IsPart result (k ∷ ks) hs h
  split_onto-IsPart (c ∷ cs) [] result h hs =
      either_way (c == d) _ _ (λ e. split_onto-IsPart cs [] result tt hs)
        (λ e. split_onto-IsPart cs (c ∷ []) result (differs c e, tt) hs)
  split_onto-IsPart (c ∷ cs) (k ∷ ks) result h hs =
      either_way (c == d) _ _
        (λ e.
          split_onto-IsPart cs [] (append result (k ∷ ks)) tt (append-IsPart result (k ∷ ks) hs h))
        (λ e.
          split_onto-IsPart cs (k ∷ (ks ++ c ∷ [])) result
            (h.0, All-append (λ x. x ≢ d) ks (c ∷ []) h.1 (differs c e, tt)) hs)

  -- Every part of a split string is not empty and has no delimiter in it.
  pub split_string-IsPart : (s : StringT) → All (IsPart d) (split_string s d)
  unfolding split_string
  split_string-IsPart s = split_onto-IsPart s [] [] tt tt
