-- ===== src/Infra/TypeList/Slices.antt =====
-- Positions in lists: slices, sequences, filters and reductions.
use peerplays_contract_node.Prelude.{
  ℕ, zero, suc, ◌+◌, ◌-◌, ◌^◌, ◌≤◌, ◌<◌, ◌≡◌, refl, ap, ◌∙◌, List, [], ◌∷◌, ◌++◌, none, some,
  length, take, drop, span, append_assoc, append-nil, arith,
}
use peerplays_contract_node.Infra.TypeList.{slice_onto, slice, make_sequence, concat}

module _ {ℓ} {A : Type ℓ} where
  slice_taken :
      (rs ts : List A) (end : ℕ)
      → end ≤ length ts
      → end < 2 ^ 64
      → slice_onto rs ts 0 end ≡ some (rs ++ take end ts)
  unfolding slice_onto
  slice_taken rs [] zero h w = ground (arith, append-nil rs)
  slice_taken rs [] (suc end) h w = elim h [ ]
  slice_taken rs (t ∷ ts) zero h w = ground (arith, append-nil rs)
  slice_taken rs (t ∷ ts) (suc end) h w =
      ground (arith, slice_taken (rs ++ t ∷ []) ts end, append_assoc rs (t ∷ []) (take end ts))

  slice_from :
      (ts : List A) (start end : ℕ)
      → start ≤ end
      → end ≤ length ts
      → end < 2 ^ 64
      → slice_onto [] ts start end ≡ some (take (end - start) (drop start ts))
  unfolding slice_onto
  slice_from ts zero end a b w =
      slice_taken [] ts end b w ∙ ap (λ k. some (take k ts)) (omega arith)
  slice_from [] (suc start) end a b w = absurd (omega arith)
  slice_from (t ∷ ts) (suc start) zero a b w = elim a [ ]
  slice_from (t ∷ ts) (suc start) (suc end) a b w = ground (arith, slice_from ts start end)

  -- A slice whose start is not behind its end, which is within the list and below 2 ^ 64, is
  -- that part of the list.
  pub slice_lem :
      (ts : List A) (start end : ℕ)
      → start ≤ end
      → end ≤ length ts
      → end < 2 ^ 64
      → slice ts start end ≡ some (take (end - start) (drop start ts))
  unfolding slice
  slice_lem ts start end a b w = slice_from ts start end a b w

module _ {ℓ} {A : Type ℓ} where
  slice_within :
      (rs ts : List A) (start end : ℕ)
      → start < end
      → length ts < end
      → end < 2 ^ 64
      → slice_onto rs ts start end ≡ none
  unfolding slice_onto
  slice_within rs [] start end a b w = ground arith
  slice_within rs (t ∷ ts) zero end a b w =
      ground (arith, slice_within (rs ++ t ∷ []) ts 0 (end - 1))
  slice_within rs (t ∷ ts) (suc start) end a b w =
      ground (arith, slice_within rs ts start (end - 1))

  -- A slice that starts before its end, and ends behind the list's end but below 2 ^ 64, does
  -- not exist.
  pub slice-out_of_range :
      (ts : List A) (start end : ℕ)
      → start < end
      → length ts < end
      → end < 2 ^ 64
      → slice ts start end ≡ none
  unfolding slice
  slice-out_of_range ts start end a b w = slice_within [] ts start end a b w

snoc_span : (m n : ℕ) → span m (suc n) ≡ span m n ++ (m + n) ∷ []
snoc_span m zero = ground arith
snoc_span m (suc n) = ground (arith, snoc_span (suc m) n)

-- The sequence of a count is 0, 1 and so on up to the count, which it leaves out.
pub make_sequence_lem : (count : ℕ) → make_sequence count ≡ span 0 count
unfolding make_sequence concat
make_sequence_lem zero = refl
make_sequence_lem (suc zero) = refl
make_sequence_lem (suc (suc count)) =
    ground (arith, make_sequence_lem (suc count), snoc_span 0 (suc count))
