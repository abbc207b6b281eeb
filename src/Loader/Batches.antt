-- ===== src/Loader/Batches.antt =====
-- The batches of pipeline/loader.py.
use mathlib.Core.List.{append_assoc}
use provenancerank.Prelude.{
  ℕ, ◌≤◌, ◌<◌, ◌≡◌, refl, ap, ◌∙◌, List, [], ◌∷◌, ◌++◌, length, length-append, All, leb, arith,
  Bool-cases, inl, inr,
}
use provenancerank.Loader.{batches_from, stream_batches}

module _ {A : Type 0} where
  pub concat : List (List A) → List A
  concat [] = []
  concat (xs ∷ xss) = xs ++ concat xss

  concat-batches_from : (k : ℕ) (batch cs : List A) → concat (batches_from k batch cs) ≡ batch ++ cs
  unfolding concat batches_from
  concat-batches_from k [] [] = refl
  concat-batches_from k (b ∷ batch) [] = refl
  concat-batches_from k batch (c ∷ cs) = elim (Bool-cases (leb k (length (batch ++ c ∷ [])))) [
    | inl full ↦ rw full (
        ap (λ rest. (batch ++ c ∷ []) ++ rest) (concat-batches_from k [] cs)
        ∙ append_assoc batch (c ∷ []) cs)
    | inr more ↦
        rw more (concat-batches_from k (batch ++ c ∷ []) cs ∙ append_assoc batch (c ∷ []) cs)
  ]

  -- Not empty, and no longer than that.
  abbrev pub Sized : ℕ → List A → Type 0
  Sized k batch = (0 < length batch) × (length batch ≤ k)

  batches_from-Sized :
      (k : ℕ) (batch cs : List A) → length batch < k → All (Sized k) (batches_from k batch cs)
  unfolding batches_from
  batches_from-Sized k [] [] h = tt
  batches_from-Sized k (b ∷ batch) [] h = ((omega arith, omega (arith, h)), tt)
  batches_from-Sized k batch (c ∷ cs) h =
      let grown = length-append batch (c ∷ []) in
      elim (Bool-cases (leb k (length (batch ++ c ∷ [])))) [
        | inl full ↦ rw full (
          (ground (arith, grown), ground (arith, grown, h)),
          batches_from-Sized k [] cs (omega (arith, h)),
        )
        | inr more ↦ rw more (batches_from-Sized k (batch ++ c ∷ []) cs (ground (arith, more)))
      ]

  -- For a batch size of at least 1, the batches put together are the candidates in order, none left
  -- out and none twice, and every batch has at least one candidate and at most the batch size.
  stream_batches-concat :
      (k : ℕ) (cs : List A)
      → 1 ≤ k
      → (concat (stream_batches k cs) ≡ cs) × All (Sized k) (stream_batches k cs)
  unfolding stream_batches
  stream_batches-concat k cs h =
      (concat-batches_from k [] cs, batches_from-Sized k [] cs (omega (arith, h)))
