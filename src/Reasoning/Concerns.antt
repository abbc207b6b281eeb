-- ===== src/Reasoning/Concerns.antt =====
-- When a sentence of output/reasoning_generator.py states a concern.
use provenancerank.Prelude.{
  lt→ltb, ℕ, ◌≤◌, ◌<◌, ◌%◌, ◌≡◌, refl, ◌⊎◌, inl, inr, Bool, true, false, not, ◌&&◌, List, [], ◌∷◌,
  ◌++◌, arith, Bool-cases,
}
use mathlib.Core.List.{append-nil}
use provenancerank.Floats.{Float}
use provenancerank.Text.{Text, codes, strip}
use provenancerank.Reasoning.{
  Printer, Row, when, sum_codes, text_or, lead_of, head_of, strengths, row_concerns, concerns_of,
  watch_out, generate_reasoning,
}

module _ (n : Float) (p : Printer n) where
  open n use {less, hundredths}

  -- A notice of at most 60 days, active in the last 150, placed in India, and no leaning to vision or
  -- speech.
  abbrev pub is_clear : Row n p → Bool
  is_clear r =
      not (less (hundredths 6000) r.notice_period_days)
      && not (less (hundredths 15000) r.days_since_active)
      && not (less r.location_fit (hundredths 50))
      && not (less (hundredths 40) r.wrong_specialisation_penalty)

  -- The sentence up to its first stop.
  abbrev pub praise : Row n p → ℕ → Text
  praise r rank =
      lead_of n p (sum_codes r.candidate_id % 3)
        (text_or (strip r.current_title) (codes "Candidate")) r.total_experience_years
      ++ (codes " - " ++ (head_of n p (strengths n p r rank) ++ codes "."))

  some_of_four :
      (a b c d : Bool) (s t u v : Text)
      → (not a && not b && not c && not d) ≡ false
      → (x : Text) × (xs : List Text) × ((when n p a s
            ++ (when n p b t ++ (when n p c u ++ when n p d v)))
          ≡ x ∷ xs)
  some_of_four true b c d s t u v h = (s, _, refl)
  some_of_four false true c d s t u v h = (t, _, refl)
  some_of_four false false true d s t u v h = (u, _, refl)
  some_of_four false false false true s t u v h = (v, _, refl)
  some_of_four false false false false s t u v h = cc

  row_concerns_clear : (r : Row n p) → is_clear r ≡ true → row_concerns n p r ≡ []
  unfolding row_concerns
  row_concerns_clear r h = ground arith

  row_concerns_some :
      (r : Row n p)
      → is_clear r ≡ false
      → (c : Text) × (cs : List Text) × (row_concerns n p r ≡ c ∷ cs)
  unfolding row_concerns
  row_concerns_some r h = some_of_four _ _ _ _ _ _ _ _ h

  concern_none :
      (r : Row n p) (rank : ℕ)
      → is_clear r ≡ true
      → rank ≤ 60
      → watch_out n p (concerns_of n p rank (row_concerns n p r)) ≡ []
  unfolding concerns_of watch_out
  concern_none r rank clear early = rw (row_concerns_clear r clear) (ground arith)

  concern_some :
      (r : Row n p) (rank : ℕ)
      → (is_clear r ≡ false) ⊎ (60 < rank)
      → (c : Text) × (watch_out n p (concerns_of n p rank (row_concerns n p r))
          ≡ codes " Watch-out: " ++ (c ++ codes "."))
  unfolding concerns_of watch_out
  concern_some r rank h = elim (Bool-cases (is_clear r)) [
    | inl clear ↦
        rw (row_concerns_clear r clear) (
          codes "adjacent rather than core fit",
          rw (lt→ltb 60 rank (ground (arith, h, clear))) refl,
        )
    | inr found ↦ let (c, cs, eq) = row_concerns_some r found in (c, rw eq refl)
  ]

  -- The honest tone: a sentence for one of the first sixty ranks has no concern exactly as far as the
  -- row gives none. A candidate with a notice of at most 60 days, active in the last 150, whose location
  -- fits by 0.5 or more and who does not lean to vision or speech by more than 0.4 gets the praise
  -- alone; any other candidate, and any at a rank past sixty, gets it with a concern behind it.
  generate_reasoning-is_clear :
      (r : Row n p) (rank : ℕ)
      → (is_clear r ≡ true → rank ≤ 60 → generate_reasoning n p r rank ≡ praise r rank)
        × ((is_clear r ≡ false) ⊎ (60 < rank)
            → (c : Text) × (generate_reasoning n p r rank
                ≡ praise r rank ++ (codes " Watch-out: " ++ (c ++ codes "."))))
  unfolding generate_reasoning
  generate_reasoning-is_clear r rank = (
    λ clear early. rw (concern_none r rank clear early) (rw append-nil refl),
    λ h. let (c, eq) = concern_some r rank h in (c, rw eq refl),
  )
