-- ===== src/Confidence/Range.antt =====
-- The confidences of intelligence/confidence_scorer.py.
use provenancerank.Prelude.{ℕ, ◌≡◌, true, false, List, [], ◌∷◌, All, All-map, arith}
use provenancerank.Floats.{Float, min_of, max_of}
use provenancerank.Text.{Text}
use provenancerank.Confidence.{
  EvidenceRecord, compute_confidence, confidence_by_skill, skill_set, half_life_days,
  default_normaliser,
}

-- What `<` says around 0 and 1.
pub record BoundsUnit (n : Float) : Type 0 where
  pub irreflexive : (x : n.Value) → n.less x x ≡ false
  pub one_zero : n.less (n.hundredths 100) (n.hundredths 0) ≡ false
  pub positive :
      (x : n.Value) → n.less (n.hundredths 0) x ≡ true → n.less x (n.hundredths 0) ≡ false

module _ (n : Float) where
  open n use {Value, less, hundredths}

  -- Not below 0 and not above 1
  abbrev pub InUnit : Value → Type 0
  InUnit v = (less v (hundredths 0) ≡ false) × (less (hundredths 100) v ≡ false)

  clamped-InUnit :
      BoundsUnit n → (x : Value) → InUnit (max_of n (hundredths 0) (min_of n x (hundredths 100)))
  unfolding max_of min_of
  clamped-InUnit b x = ground (
    arith,
    b.irreflexive (hundredths 0),
    b.irreflexive (hundredths 100),
    b.one_zero,
    b.positive x,
    b.positive (hundredths 100),
  )

  all_skills :
      BoundsUnit n
      → (evidence : List EvidenceRecord) (now : ℕ) (skills : List Text)
      → All
          (λ s.
            InUnit (compute_confidence n (half_life_days n) (default_normaliser n) evidence s now))
          skills
  unfolding compute_confidence
  all_skills b evidence now [] = tt
  all_skills b evidence now (s ∷ skills) = (clamped-InUnit b _, all_skills b evidence now skills)

  -- Where `<` is irreflexive and right about 0 and 1, every confidence that the evidence gives, whatever
  -- the dates, the sources and the complexities are, is not below 0 and not above 1.
  pub confidence_by_skill-InUnit :
      (evidence : List EvidenceRecord) (now : ℕ)
      → BoundsUnit n
      → All (λ c. InUnit c.1) (confidence_by_skill n evidence now)
  unfolding confidence_by_skill
  confidence_by_skill-InUnit evidence now b =
      All-map (λ c. InUnit c.1) _ _ (all_skills b evidence now (skill_set evidence))
