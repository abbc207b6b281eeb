-- ===== src/Confidence.antt =====
-- intelligence/confidence_scorer.py: the confidence in a skill from its evidence. Dates are seconds,
-- and the present is an argument.
use provenancerank.Prelude.{ℕ, Bool, List, [], ◌∷◌, map, ltb, ◌==◌, if◌then◌else◌}
use provenancerank.Floats.{Float, min_of, max_of}
use provenancerank.Text.{Text, codes, strip, lower, text_eqb, member_text}
pub mod Range
mod Tests

-- `SOURCE_WEIGHTS`, in hundredths
abbrev pub source_weights : List (Text × ℕ)
source_weights =
    (codes "commit_diff", 100)
    ∷ (codes "pr_review", 90)
    ∷ (codes "issue_thread", 70)
    ∷ (codes "so_answer", 60)
    ∷ (codes "assessment_score", 50)
    ∷ (codes "resume_claim", 20)
    ∷ []

-- `SOURCE_WEIGHTS.get(source_type, 0.2)`
unfoldable pub weight_of : Text → List (Text × ℕ) → ℕ
unfolding text_eqb
weight_of source_type [] = 20
weight_of source_type ((name, w) ∷ table) =
    let later = weight_of source_type table in if text_eqb source_type name then w else later

pub record EvidenceRecord : Type 0 where
  pub source_type : Text
  pub skill_name : Text
  pub artifact_date : ℕ
  pub complexity_score : ℕ

-- `max(1, min(int(complexity or 1), 5))`
unfoldable pub complexity_of : ℕ → ℕ
complexity_of k = if k == 0 then 1 else if ltb 5 k then 5 else k

unfoldable pub canonical : Text → Text
canonical name = lower (strip name)

-- The distinct names, each once
unfoldable pub skill_set : List EvidenceRecord → List Text
skill_set [] = []
skill_set (ev ∷ evs) =
    let rest = skill_set evs in
    if member_text (canonical ev.skill_name) rest then rest else canonical ev.skill_name ∷ rest

module _ (n : Float) where
  open n use {Value, hundredths, plus, minus, times, over, of_nat, of_difference, power_of_two}

  -- `_decay`
  unfoldable pub decay : Value → Value → Value
  decay age half_life =
      power_of_two (over (minus (hundredths 0) (max_of n age (hundredths 0))) half_life)

  -- What one piece of evidence adds
  unfoldable pub contribution : ℕ → Value → EvidenceRecord → Value
  contribution now half_life ev =
      let weight = hundredths (weight_of ev.source_type source_weights) in
      let complexity = over (of_nat (complexity_of ev.complexity_score)) (hundredths 500) in
      let age = over (of_difference now ev.artifact_date) (hundredths 8640000) in
      times (times weight complexity) (decay age half_life)

  -- The loop over the evidence
  unfoldable pub total_from : Value → Text → ℕ → Value → List EvidenceRecord → Value
  total_from total target now half_life [] = total
  total_from total target now half_life (ev ∷ evs) =
      let skipped = total_from total target now half_life evs in
      let counted =
        total_from (plus total (contribution now half_life ev)) target now half_life evs in
      if text_eqb (canonical ev.skill_name) target then counted else skipped

  -- `compute_confidence`, with its half life and normaliser
  unfoldable pub compute_confidence : Value → Value → List EvidenceRecord → Text → ℕ → Value
  compute_confidence half_life normaliser evidence skill_name now =
      let total = total_from (hundredths 0) (canonical skill_name) now half_life evidence in
      max_of n (hundredths 0) (min_of n (over total normaliser) (hundredths 100))

  -- `HALF_LIFE_DAYS` and `NORMALISER`
  abbrev pub half_life_days : Value
  half_life_days = hundredths 36500

  abbrev pub default_normaliser : Value
  default_normaliser = hundredths 1000

  -- `confidence_by_skill`
  unfoldable pub confidence_by_skill : List EvidenceRecord → ℕ → List (Text × Value)
  confidence_by_skill evidence now =
      map (λ s. (s, compute_confidence half_life_days default_normaliser evidence s now))
        (skill_set evidence)
