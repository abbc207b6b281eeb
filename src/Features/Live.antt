-- ===== src/Features/Live.antt =====
-- The bridge from live evidence to a row, in pipeline/feature_engineering.py.
use provenancerank.Prelude.{ℕ, Option, none, some, List, [], ◌∷◌, map, select, if◌then◌else◌}
use provenancerank.Floats.{Float}
use provenancerank.Text.{Text, lower, text_eqb}
use provenancerank.Features.Row.{FeatureRow}

module _ (n : Float) where
  open n use {Value, less, hundredths, times, mean}

  -- `RESUME_CLAIM_CONFIDENCE`
  abbrev pub resume_claim_confidence : Value
  resume_claim_confidence = hundredths 20

  -- `live_confidence.get(name)`
  unfoldable pub find_confidence : Text → List (Text × Value) → Option Value
  unfolding text_eqb
  find_confidence name [] = none
  find_confidence name ((skill, v) ∷ rest) =
      let later = find_confidence name rest in if text_eqb name skill then some v else later

  unfoldable pub hit_or_claim : Option Value → Value
  hit_or_claim none = resume_claim_confidence
  hit_or_claim (some hit) = hit

  -- `get_skill_confidence_with_live_override`; an empty map finds nothing
  unfoldable pub get_skill_confidence : Text → List (Text × Value) → Value
  get_skill_confidence skill_name live_confidence =
      hit_or_claim (find_confidence (lower skill_name) live_confidence)

  -- `confidences`, of the row's skills
  unfoldable pub verified : List Text → List (Text × Value) → List Value
  verified top_jd_skills live_confidence =
      select (λ c. less resume_claim_confidence c)
        (map (λ s. get_skill_confidence s live_confidence) (map lower top_jd_skills))

  module _ (from_iso : Text → Option ℕ) where
    -- The assignments to the row, if there are confidences
    unfoldable pub lift : Value → FeatureRow n from_iso → List Value → FeatureRow n from_iso
    lift bonus row [] = row
    lift bonus row (c ∷ cs) = record row {
      skill = record row.skill { skill_trust_score = times (mean (c ∷ cs)) (hundredths 500) };
      has_live_evidence = hundredths 100;
      evidence_confidence_bonus = bonus;
    }

    -- `apply_live_signals`; the map may be `None` or empty
    unfoldable pub apply_live_signals :
        Value → FeatureRow n from_iso → Option (List (Text × Value)) → FeatureRow n from_iso
    apply_live_signals bonus row none = row
    apply_live_signals bonus row (some []) = row
    apply_live_signals bonus row (some (e ∷ es)) =
        lift bonus row (verified row.top_jd_skills (e ∷ es))
