-- ===== src/Features/Fit.antt =====
-- The fit to the job description, in pipeline/feature_engineering.py.
use provenancerank.Prelude.{ℕ, Bool, ◌||◌, List, map, ltb, if◌then◌else◌}
use provenancerank.Floats.{Float, clip, min_of}
use provenancerank.Text.{codes, lower, contains, member_text}
use provenancerank.Constants.{preferred_locations}
use provenancerank.Candidates.{Skill, Candidate}
use provenancerank.Features.Titles.{has_any, title_relevance_factor}
use provenancerank.Features.Career.{CareerFeatures}
use provenancerank.Features.Skills.{SkillFeatures}

module _ (n : Float) where
  open n use {Value, hundredths, plus, minus, times, over, of_nat, tanh}

  -- `_location_fit`
  unfoldable pub location_fit : Candidate n → Value
  location_fit c =
      let loc = lower c.profile.location in
      let country = lower c.profile.country in
      let in_india = contains (codes "india") country || has_any loc preferred_locations in
      if has_any loc preferred_locations
      then hundredths 100
      else if in_india
      then hundredths 70
      else if c.redrob_signals.willing_to_relocate
      then hundredths 35
      else hundredths 10

  -- The keys of the result.
  pub record FitFeatures : Type 0 where
    pub jd_fit_score : Value
    pub location_score : Value
    pub wrong_specialisation_penalty : Value

  -- `has_nlp_ir`
  unfoldable pub has_nlp_ir : List Skill → SkillFeatures n → Bool
  has_nlp_ir skills skill =
      let names = map (λ s. lower s.name) skills in
      ltb 0 skill.retrieval_skill_count
      || ltb 0 skill.llm_skill_count
      || member_text (codes "nlp") names
      || member_text (codes "natural language processing") names

  -- `min(count / whole, 1.0)`
  unfoldable pub capped : ℕ → ℕ → Value
  capped count whole = min_of n (over (of_nat count) (of_nat whole)) (hundredths 100)

  -- `base`
  unfoldable pub base_fit : CareerFeatures n → SkillFeatures n → Value
  base_fit career skill =
      plus
        (plus
          (plus
            (plus
              (plus
                (plus
                  (plus (times (hundredths 30) (capped skill.retrieval_skill_count 3))
                    (times (hundredths 15) (capped skill.jd_skill_match_count 6)))
                  (times (hundredths 12) (tanh (over skill.skill_trust_score (hundredths 400)))))
                (times (hundredths 12) skill.assessment_jd_relevance))
              (times (hundredths 10) career.product_company_ratio))
            (times (hundredths 8) career.has_production_keywords))
          (times (hundredths 8) career.scope_progression_score))
        (times (hundredths 5) (capped skill.llm_skill_count 3))

  -- `1.0 - weight * flag`
  unfoldable pub penalty : ℕ → Value → Value
  penalty weight flag = minus (hundredths 100) (times (hundredths weight) flag)

  unfoldable pub compute_jd_fit_features :
      Candidate n → CareerFeatures n → SkillFeatures n → FitFeatures
  compute_jd_fit_features c career skill =
      let wrong_spec =
        times skill.cv_speech_dominance
          (if has_nlp_ir c.skills skill then hundredths 0 else hundredths 100) in
      let title_factor = title_relevance_factor n c.profile.current_title in
      let fit =
        times (base_fit career skill) (plus (hundredths 40) (times (hundredths 60) title_factor)) in
      let fit = times fit (penalty 70 wrong_spec) in
      let fit = times fit (penalty 60 skill.keyword_stuffer_flag) in
      let fit = times fit (penalty 50 career.all_consulting_career) in
      record {
        jd_fit_score = clip n (hundredths 0) (hundredths 100) fit;
        location_score = location_fit c;
        wrong_specialisation_penalty = wrong_spec;
      }
