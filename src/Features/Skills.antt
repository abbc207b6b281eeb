-- ===== src/Features/Skills.antt =====
-- `compute_skill_features` of pipeline/feature_engineering.py.
use provenancerank.Prelude.{
  ℕ, ◌+◌, Bool, ◌&&◌, ◌||◌, List, [], ◌∷◌, map, length, select, take, any, sort_by, leb, ltb, ◌==◌,
  if◌then◌else◌,
}
use provenancerank.Floats.{Float, max_of, of_bool}
use provenancerank.Text.{Text, lower, text_eqb, member_text}
use provenancerank.Constants.{
  retrieval_skills, llm_skills, core_ml_skills, jd_core_skills, cv_speech_robotics_skills,
  non_relevant_skills, proficiency_weights,
}
use provenancerank.Candidates.{Skill, Candidate}
use provenancerank.Features.Titles.{title_relevance_factor}
use provenancerank.Features.Career.{CareerFeatures}

-- `str(s.get("name", "")).lower() in skills`
unfoldable pub is_among : List Text → Skill → Bool
is_among skills s = member_text (lower s.name) skills

-- `len([n for n in names if n in skills])`
unfoldable pub count_among : List Text → List Skill → ℕ
count_among vocabulary skills = length (select (is_among vocabulary) skills)

-- `max((duration for s in matched), default=0)`
unfoldable pub longest : List Skill → ℕ
longest [] = 0
longest (s ∷ ss) =
    let rest = longest ss in if ltb rest s.duration_months then s.duration_months else rest

unfoldable pub nat_max : ℕ → ℕ → ℕ
nat_max a b = if ltb a b then b else a

-- `PROFICIENCY_WEIGHTS.get(level, default)`, in hundredths
unfoldable pub weight_in : ℕ → Text → List (Text × ℕ) → ℕ
weight_in default level [] = default
weight_in default level ((name, w) ∷ table) =
    let later = weight_in default level table in if text_eqb level name then w else later

module _ (n : Float) where
  open n use {Value, less, same, hundredths, plus, times, over, of_nat, ratio, mean, sqrt, log1p}

  unfoldable pub proficiency_weight : ℕ → Skill → Value
  proficiency_weight default s =
      hundredths (weight_in default (lower s.proficiency) proficiency_weights)

  -- The loop that sums `trust`
  unfoldable pub trust_from : Value → List Skill → Value
  trust_from trust [] = trust
  trust_from trust (s ∷ ss) =
      trust_from
        (plus trust (
          times (times (proficiency_weight 30 s) (log1p (of_nat s.endorsements)))
            (sqrt (over (of_nat s.duration_months) (hundredths 1200)))))
        ss

  -- `relevant_assessments`
  unfoldable pub relevant_assessments : List (Text × Value) → List Value
  relevant_assessments scores =
      map (λ a. a.1) (select (λ a. member_text (lower a.0) jd_core_skills) scores)

  -- `float(np.mean(scores)) / 100.0 if scores else 0.0`
  unfoldable pub assessment_relevance : List Value → Value
  assessment_relevance [] = hundredths 0
  assessment_relevance (v ∷ vs) = over (mean (v ∷ vs)) (hundredths 10000)

  unfoldable pub assessment_mean : List Value → Value
  assessment_mean [] = hundredths 0
  assessment_mean (v ∷ vs) = mean (v ∷ vs)

  unfoldable pub max_from : Value → List Value → Value
  max_from top [] = top
  max_from top (v ∷ vs) = max_from (max_of n top v) vs

  -- `float(max(assessments.values())) if assessments else 0.0`
  unfoldable pub top_assessment : List Value → Value
  top_assessment [] = hundredths 0
  top_assessment (v ∷ vs) = max_from v vs

  -- `len(cv) / specialised if specialised else 0.0`
  unfoldable pub dominance : ℕ → ℕ → Value
  dominance cv specialised = if specialised == 0 then hundredths 0 else ratio cv specialised

  -- `np.mean([...] or [0])`
  unfoldable pub mean_endorsements : List Skill → Value
  mean_endorsements [] = mean (hundredths 0 ∷ [])
  mean_endorsements (s ∷ ss) = mean (map (λ s. of_nat s.endorsements) (s ∷ ss))

  -- `keyword_stuffer`, from the matched skills, the number of non-relevant ones, the current title and
  -- the number of technical roles
  unfoldable pub keyword_stuffer : List Skill → ℕ → Text → ℕ → Bool
  keyword_stuffer matched non_relevant current_title technical_roles =
      let nontech_current = same (title_relevance_factor n current_title) (hundredths 0) in
      let no_tech_roles = technical_roles == 0 in
      leb 3 (length matched) && nontech_current && no_tech_roles
      || leb 8 (length matched)
        && less (mean_endorsements matched) (hundredths 500)
        && ltb (length matched) non_relevant
        && no_tech_roles

  -- The key of the sort of `_top_jd_skills`
  unfoldable pub strength : Skill → Value
  strength s = times (proficiency_weight 0 s) (of_nat (1 + s.endorsements))

  unfoldable pub top_jd_skills : List Skill → List Text
  top_jd_skills matched =
      take 3 (map (λ s. s.name) (sort_by (λ y x. less (strength x) (strength y)) matched))

  unfoldable pub top_retrieval_skills : List Skill → List Text
  top_retrieval_skills skills =
      take 3 (map (λ s. s.name) (select (is_among retrieval_skills) skills))

  -- The keys of the result.
  pub record SkillFeatures : Type 0 where
    pub jd_skill_match_count : ℕ
    pub jd_skill_match_ratio : Value
    pub retrieval_skill_count : ℕ
    pub llm_skill_count : ℕ
    pub cv_speech_dominance : Value
    pub non_relevant_skill_count : ℕ
    pub skill_trust_score : Value
    pub keyword_stuffer_flag : Value
    pub assessment_verified_skills : ℕ
    pub assessment_mean_score : Value
    pub top_assessment_score : Value
    pub max_jd_skill_duration_months : ℕ
    pub recent_jd_skill_flag : Value
    pub assessment_jd_relevance : Value
    pub top_jd_names : List Text
    pub top_retrieval_names : List Text

  unfoldable pub compute_skill_features : Candidate n → CareerFeatures n → SkillFeatures
  compute_skill_features c career =
      let skills = c.skills in
      let assessments = c.redrob_signals.skill_assessment_scores in
      let matched = select (is_among jd_core_skills) skills in
      let retrieval = count_among retrieval_skills skills in
      let llm = count_among llm_skills skills in
      let core_ml = count_among core_ml_skills skills in
      let cv = count_among cv_speech_robotics_skills skills in
      let non_relevant = count_among non_relevant_skills skills in
      record {
        jd_skill_match_count = length matched;
        jd_skill_match_ratio = ratio (length matched) (nat_max (length skills) 1);
        retrieval_skill_count = retrieval;
        llm_skill_count = llm;
        cv_speech_dominance = dominance cv (retrieval + llm + core_ml + cv);
        non_relevant_skill_count = non_relevant;
        skill_trust_score = trust_from (hundredths 0) matched;
        keyword_stuffer_flag = of_bool n (
            keyword_stuffer matched non_relevant c.profile.current_title
              career.technical_role_count);
        assessment_verified_skills = length assessments;
        assessment_mean_score = assessment_mean (map (λ a. a.1) assessments);
        top_assessment_score = top_assessment (map (λ a. a.1) assessments);
        max_jd_skill_duration_months = longest matched;
        recent_jd_skill_flag = of_bool n (any matched (λ s. leb 12 s.duration_months));
        assessment_jd_relevance = assessment_relevance (relevant_assessments assessments);
        top_jd_names = top_jd_skills matched;
        top_retrieval_names = top_retrieval_skills skills;
      }
