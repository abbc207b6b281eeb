-- ===== src/Features/Row.antt =====
-- `build_feature_row` of pipeline/feature_engineering.py.
use provenancerank.Prelude.{ℕ, Bool, Option, some, List, map}
use provenancerank.Floats.{Float, of_bool}
use provenancerank.Text.{Text}
use provenancerank.Candidates.{Candidate}
use provenancerank.Honeypot.{Flag, detect_honeypot}
use provenancerank.Features.Career.{CareerFeatures, compute_career_features}
use provenancerank.Features.Skills.{SkillFeatures, compute_skill_features}
use provenancerank.Features.Signals.{SignalSettings, SignalFeatures, compute_signal_features}
use provenancerank.Features.Fit.{FitFeatures, compute_jd_fit_features}
use provenancerank.Gate.{Features}

module _ (n : Float) (from_iso : Text → Option ℕ) where
  open n use {Value, hundredths}

  -- A row: the numeric columns by the function that makes them, and the other columns.
  pub record FeatureRow : Type 0 where
    pub candidate_id : Text
    pub career : CareerFeatures n
    pub skill : SkillFeatures n
    pub signal : SignalFeatures n
    pub jd_fit : FitFeatures n
    pub is_honeypot : Value
    pub honeypot_reasons : List (Flag n from_iso)
    pub current_title : Text
    pub current_company : Text
    pub location : Text
    pub country : Text
    pub anonymized_name : Text
    pub top_jd_skills : List Text
    pub top_retrieval_skills : List Text
    pub recruiter_response_rate : Value
    pub preferred_work_mode : Text
    pub willing_to_relocate : Bool
    pub has_live_evidence : Value
    pub evidence_confidence_bonus : Value

  unfoldable pub build_feature_row : SignalSettings n → Candidate n → FeatureRow
  build_feature_row s c =
      let career = compute_career_features from_iso n c in
      let skill = compute_skill_features n c career in
      let signal = compute_signal_features n from_iso s c in
      let jd_fit = compute_jd_fit_features n c career skill in
      let (is_hp, hp_reasons) = detect_honeypot n from_iso c in
      record {
        candidate_id = c.candidate_id;
        career = career;
        skill = skill;
        signal = signal;
        jd_fit = jd_fit;
        is_honeypot = of_bool n is_hp;
        honeypot_reasons = hp_reasons;
        current_title = c.profile.current_title;
        current_company = c.profile.current_company;
        location = c.profile.location;
        country = c.profile.country;
        anonymized_name = c.profile.anonymized_name;
        top_jd_skills = skill.top_jd_names;
        top_retrieval_skills = skill.top_retrieval_names;
        recruiter_response_rate = signal.recruiter_response_rate;
        preferred_work_mode = c.redrob_signals.preferred_work_mode;
        willing_to_relocate = c.redrob_signals.willing_to_relocate;
        has_live_evidence = hundredths 0;
        evidence_confidence_bonus = hundredths 0;
      }

  -- The columns of a row that the gates read.
  unfoldable pub gate_columns : FeatureRow → Features n
  gate_columns r = record {
    candidate_id = r.candidate_id;
    current_title = r.current_title;
    is_honeypot = r.is_honeypot;
    all_consulting = r.career.all_consulting_career;
    keyword_stuffer_flag = r.skill.keyword_stuffer_flag;
    days_since_active = r.signal.days_since_active;
    recruiter_response_rate = some r.recruiter_response_rate;
    notice_period_days = r.signal.notice_period_days;
    title_chaser_flag = r.career.title_chaser_flag;
    wrong_specialisation_penalty = r.jd_fit.wrong_specialisation_penalty;
    location_fit = r.jd_fit.location_score;
  }

  -- `build_feature_matrix`, and with it `frame_from_rows`: every row has every column, as a number
  unfoldable pub build_feature_matrix : SignalSettings n → List (Candidate n) → List FeatureRow
  build_feature_matrix s candidates = map (build_feature_row s) candidates
