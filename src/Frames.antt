-- ===== src/Frames.antt =====
-- The frame of candidates that pipeline/, ml/ and services/ranker.py hand on: the rows of
-- pipeline/feature_engineering.py with the columns that later stages add, and what each stage reads of
-- a row.
use provenancerank.Prelude.{ℕ, Bool, true, Option, some, List, if◌then◌else◌}
use provenancerank.Floats.{Float}
use provenancerank.Text.{Text}
use provenancerank.Features.Row.{FeatureRow}
use provenancerank.Scoring.{Columns, Cells}
use provenancerank.Coverage
use provenancerank.Reasoning
use provenancerank.Reasoning.{Printer}

module _ (n : Float) (from_iso : Text → Option ℕ) where
  open n use {Value, of_nat}

  -- A row with the columns that are not features; what is in a column that the frame has not is never
  -- read.
  pub record FrameRow : Type 0 where
    pub features : FeatureRow n from_iso
    pub retrieval_score : Value
    pub rerank_score : Option Value
    pub tournament_score : Option Value
    pub llm_fit_score : Option Value
    pub gate_passed : Bool

  pub record Frame : Type 0 where
    pub columns : Columns n
    pub has_retrieval_score : Bool
    pub rows : List FrameRow

  -- What `merge_final_scores` reads
  unfoldable pub cells_of : FrameRow → Value → Value → Cells n
  cells_of r ml_fit retrieval = record {
    ml_fit = ml_fit;
    retrieval = retrieval;
    behavioural_composite = r.features.signal.behavioural_composite;
    location_fit = r.features.jd_fit.location_score;
    availability_score = r.features.signal.availability_score;
    engagement_score = r.features.signal.engagement_score;
    rerank_score = r.rerank_score;
    tournament_score = r.tournament_score;
    llm_fit_score = r.llm_fit_score;
    evidence_confidence_bonus = some r.features.evidence_confidence_bonus;
    gate_passed = r.gate_passed;
    is_honeypot = r.features.is_honeypot;
  }

  -- What `run_loop` reads, in a frame with these columns
  unfoldable pub coverage_row : Columns n → FrameRow → Coverage.Features n
  coverage_row columns r = record {
    candidate_id = r.features.candidate_id;
    jd_fit_score = r.features.jd_fit.jd_fit_score;
    retrieval_skill_count = of_nat r.features.skill.retrieval_skill_count;
    llm_skill_count = of_nat r.features.skill.llm_skill_count;
    has_production_keywords = r.features.career.has_production_keywords;
    product_company_ratio = r.features.career.product_company_ratio;
    availability_score = r.features.signal.availability_score;
    gate_passed = if columns.gate_passed then r.gate_passed else true;
  }

  -- What `generate_reasoning` reads
  unfoldable pub reason_row : (p : Printer n) → FrameRow → Reasoning.Row n p
  reason_row p r = record {
    candidate_id = r.features.candidate_id;
    current_title = r.features.current_title;
    total_experience_years = r.features.career.total_experience_years;
    top_jd_skills = r.features.top_jd_skills;
    top_retrieval_skills = r.features.top_retrieval_skills;
    product_company_ratio = r.features.career.product_company_ratio;
    retrieval_skill_count = of_nat r.features.skill.retrieval_skill_count;
    scope_progression_score = r.features.career.scope_progression_score;
    github_activity_score = r.features.signal.github_activity_score;
    recruiter_response_rate = r.features.recruiter_response_rate;
    notice_period_days = r.features.signal.notice_period_days;
    days_since_active = r.features.signal.days_since_active;
    location_fit = r.features.jd_fit.location_score;
    wrong_specialisation_penalty = r.features.jd_fit.wrong_specialisation_penalty;
    location = r.features.location;
  }
