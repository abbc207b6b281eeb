-- ===== src/Candidates.antt =====
-- A candidate profile as data/candidate_schema.json describes it, with the fields that
-- pipeline/feature_engineering.py and pipeline/honeypot_detector.py read. Every required field is
-- there; the integers of the schema are not below 0. An empty text stands for a missing or null date,
-- and 0 for a skill's missing months. Numbers that need not be whole are values of the parameter.
use provenancerank.Prelude.{
  ℕ, Bool, true, false, Option, none, some, List, [], ◌∷◌, take, if◌then◌else◌, ◌+◌, map,
}
use provenancerank.Floats.{Float}
use provenancerank.Text.{Text}
pub mod Sample

pub record Role : Type 0 where
  pub company : Text
  pub company_size : Text
  pub title : Text
  pub start_date : Text
  pub end_date : Text
  pub duration_months : ℕ
  pub is_current : Bool
  pub description : Text

pub record Skill : Type 0 where
  pub name : Text
  pub proficiency : Text
  pub endorsements : ℕ
  pub duration_months : ℕ

module _ (n : Float) where
  open n use {Value}

  pub record Profile : Type 0 where
    pub anonymized_name : Text
    pub headline : Text
    pub summary : Text
    pub location : Text
    pub country : Text
    pub years_of_experience : Value
    pub current_title : Text
    pub current_company : Text
    pub current_industry : Text

  -- `redrob_signals`
  pub record Signals : Type 0 where
    pub last_active_date : Text
    pub open_to_work_flag : Bool
    pub applications_submitted_30d : ℕ
    pub recruiter_response_rate : Value
    pub avg_response_time_hours : Value
    pub skill_assessment_scores : List (Text × Value)
    pub notice_period_days : ℕ
    pub preferred_work_mode : Text
    pub willing_to_relocate : Bool
    pub github_activity_score : Value
    pub saved_by_recruiters_30d : ℕ
    pub interview_completion_rate : Value
    pub offer_acceptance_rate : Value
    pub profile_completeness_score : Value
    pub verified_email : Bool
    pub verified_phone : Bool
    pub linkedin_connected : Bool

  pub record Candidate : Type 0 where
    pub candidate_id : Text
    pub profile : Profile
    pub career_history : List Role
    pub skills : List Skill
    pub redrob_signals : Signals

-- `_parse_date`: a date is its ordinal, as `from_iso` reads it
unfoldable pub parse_date : (Text → Option ℕ) → Text → Option ℕ
parse_date from_iso [] = none
parse_date from_iso (c ∷ s) = from_iso (take 10 (c ∷ s))

-- `date or default`
unfoldable pub date_or : ℕ → Option ℕ → ℕ
date_or default none = default
date_or default (some d) = d

-- `DATASET_TODAY`, the 19th of June 2026
abbrev pub dataset_today : ℕ
dataset_today = 739786

-- `sum(int(r.get("duration_months", 0) or 0) for r in career)`
unfoldable pub total_months : List Role → ℕ
total_months [] = 0
total_months (r ∷ rs) = r.duration_months + total_months rs
