-- ===== src/Candidates/Sample.antt =====
-- Profiles for concrete runs. Numbers are whole hundredths, and a date is written as its ordinal.
use provenancerank.Prelude.{ℕ, true, false, Option, none, some, [], ◌∷◌, if◌then◌else◌}
use provenancerank.Floats.Sample.{sample}
use provenancerank.Text.{Text, codes, all_digits, read_digits}
use provenancerank.Candidates.{Role, Skill, Signals, Candidate}

unfoldable pub read_ordinal : Text → Option ℕ
read_ordinal s = if all_digits s then some (read_digits 0 s) else none

abbrev pub role : Role
role = record {
  company = codes "Acme";
  company_size = codes "51-200";
  title = codes "ML Engineer";
  start_date = codes "738000";
  end_date = codes "";
  duration_months = 50;
  is_current = true;
  description = codes "Ranking in production";
}

abbrev pub first_role : Role
first_role = record role {
  company = codes "Infosys";
  start_date = codes "737000";
  end_date = codes "737900";
  duration_months = 29;
  is_current = false;
  title = codes "Junior Engineer";
}

abbrev pub skill : Skill
skill = record {
  name = codes "FAISS";
  proficiency = codes "advanced";
  endorsements = 10;
  duration_months = 24;
}

abbrev pub signals : Signals sample
signals = record {
  last_active_date = codes "739700";
  open_to_work_flag = true;
  applications_submitted_30d = 5;
  recruiter_response_rate = 60;
  avg_response_time_hours = 1200;
  skill_assessment_scores = (codes "NLP", 8000) ∷ [];
  notice_period_days = 30;
  preferred_work_mode = codes "hybrid";
  willing_to_relocate = true;
  github_activity_score = 4000;
  saved_by_recruiters_30d = 3;
  interview_completion_rate = 80;
  offer_acceptance_rate = 50;
  profile_completeness_score = 9000;
  verified_email = true;
  verified_phone = false;
  linkedin_connected = true;
}

abbrev pub candidate : Candidate sample
candidate = record {
  candidate_id = codes "CAND_0000001";
  profile = record {
    anonymized_name = codes "A";
    headline = codes "Search engineer";
    summary = codes "";
    location = codes "Pune";
    country = codes "India";
    years_of_experience = 600;
    current_title = codes "ML Engineer";
    current_company = codes "Acme";
    current_industry = codes "Software";
  };
  career_history = role ∷ first_role ∷ [];
  skills =
      skill ∷ record skill { name = codes "Python" } ∷ record skill { name = codes "Excel" } ∷ [];
  redrob_signals = signals;
}

-- The same with an impossible number of applications.
abbrev pub trap : Candidate sample
trap = record candidate {
  candidate_id = codes "CAND_0000002";
  redrob_signals = record signals { applications_submitted_30d = 80 };
}
