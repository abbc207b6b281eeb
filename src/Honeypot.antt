-- ===== src/Honeypot.antt =====
-- pipeline/honeypot_detector.py: the impossible profiles. A flag is the rule that holds with what
-- its text names; a date is read by the parameter `from_iso`, and months are floats.
use provenancerank.Prelude.{
  ℕ, zero, suc, ◌+◌, Bool, true, false, not, ◌&&◌, ◌||◌, Option, none, some, List, [], ◌∷◌, ◌++◌,
  map, length, select, leb, ltb, ◌==◌, if◌then◌else◌, any,
}
use provenancerank.Floats.{Float, max_of}
use provenancerank.Text.{Text, codes, text_eqb}
use provenancerank.Candidates.{
  Role, Skill, Profile, Signals, Candidate, parse_date, date_or, dataset_today, total_months,
}
pub mod Rules
mod Tests

module _ (n : Float) (from_iso : Text → Option ℕ) where
  open n use {Value, less, hundredths, plus, over, of_nat, of_difference}

  -- The reason strings, by the values that they print.
  pub data Flag : Type 0 where
    implausible_tenure : Text → ℕ → Flag
    duration_exceeds_calendar : Text → ℕ → Value → Flag
    expert_zero_duration : ℕ → Flag
    yoe_exceeds_career_history : Value → Value → Flag
    impossible_application_volume : ℕ → Flag

  -- `r.get("company_size") in ("1-10", "11-50")`
  unfoldable pub is_tiny : Text → Bool
  is_tiny size = text_eqb size (codes "1-10") || text_eqb size (codes "11-50")

  -- Rule 1, on one role
  unfoldable pub tenure_flags : Role → List Flag
  tenure_flags r =
      if is_tiny r.company_size && ltb 96 r.duration_months
      then implausible_tenure r.company r.duration_months ∷ []
      else []

  -- Rule 2, on one role with this start
  unfoldable pub calendar_flags : Role → Option ℕ → List Flag
  calendar_flags r none = []
  calendar_flags r (some s) =
      let e = date_or dataset_today (parse_date from_iso r.end_date) in
      let calendar = over (of_difference e s) (hundredths 3044) in
      if less (plus calendar (hundredths 900)) (of_nat r.duration_months)
      then duration_exceeds_calendar r.company r.duration_months calendar ∷ []
      else []

  -- The loops of rules 1 and 2
  unfoldable pub each_role : (Role → List Flag) → List Role → List Flag
  each_role rule [] = []
  each_role rule (r ∷ rs) = rule r ++ each_role rule rs

  unfoldable pub is_expert_zero : Skill → Bool
  is_expert_zero s = text_eqb s.proficiency (codes "expert") && s.duration_months == 0

  -- Rule 3
  unfoldable pub expert_flags : List Skill → List Flag
  expert_flags skills =
      let count = length (select is_expert_zero skills) in
      if leb 3 count then expert_zero_duration count ∷ [] else []

  -- Rule 4
  unfoldable pub experience_flags : Value → ℕ → List Flag
  experience_flags yoe total =
      let years = over (of_nat total) (of_nat 12) in
      if ltb 0 total && less (plus years (hundredths 300)) yoe
      then yoe_exceeds_career_history yoe years ∷ []
      else []

  -- Rule 5
  unfoldable pub volume_flags : ℕ → List Flag
  volume_flags apps = if ltb 50 apps then impossible_application_volume apps ∷ [] else []

  -- `detect_honeypot`
  unfoldable pub detect_honeypot : Candidate n → Bool × List Flag
  detect_honeypot c =
      let career = c.career_history in
      let flags = each_role tenure_flags career in
      let flags =
        flags ++ each_role (λ r. calendar_flags r (parse_date from_iso r.start_date)) career in
      let flags = flags ++ expert_flags c.skills in
      let flags = flags ++ experience_flags c.profile.years_of_experience (total_months career) in
      let flags = flags ++ volume_flags c.redrob_signals.applications_submitted_30d in
      (ltb 0 (length flags), flags)

  -- `is_honeypot`
  unfoldable pub is_honeypot : Candidate n → Bool
  is_honeypot c = (detect_honeypot c).0
