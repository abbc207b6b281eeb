-- ===== src/Features/Signals.antt =====
-- `compute_signal_features` of pipeline/feature_engineering.py.
use provenancerank.Prelude.{ℕ, Bool, Option, none, some, leb, if◌then◌else◌}
use provenancerank.Floats.{Float, min_of, max_of, of_bool}
use provenancerank.Text.{Text}
use provenancerank.Candidates.{Signals, Candidate, parse_date, dataset_today}

module _ (n : Float) where
  open n use {
    Value, less, geq, same, hundredths, plus, minus, times, over, of_nat, of_difference, exp,
  }

  -- The settings that are read.
  pub record SignalSettings : Type 0 where
    pub recency_half_life_days : Value
    pub availability_weight : Value
    pub engagement_weight : Value
    pub trust_weight : Value
    pub github_weight : Value

  -- The keys of the result.
  pub record SignalFeatures : Type 0 where
    pub days_since_active : Value
    pub recency_score : Value
    pub availability_score : Value
    pub engagement_score : Value
    pub trust_score : Value
    pub github_activity_score : Value
    pub github_linked : Value
    pub notice_period_days : Value
    pub open_to_work : Value
    pub offer_acceptance_rate : Value
    pub behavioural_composite : Value
    pub recruiter_response_rate : Value

  abbrev pub minus_one : Value
  minus_one = minus (hundredths 0) (hundredths 100)

  -- `float(v or -1)`
  unfoldable pub or_minus_one : Value → Value
  or_minus_one v = if same v (hundredths 0) then minus_one else v

  -- `days_since`, which is below 0 for a date to come
  unfoldable pub days_since : Option ℕ → Value
  days_since none = of_nat 365
  days_since (some d) = of_difference dataset_today d

  unfoldable pub notice_factor : ℕ → Value
  notice_factor notice =
      if leb notice 30
      then hundredths 100
      else if leb notice 60
      then hundredths 70
      else if leb notice 90
      then hundredths 40
      else hundredths 10

  unfoldable pub availability_of : Bool → ℕ → Value → Value
  availability_of open_to_work notice recency =
      times (times (if open_to_work then hundredths 100 else hundredths 30) (notice_factor notice))
        recency

  -- `min(a / b, 1.0)`
  unfoldable pub part_of : Value → Value → Value
  part_of a b = min_of n (over a b) (hundredths 100)

  unfoldable pub engagement_of : Signals n → Value
  engagement_of sig =
      plus
        (plus
          (plus
            (plus (times (hundredths 40) sig.recruiter_response_rate)
              (times (hundredths 20) sig.interview_completion_rate))
            (times (hundredths 20) (part_of sig.profile_completeness_score (hundredths 10000))))
          (times (hundredths 10) (part_of (of_nat sig.saved_by_recruiters_30d) (hundredths 1000))))
        (times (hundredths 10) (
          over (hundredths 100)
            (plus (hundredths 100) (over sig.avg_response_time_hours (hundredths 2400)))))

  unfoldable pub share : Bool → ℕ → Value
  share verified h = if verified then hundredths h else hundredths 0

  unfoldable pub trust_of : Signals n → Value
  trust_of sig =
      plus
        (plus (plus (share sig.verified_email 30) (share sig.verified_phone 30))
          (share sig.linkedin_connected 20))
        (times (hundredths 20) (part_of sig.profile_completeness_score (hundredths 10000)))

  -- `behavioural`
  unfoldable pub behavioural_of : SignalSettings → Value → Value → Value → Value → Value
  behavioural_of s availability engagement trust github =
      plus
        (plus
          (plus (times s.availability_weight availability) (times s.engagement_weight engagement))
          (times s.trust_weight trust))
        (times s.github_weight (over github (hundredths 10000)))

  unfoldable pub compute_signal_features :
      (Text → Option ℕ) → SignalSettings → Candidate n → SignalFeatures
  compute_signal_features from_iso s c =
      let sig = c.redrob_signals in
      let days = days_since (parse_date from_iso sig.last_active_date) in
      let recency =
        exp (over (minus (hundredths 0) (max_of n days (hundredths 0))) s.recency_half_life_days) in
      let availability = availability_of sig.open_to_work_flag sig.notice_period_days recency in
      let engagement = engagement_of sig in
      let trust = trust_of sig in
      let gh_raw = or_minus_one sig.github_activity_score in
      let github = if geq gh_raw (hundredths 0) then gh_raw else hundredths 0 in
      let oar = or_minus_one sig.offer_acceptance_rate in
      record {
        days_since_active = days;
        recency_score = recency;
        availability_score = availability;
        engagement_score = engagement;
        trust_score = trust;
        github_activity_score = github;
        github_linked = of_bool n (geq gh_raw (hundredths 0));
        notice_period_days = of_nat sig.notice_period_days;
        open_to_work = of_bool n sig.open_to_work_flag;
        offer_acceptance_rate = if geq oar (hundredths 0) then oar else hundredths 50;
        behavioural_composite = behavioural_of s availability engagement trust github;
        recruiter_response_rate = sig.recruiter_response_rate;
      }
