-- ===== src/Features/Gated.antt =====
-- From the profiles to the gates: pipeline/feature_engineering.py with pipeline/gate_filter.py.
use provenancerank.Prelude.{
  ℕ, ◌≡◌, refl, Bool, true, false, not, ◌&&◌, Option, List, [], ◌∷◌, map, length, select, count_by,
  length-select, count_by-sort_by, length-sort_by, ltb, ◌==◌, Bool-cases, inl, inr,
}
use provenancerank.Floats.{Float, of_bool}
use provenancerank.Text.{Text}
use provenancerank.Constants.{jd_core_skills, non_relevant_skills}
use provenancerank.Candidates.{Candidate, parse_date}
use provenancerank.Honeypot.{is_honeypot}
use provenancerank.Features.Titles.{is_consulting, is_technical_title}
use provenancerank.Features.Career.{sorted_roles, all_consulting, compute_career_features}
use provenancerank.Features.Skills.{is_among, count_among, keyword_stuffer, compute_skill_features}
use provenancerank.Features.Signals.{SignalSettings, days_since, compute_signal_features}
use provenancerank.Features.Row.{build_feature_row, gate_columns, build_feature_matrix}
use provenancerank.Gate.{filled, apply_gates}
use provenancerank.Gate.Verdict.{one, is_nil-failures_of, verdict, apply_gates-verdict}
use provenancerank.Gate.Registry.{passes}

-- What `==` says of 0.0 and 1.0.
pub record TellsFlags (n : Float) : Type 0 where
  pub one_one : n.same (n.hundredths 100) (n.hundredths 100) ≡ true
  pub zero_one : n.same (n.hundredths 0) (n.hundredths 100) ≡ false

module _ (n : Float) (from_iso : Text → Option ℕ) where
  open n use {Value, less, hundredths}

  -- There is a role, and every role is at a consulting firm.
  abbrev pub consulting_only : Candidate n → Bool
  consulting_only c =
      ltb 0 (length c.career_history)
      && count_by (λ r. not (is_consulting r.company)) c.career_history == 0

  -- The skills and titles are those of a keyword stuffer.
  abbrev pub stuffs : Candidate n → Bool
  stuffs c =
      keyword_stuffer n (select (is_among jd_core_skills) c.skills)
        (count_among non_relevant_skills c.skills) c.profile.current_title
        (count_by (λ r. is_technical_title r.title) c.career_history)

  -- Not active for more than 180 days, with a response rate under 0.15.
  abbrev pub unresponsive : Candidate n → Bool
  unresponsive c =
      less (hundredths 18000) (days_since n (parse_date from_iso c.redrob_signals.last_active_date))
      && less c.redrob_signals.recruiter_response_rate (hundredths 15)

  abbrev pub admitted : Candidate n → Bool
  admitted c =
      not (is_honeypot n from_iso c)
      && not (consulting_only c)
      && not (stuffs c)
      && not (unresponsive c)

  one-of_bool : TellsFlags n → (b : Bool) → one n (of_bool n b) ≡ b
  unfolding of_bool
  one-of_bool h true = h.one_one
  one-of_bool h false = h.zero_one

  all_consulting-sorted_roles :
      (c : Candidate n)
      → all_consulting from_iso n (sorted_roles from_iso c.career_history) ≡ consulting_only c
  unfolding all_consulting sorted_roles
  all_consulting-sorted_roles c =
      rw
        (
          length-sort_by,
          length-select (λ r. not (is_consulting r.company))
              (sorted_roles from_iso c.career_history),
          count_by-sort_by,
        )
        refl

  sorted_roles-technical :
      (c : Candidate n)
      → count_by (λ r. is_technical_title r.title) (sorted_roles from_iso c.career_history)
        ≡ count_by (λ r. is_technical_title r.title) c.career_history
  unfolding sorted_roles
  sorted_roles-technical c = count_by-sort_by _ _ c.career_history

  passes-build_feature_row :
      (s : SignalSettings n) (c : Candidate n)
      → TellsFlags n
      → passes n (gate_columns n from_iso (build_feature_row n from_iso s c)) ≡ admitted c
  unfolding gate_columns build_feature_row compute_career_features compute_skill_features
      compute_signal_features filled is_honeypot
  passes-build_feature_row s c h =
      rw
        (
          is_nil-failures_of n (gate_columns n from_iso (build_feature_row n from_iso s c)),
          one-of_bool h,
          one-of_bool h,
          one-of_bool h,
          all_consulting-sorted_roles c,
          length-select (λ r. is_technical_title r.title) (sorted_roles from_iso c.career_history),
          sorted_roles-technical c,
        )
        refl

  passed_ids :
      (s : SignalSettings n) (cs : List (Candidate n))
      → TellsFlags n
      → map
          (λ m. m.row.candidate_id)
          (select
            (λ m. m.gate_passed)
            (map
              (verdict n)
              (map (gate_columns n from_iso) (build_feature_matrix n from_iso s cs))))
        ≡ map (λ c. c.candidate_id) (select admitted cs)
  unfolding build_feature_matrix verdict gate_columns build_feature_row
  passed_ids s [] h = refl
  passed_ids s (c ∷ cs) h = rw (passes-build_feature_row s c h) (elim (Bool-cases (admitted c)) [
    | inl kept ↦ rw (kept, passed_ids s cs h) refl
    | inr dropped ↦ rw (dropped, passed_ids s cs h) refl
  ])

  -- From the profiles to the gates, where `==` tells 0.0 from 1.0: the candidates whose row passes the
  -- gates are, in order, exactly those that are no honeypot, that have a role outside the consulting
  -- firms or no role at all, whose skills and titles are not those of a keyword stuffer, and that were
  -- active in the last 180 days or answer at least the share 0.15 of recruiters.
  pub apply_gates-build_feature_matrix :
      (s : SignalSettings n) (cs : List (Candidate n))
      → TellsFlags n
      → map
          (λ m. m.row.candidate_id)
          (select
            (λ m. m.gate_passed)
            (apply_gates n (map (gate_columns n from_iso) (build_feature_matrix n from_iso s cs))))
        ≡ map (λ c. c.candidate_id) (select admitted cs)
  apply_gates-build_feature_matrix s cs h =
      rw
        (apply_gates-verdict n
          (map (gate_columns n from_iso) (build_feature_matrix n from_iso s cs)))
        (passed_ids s cs h)
