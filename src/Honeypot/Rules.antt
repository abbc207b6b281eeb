-- ===== src/Honeypot/Rules.antt =====
-- Which profiles pipeline/honeypot_detector.py lets through.
use provenancerank.Prelude.{
  ℕ, ◌≤◌, ◌<◌, ◌≡◌, ◌↔◌, ◌⊎◌, refl, false, ◌&&◌, Option, none, some, List, [], ◌∷◌, ◌++◌, All,
  All_iff, append-nil_iff, count_by, length, length-select, ltb, ◌==◌, arith,
}
use provenancerank.Floats.{Float}
use provenancerank.Text.{Text, codes, text_eqb}
use provenancerank.Text.Order.{text_eqb_iff}
use provenancerank.Candidates.{
  Role, Skill, Candidate, parse_date, date_or, dataset_today, total_months,
}
use provenancerank.Honeypot.{
  Flag, is_tiny, tenure_flags, calendar_flags, each_role, is_expert_zero, expert_flags,
  experience_flags, volume_flags, detect_honeypot, is_honeypot,
}

module _ (n : Float) (from_iso : Text → Option ℕ) where
  open n use {Value, less, hundredths, plus, over, of_nat, of_difference}

  -- No role at a company of at most 50 people is longer than 96 months.
  abbrev pub TenurePossible : Role → Type 0
  TenurePossible r =
      (r.company_size ≡ codes "1-10") ⊎ (r.company_size ≡ codes "11-50") → r.duration_months ≤ 96

  -- A role with a start is not longer than the calendar and nine months allow; one without an end
  -- runs to the snapshot's day.
  abbrev pub CalendarPossible : Role → Type 0
  CalendarPossible r =
      (s : ℕ)
      → parse_date from_iso r.start_date ≡ some s
      → less
          (plus
            (over (of_difference (date_or dataset_today (parse_date from_iso r.end_date)) s)
              (hundredths 3044))
            (hundredths 900))
          (of_nat r.duration_months)
        ≡ false

  pub record IsPossible (c : Candidate n) : Type 0 where
    pub tenures : All TenurePossible c.career_history
    pub calendar : All CalendarPossible c.career_history
    pub experts :
        count_by (λ s. text_eqb s.proficiency (codes "expert") && s.duration_months == 0) c.skills
        < 3
    pub experience :
        0 < total_months c.career_history
        → less
            (plus (over (of_nat (total_months c.career_history)) (of_nat 12)) (hundredths 300))
            c.profile.years_of_experience
          ≡ false
    pub volume : c.redrob_signals.applications_submitted_30d ≤ 50

  each_role-nil_iff :
      (rule : Role → List (Flag n from_iso)) (rs : List Role)
      → (each_role n from_iso rule rs ≡ []) ↔ All (λ r. rule r ≡ []) rs
  unfolding each_role
  each_role-nil_iff rule [] = (λ _. tt, λ _. refl)
  each_role-nil_iff rule (r ∷ rs) = (
    λ e.
        let (front, back) = (append-nil_iff (rule r) (each_role n from_iso rule rs)).0 e in
        (front, (each_role-nil_iff rule rs).0 back),
    λ (front, back).
        (append-nil_iff (rule r) (each_role n from_iso rule rs)).1
          (front, (each_role-nil_iff rule rs).1 back),
  )

  each_role-All :
      {rule : Role → List (Flag n from_iso)} {P : Role → Type 0}
      → ((r : Role) → (rule r ≡ []) ↔ P r)
      → (rs : List Role) → (each_role n from_iso rule rs ≡ []) ↔ All P rs
  each_role-All {rule = rule} h rs =
      let nil = each_role-nil_iff rule rs in
      let each = All_iff rs h in (λ e. each.0 (nil.0 e), λ ps. nil.1 (each.1 ps))

  tenure_flags-nil_iff : (r : Role) → (tenure_flags n from_iso r ≡ []) ↔ TenurePossible r
  unfolding tenure_flags is_tiny
  tenure_flags-nil_iff r = ground (
    arith,
    text_eqb_iff r.company_size (codes "1-10"),
    text_eqb_iff r.company_size (codes "11-50"),
  )

  calendar_flags-nil_iff :
      (r : Role) (start : Option ℕ)
      → (calendar_flags n from_iso r start ≡ []) ↔ (
          (s : ℕ)
          → start ≡ some s
          → less
              (plus
                (over
                  (of_difference (date_or dataset_today (parse_date from_iso r.end_date)) s)
                  (hundredths 3044))
                (hundredths 900))
              (of_nat r.duration_months)
            ≡ false)
  unfolding calendar_flags
  calendar_flags-nil_iff r none = (λ _ s e. cc, λ _. refl)
  calendar_flags-nil_iff r (some s) = (λ h t e. ground (arith, h, e), λ h. ground (arith, h s refl))

  expert_flags-nil_iff :
      (skills : List Skill)
      → (expert_flags n from_iso skills ≡ []) ↔ (
          count_by (λ s. text_eqb s.proficiency (codes "expert") && s.duration_months == 0) skills
          < 3)
  unfolding expert_flags is_expert_zero
  expert_flags-nil_iff skills = ground (arith, length-select (is_expert_zero n from_iso) skills)

  experience_flags-nil_iff :
      (yoe : Value) (total : ℕ)
      → (experience_flags n from_iso yoe total ≡ [])
        ↔ (0 < total → less (plus (over (of_nat total) (of_nat 12)) (hundredths 300)) yoe ≡ false)
  unfolding experience_flags
  experience_flags-nil_iff yoe total = ground arith

  volume_flags-nil_iff : (apps : ℕ) → (volume_flags n from_iso apps ≡ []) ↔ (apps ≤ 50)
  unfolding volume_flags
  volume_flags-nil_iff apps = ground arith

  length-nil_iff : {A : Type 0} (xs : List A) → (ltb 0 (length xs) ≡ false) ↔ (xs ≡ [])
  length-nil_iff [] = (λ _. refl, λ _. refl)
  length-nil_iff (x ∷ xs) = (λ e. absurd (ground (arith, e)), λ e. cc)

  all_nil_iff :
      {A : Type 0} (a b c d e : List A)
      → (ltb 0 (length ((((a ++ b) ++ c) ++ d) ++ e)) ≡ false)
        ↔ (a ≡ []) × (b ≡ []) × (c ≡ []) × (d ≡ []) × (e ≡ [])
  all_nil_iff a b c d e = ground (
    arith,
    length-nil_iff ((((a ++ b) ++ c) ++ d) ++ e),
    append-nil_iff (((a ++ b) ++ c) ++ d) e,
    append-nil_iff ((a ++ b) ++ c) d,
    append-nil_iff (a ++ b) c,
    append-nil_iff a b,
  )

  -- A profile is no honeypot exactly when it is possible: no role at a company of at most 50 people is
  -- longer than 96 months, no role with a start is more than nine months longer than its dates allow,
  -- fewer than three skills are at expert level after no month of use, the stated experience is at most
  -- three years above a career that has any month, and at most 50 applications went out in 30 days.
  -- This holds for whatever reads the dates, and for any floats.
  pub is_honeypot-IsPossible : (c : Candidate n) → (is_honeypot n from_iso c ≡ false) ↔ IsPossible c
  unfolding is_honeypot detect_honeypot
  is_honeypot-IsPossible c =
      let career = c.career_history in
      let apart =
        all_nil_iff (each_role n from_iso (tenure_flags n from_iso) career)
          (each_role n from_iso
            (λ r. calendar_flags n from_iso r (parse_date from_iso r.start_date)) career)
          (expert_flags n from_iso c.skills)
          (experience_flags n from_iso c.profile.years_of_experience (total_months career))
          (volume_flags n from_iso c.redrob_signals.applications_submitted_30d) in
      let tenure = each_role-All tenure_flags-nil_iff career in
      let calendar =
        each_role-All (λ r. calendar_flags-nil_iff r (parse_date from_iso r.start_date)) career in
      let experts = expert_flags-nil_iff c.skills in
      let experience =
        experience_flags-nil_iff c.profile.years_of_experience (total_months career) in
      let volume = volume_flags-nil_iff c.redrob_signals.applications_submitted_30d in
      (
        λ clean.
            let (t, k, x, y, v) = apart.0 clean in
            record {
              tenures = tenure.0 t;
              calendar = calendar.0 k;
              experts = experts.0 x;
              experience = experience.0 y;
              volume = volume.0 v;
            },
        λ p. apart.1 (
          tenure.1 p.tenures,
          calendar.1 p.calendar,
          experts.1 p.experts,
          experience.1 p.experience,
          volume.1 p.volume,
        ),
      )
