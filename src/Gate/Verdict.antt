-- ===== src/Gate/Verdict.antt =====
-- What `apply_gates` of pipeline/gate_filter.py says of each row.
use mathlib.Core.List.{append-nil, append_assoc}
use provenancerank.Prelude.{
  ◌≡◌, refl, Bool, true, false, not, ◌&&◌, List, [], ◌∷◌, ◌++◌, map, if◌then◌else◌, arith,
  Bool-cases, inl, inr,
}
use provenancerank.Floats.{Float}
use provenancerank.Gate.{
  filled, Reason, SoftFlag, honeypot, all_consulting_career, keyword_stuffer, inactive_unresponsive,
  notice_gt_90, title_chaser, cv_speech_no_nlp, outside_india_focus, stale_but_responsive, Features,
  Marked, start, hard_row, hard, flag_row, flag, is_one, stale, inactive, apply_gates,
}

-- The reason, where the test holds.
abbrev pub when {ℓ} : {A : Type ℓ} → Bool → A → List A
when b a = if b then a ∷ [] else []

abbrev pub is_nil {ℓ} : {A : Type ℓ} → List A → Bool
is_nil [] = true
is_nil (x ∷ xs) = false

module _ (n : Float) where
  open n use {less, hundredths}

  abbrev pub one : n.Value → Bool
  one v = n.same v (hundredths 100)

  abbrev pub quiet : Features n → Bool
  quiet r = less (hundredths 18000) r.days_since_active

  -- The reasons against a row, read off its columns.
  pub failures_of : Features n → List Reason
  failures_of r =
      when (one r.is_honeypot) honeypot
      ++ (when (one r.all_consulting) all_consulting_career
          ++ (when (one r.keyword_stuffer_flag) keyword_stuffer
              ++ when (quiet r && less (filled n r.recruiter_response_rate) (hundredths 15))
                  inactive_unresponsive))

  -- The remarks on a row, read off its columns.
  pub remarks_of : Features n → List SoftFlag
  remarks_of r =
      when (less (hundredths 9000) r.notice_period_days) notice_gt_90
      ++ (when (one r.title_chaser_flag) title_chaser
          ++ (when (less (hundredths 50) r.wrong_specialisation_penalty) cv_speech_no_nlp
              ++ (when (less r.location_fit (hundredths 50)) outside_india_focus
                  ++ when
                      (quiet r && not (less (filled n r.recruiter_response_rate) (hundredths 15)))
                      stale_but_responsive)))

  -- The row has no failure exactly when no gate's test holds of it.
  pub is_nil-failures_of :
      (r : Features n)
      → is_nil (failures_of r) ≡ (
          not (one r.is_honeypot)
          && not (one r.all_consulting)
          && not (one r.keyword_stuffer_flag)
          && not (quiet r && less (filled n r.recruiter_response_rate) (hundredths 15)))
  unfolding failures_of
  is_nil-failures_of r = ground arith

  unfoldable pub verdict : Features n → Marked n
  verdict r = record {
    row = r;
    gate_passed = is_nil (failures_of r);
    failures = failures_of r;
    soft = remarks_of r;
  }

  judged :
      (Features n → Bool)
      → (Features n → List Reason)
      → (Features n → List SoftFlag)
      → Features n
      → Marked n
  judged p fs ss r = record { row = r; gate_passed = p r; failures = fs r; soft = ss r }

  module _ (p : Features n → Bool) (fs : Features n → List Reason) (ss : Features n → List SoftFlag)
      (mask : Features n → Bool) where
    hard-judged :
        (reason : Reason) (df : List (Features n))
        → hard n mask reason (map (judged p fs ss) df)
          ≡ map (judged (λ r. p r && not (mask r)) (λ r. fs r ++ when (mask r) reason) ss) df
    unfolding hard hard_row judged
    hard-judged reason [] = refl
    hard-judged reason (r ∷ df) = elim (Bool-cases (mask r)) [
      | inl on ↦ rw (on, hard-judged reason df) (ground arith)
      | inr off ↦ rw (off, hard-judged reason df) (rw append-nil (ground arith))
    ]

    flag-judged :
        (reason : SoftFlag) (df : List (Features n))
        → flag n mask reason (map (judged p fs ss) df)
          ≡ map (judged p fs (λ r. ss r ++ when (mask r) reason)) df
    unfolding flag flag_row judged
    flag-judged reason [] = refl
    flag-judged reason (r ∷ df) = elim (Bool-cases (mask r)) [
      | inl on ↦ rw (on, flag-judged reason df) refl
      | inr off ↦ rw (off, flag-judged reason df) (rw append-nil refl)
    ]

  map-start :
      (df : List (Features n)) → map (start n) df ≡ map (judged (λ _. true) (λ _. []) (λ _. [])) df
  unfolding start judged
  map-start df = refl

  stale_bits : (a b : Bool) → (a && not (a && b)) ≡ (a && not b)
  stale_bits a b = ground arith

  passed_bits :
      (a b c d : Bool)
      → ((((true && not a) && not b) && not c) && not d)
        ≡ is_nil (
            when a honeypot
            ++ (when b all_consulting_career
                ++ (when c keyword_stuffer ++ when d inactive_unresponsive)))
  passed_bits a b c d = ground arith

  judged-verdict :
      (df : List (Features n))
      → map
          (judged
            (λ r.
              (((true && not (is_one n r.is_honeypot)) && not (is_one n r.all_consulting))
                && not (is_one n r.keyword_stuffer_flag))
              && not (inactive n r))
            (λ r.
              (((([] ++ when (is_one n r.is_honeypot) honeypot)
                    ++ when (is_one n r.all_consulting) all_consulting_career)
                  ++ when (is_one n r.keyword_stuffer_flag) keyword_stuffer)
                ++ when (inactive n r) inactive_unresponsive))
            (λ r.
              ((((([] ++ when (less (hundredths 9000) r.notice_period_days) notice_gt_90)
                      ++ when (is_one n r.title_chaser_flag) title_chaser)
                    ++ when (less (hundredths 50) r.wrong_specialisation_penalty) cv_speech_no_nlp)
                  ++ when (less r.location_fit (hundredths 50)) outside_india_focus)
                ++ when (stale n r && not (inactive n r)) stale_but_responsive)))
          df
        ≡ map verdict df
  unfolding judged verdict failures_of remarks_of is_one inactive stale
  judged-verdict [] = refl
  judged-verdict (r ∷ df) =
      rw
        (
          judged-verdict df,
          passed_bits (is_one n r.is_honeypot) (is_one n r.all_consulting)
              (is_one n r.keyword_stuffer_flag) (inactive n r),
          stale_bits (quiet r) (less (filled n r.recruiter_response_rate) (hundredths 15)),
        )
        (simp (append_assoc))

  -- Each row is judged by itself, in the frame's order: it passes exactly when it has no failure,
  -- its failures are the hard gates that hold of it, in the order of the gates, and its soft flags,
  -- which have no part in that, are those that hold of it, in their order.
  pub apply_gates-verdict : (df : List (Features n)) → apply_gates n df ≡ map verdict df
  unfolding apply_gates
  apply_gates-verdict df =
      rw
        (
          map-start, hard-judged, hard-judged, hard-judged, hard-judged, flag-judged, flag-judged,
          flag-judged, flag-judged, flag-judged,
        )
        (judged-verdict df)
