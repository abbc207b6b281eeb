-- ===== src/Gate.antt =====
-- pipeline/gate_filter.py: the gates over the rows of the feature matrix, and the rejection
-- registry. A float is a value of the parameter `n`, which has Python's `<` and `==` and the literals,
-- given in hundredths; a comparison with NaN is false. The index of the frame has no duplicates.
use provenancerank.Prelude.{
  ℕ, zero, suc, ◌+◌, Bool, true, false, not, ◌&&◌, Option, none, some, List, [], ◌∷◌, ◌++◌, map,
  length, select, if◌then◌else◌,
}
use provenancerank.Dict.{assign}
use provenancerank.Floats.{Float}
use provenancerank.Text.{Text}
pub mod Verdict
pub mod Registry
mod Tests

-- The reasons of the hard gates and of the soft flags.
pub data Reason : Type 0 where
  honeypot all_consulting_career keyword_stuffer inactive_unresponsive : Reason

pub data SoftFlag : Type 0 where
  notice_gt_90 title_chaser cv_speech_no_nlp outside_india_focus stale_but_responsive : SoftFlag

module _ (n : Float) where
  open n use {Value, less, same, hundredths}

  -- The columns that `apply_gates` reads. The response rate is `none` where `to_numeric` coerces it
  -- to NaN.
  pub record Features : Type 0 where
    pub candidate_id : Text
    pub current_title : Text
    pub is_honeypot : Value
    pub all_consulting : Value
    pub keyword_stuffer_flag : Value
    pub days_since_active : Value
    pub recruiter_response_rate : Option Value
    pub notice_period_days : Value
    pub title_chaser_flag : Value
    pub wrong_specialisation_penalty : Value
    pub location_fit : Value

  -- A row with what `gate_passed`, `failures` and `soft` hold for it.
  pub record Marked : Type 0 where
    pub row : Features
    pub gate_passed : Bool
    pub failures : List Reason
    pub soft : List SoftFlag

  unfoldable pub start : Features → Marked
  start row = record { row = row; gate_passed = true; failures = []; soft = [] }

  -- `hard`, on one row
  unfoldable pub hard_row : (Features → Bool) → Reason → Marked → Marked
  hard_row mask reason m =
      if mask m.row
      then record m { gate_passed = false; failures = m.failures ++ reason ∷ [] }
      else m

  -- `hard`
  unfoldable pub hard : (Features → Bool) → Reason → List Marked → List Marked
  hard mask reason = map (hard_row mask reason)

  -- `flag`, on one row
  unfoldable pub flag_row : (Features → Bool) → SoftFlag → Marked → Marked
  flag_row mask reason m = if mask m.row then record m { soft = m.soft ++ reason ∷ [] } else m

  -- `flag`
  unfoldable pub flag : (Features → Bool) → SoftFlag → List Marked → List Marked
  flag mask reason = map (flag_row mask reason)

  -- `df[column] == 1`
  unfoldable pub is_one : Value → Bool
  is_one v = same v (hundredths 100)

  -- `.fillna(0)`
  unfoldable pub filled : Option Value → Value
  filled none = hundredths 0
  filled (some v) = v

  -- `df["days_since_active"] > 180`
  unfoldable pub stale : Features → Bool
  stale row = less (hundredths 18000) row.days_since_active

  unfoldable pub inactive : Features → Bool
  inactive row = stale row && less (filled row.recruiter_response_rate) (hundredths 15)

  -- `apply_gates`
  unfoldable pub apply_gates : List Features → List Marked
  apply_gates df =
      let marked = map start df in
      let marked = hard (λ r. is_one r.is_honeypot) honeypot marked in
      let marked = hard (λ r. is_one r.all_consulting) all_consulting_career marked in
      let marked = hard (λ r. is_one r.keyword_stuffer_flag) keyword_stuffer marked in
      let marked = hard inactive inactive_unresponsive marked in
      let marked = flag (λ r. less (hundredths 9000) r.notice_period_days) notice_gt_90 marked in
      let marked = flag (λ r. is_one r.title_chaser_flag) title_chaser marked in
      let marked =
        flag (λ r. less (hundredths 50) r.wrong_specialisation_penalty) cv_speech_no_nlp marked in
      let marked = flag (λ r. less r.location_fit (hundredths 50)) outside_india_focus marked in
      flag (λ r. stale r && not (inactive r)) stale_but_responsive marked

  -- A line of the registry.
  pub record Rejection : Type 0 where
    pub candidate_id : Text
    pub current_title : Text
    pub gate_failures : List Reason

  unfoldable pub rejection_of : Marked → Rejection
  rejection_of m = record {
    candidate_id = m.row.candidate_id;
    current_title = m.row.current_title;
    gate_failures = m.failures;
  }

  -- `write_rejection_registry`: the lines written, none for an empty registry, and the number
  -- returned
  unfoldable pub write_rejection_registry : List Marked → List Rejection × ℕ
  write_rejection_registry df =
      let out = map rejection_of (select (λ m. not m.gate_passed) df) in (out, length out)
