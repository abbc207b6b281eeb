-- ===== src/Scoring.antt =====
-- `merge_final_scores` of pipeline/scorer.py with the modifier of pipeline/signal_scorer.py, on one row
-- of the frame; the frame's columns and the weights of the settings are arguments. Floats are the
-- values of the parameter `n`, and literals are given in hundredths.
use provenancerank.Prelude.{
  ℕ, Bool, true, false, not, ◌&&◌, ◌||◌, Option, none, some, List, [], ◌∷◌, ◌++◌, if◌then◌else◌,
}
use provenancerank.Floats.{Float, clip}
pub mod Final
mod Tests

module _ (n : Float) where
  open n use {Value, less, same, hundredths, plus, minus, times, over, of_nat}

  -- What `get_settings` gives.
  pub record Weights : Type 0 where
    pub ml_score : Value
    pub retrieval_score : Value
    pub signal_score : Value
    pub rerank : Value
    pub tournament : Value
    pub llm_score : Value

  -- Which of the optional columns the frame has.
  pub record Columns : Type 0 where
    pub rerank_score : Bool
    pub tournament_score : Bool
    pub llm_fit_score : Bool
    pub evidence_confidence_bonus : Bool
    pub gate_passed : Bool

  -- A row; `none` where `to_numeric` coerces a cell to NaN.
  pub record Cells : Type 0 where
    pub ml_fit : Value
    pub retrieval : Value
    pub behavioural_composite : Value
    pub location_fit : Value
    pub availability_score : Value
    pub engagement_score : Value
    pub rerank_score : Option Value
    pub tournament_score : Option Value
    pub llm_fit_score : Option Value
    pub evidence_confidence_bonus : Option Value
    pub gate_passed : Bool
    pub is_honeypot : Value

  -- `.fillna(0.0)`
  pub filled : Option Value → Value
  filled none = hundredths 0
  filled (some v) = v

  abbrev pub unit_clip : Value → Value
  unit_clip = clip n (hundredths 0) (hundredths 100)

  -- What `get_settings` gives for the composite.
  pub record CompositeWeights : Type 0 where
    pub availability : Value
    pub engagement : Value
    pub trust : Value
    pub github : Value

  -- `recompute_behavioural_composite` of the scores of availability, engagement and trust and of the
  -- cell with the GitHub score
  unfoldable pub recompute_behavioural_composite :
      CompositeWeights → Value → Value → Value → Option Value → Value
  recompute_behavioural_composite w availability engagement trust github =
      let gh = over (filled github) (of_nat 100) in
      unit_clip (
        plus
          (plus (plus (times w.availability availability) (times w.engagement engagement))
            (times w.trust trust))
          (times w.github gh))

  -- `availability_multiplier` and `engagement_multiplier`, with their floors
  pub multiplier : Value → Value → Value
  multiplier floor x =
      clip n floor (hundredths 100)
        (plus floor (times (minus (hundredths 100) floor) (unit_clip x)))

  -- `signal_modifier`
  pub signal_modifier : Cells → Value
  signal_modifier row = clip n (hundredths 30) (hundredths 100) (
      times (multiplier (hundredths 45) row.availability_score)
        (multiplier (hundredths 60) row.engagement_score))

  -- An item of `present`, if the column is there and its weight positive: the weight and the cell.
  pub item : Bool → Value → Option Value → List (Value × Value)
  item there w cell = if there && less (hundredths 0) w then (w, filled cell) ∷ [] else []

  -- `present`, with the row's cells
  pub present : Weights → Columns → Cells → List (Value × Value)
  present s columns row =
      item columns.rerank_score s.rerank row.rerank_score
      ++ (item columns.tournament_score s.tournament row.tournament_score
          ++ item columns.llm_fit_score s.llm_score row.llm_fit_score)

  -- `sum(present.values())`, from `total`
  pub sum_weights : Value → List (Value × Value) → Value
  sum_weights total [] = total
  sum_weights total ((w, v) ∷ items) = sum_weights (plus total w) items

  -- The loop of `_head_blend`, from `signal`
  pub sum_signal : Value → List (Value × Value) → Value
  sum_signal signal [] = signal
  sum_signal signal ((w, v) ∷ items) = sum_signal (plus signal (times w (unit_clip v))) items

  -- `_head_blend`, on the items that are present
  pub head_blend : List (Value × Value) → Option (Value × Value)
  head_blend [] = none
  head_blend (i ∷ items) =
      some (sum_signal (hundredths 0) (i ∷ items), sum_weights (hundredths 0) (i ∷ items))

  -- `base = (1.0 - w_head) * base + signal`
  pub blend : Option (Value × Value) → Value → Value
  blend none base = base
  blend (some (signal, w_head)) base = plus (times (minus (hundredths 100) w_head) base) signal

  -- The three weighted scores.
  pub core : Weights → Cells → Value
  core s row =
      plus
        (plus (times s.ml_score (unit_clip row.ml_fit))
          (times s.retrieval_score (unit_clip row.retrieval)))
        (times s.signal_score (unit_clip row.behavioural_composite))

  -- The score before the bonus and the exclusions.
  pub scaled : Weights → Columns → Cells → Value
  scaled s columns row =
      times
        (times (blend (head_blend (present s columns row)) (core s row))
          (plus (hundredths 85) (times (hundredths 15) (unit_clip row.location_fit))))
        (signal_modifier row)

  -- `merge_final_scores`
  pub merge_final_scores : Weights → Columns → Cells → Value
  merge_final_scores s columns row =
      let final = scaled s columns row in
      let final =
        if columns.evidence_confidence_bonus
        then plus final (filled row.evidence_confidence_bonus)
        else final in
      let final = if columns.gate_passed && not row.gate_passed then hundredths 0 else final in
      let final = if same row.is_honeypot (hundredths 100) then hundredths 0 else final in
      unit_clip final
