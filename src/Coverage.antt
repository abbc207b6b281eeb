-- ===== src/Coverage.antt =====
-- pipeline/loop_agent.py: the loop that widens the pool until every dimension is covered. The floats
-- are the values of the parameter `n`, with the operations that the loop uses; literals are given
-- in hundredths. A frame without the column `gate_passed` is one where it is true of every row.
use provenancerank.Prelude.{
  ℕ, zero, suc, ◌+◌, Bool, true, false, not, ◌&&◌, ◌||◌, Option, none, some, List, [], ◌∷◌, ◌++◌,
  map, length, select, leb, ltb, ◌==◌, if◌then◌else◌, count_by,
}
use provenancerank.Floats.{Float}
use provenancerank.Text.{Text}
use provenancerank.Text.{member_text}
pub mod Rounds
pub mod Pool
mod Tests

-- The keys of `COVERAGE_DIMS`.
pub data Dimension : Type 0 where
  retrieval_experience llm_experience production_evidence product_company available : Dimension

-- `exit_reason`, empty at first.
pub data ExitReason : Type 0 where
  no_exit max_iterations confident : ExitReason

module _ (n : Float) where
  open n use {Value, less, geq, hundredths, plus, minus, ratio, round3}

  -- The columns that the loop reads.
  pub record Features : Type 0 where
    pub candidate_id : Text
    pub jd_fit_score : Value
    pub retrieval_skill_count : Value
    pub llm_skill_count : Value
    pub has_production_keywords : Value
    pub product_company_ratio : Value
    pub availability_score : Value
    pub gate_passed : Bool

  -- What `get_settings` gives.
  pub record Settings : Type 0 where
    pub top_k : ℕ
    pub max_loop_iterations : ℕ
    pub confidence_threshold : Value
    pub coverage_gap_threshold : Value

  pub record Round : Type 0 where
    pub iteration : ℕ
    pub pool_size : ℕ
    pub min_coverage : Value
    pub gaps : List Dimension

  pub record LoopState : Type 0 where
    pub candidates_pool : List Text
    pub coverage_scores : List (Dimension × Value)
    pub gaps : List Dimension
    pub iteration : ℕ
    pub max_iterations : ℕ
    pub confidence_threshold : Value
    pub gap_threshold : Value
    pub threshold_relaxation : Value
    pub exit_reason : ExitReason
    pub history : List Round

  -- `COVERAGE_DIMS`
  pub covers : Dimension → Features → Bool
  covers retrieval_experience d = less (hundredths 0) d.retrieval_skill_count
  covers llm_experience d = less (hundredths 0) d.llm_skill_count
  covers production_evidence d = less (hundredths 0) d.has_production_keywords
  covers product_company d = less (hundredths 50) d.product_company_ratio
  covers available d = less (hundredths 30) d.availability_score

  abbrev pub dimensions : List Dimension
  dimensions =
      retrieval_experience ∷ llm_experience ∷ production_evidence ∷ product_company ∷ available ∷ []

  -- `max(target, 1)`
  at_least_one : ℕ → ℕ
  at_least_one target = if ltb target 1 then 1 else target

  -- `min(x, 1.0)`
  at_most_one : Value → Value
  at_most_one x = if less (hundredths 100) x then hundredths 100 else x

  -- `_coverage`
  pub coverage : List Features → ℕ → List (Dimension × Value)
  coverage pool target =
      map (λ d. (d, at_most_one (ratio (count_by (covers d) pool) (at_least_one target))))
        dimensions

  -- `plan`
  pub plan : LoopState → List Dimension
  plan state = map (λ e. e.0) (select (λ e. less e.1 state.gap_threshold) state.coverage_scores)

  -- `max(base_fit - state.threshold_relaxation, 0.0)`
  pub min_fit : LoopState → Value → Value
  min_fit state base_fit =
      let x = minus base_fit state.threshold_relaxation in
      if less x (hundredths 0) then hundredths 0 else x

  -- The mask of `retrieve`.
  pub keeps : Value → Features → Bool
  keeps fit r =
      r.gate_passed
      && (geq r.jd_fit_score fit
          || less (hundredths 0) r.retrieval_skill_count
          || less (hundredths 0) r.llm_skill_count)

  -- `retrieve`
  pub retrieve : LoopState → List Features → Value → List Text
  retrieve state df base_fit =
      map (λ r. r.candidate_id) (select (keeps (min_fit state base_fit)) df)

  -- `min`, keeping the first of the least
  least : Value → List Value → Value
  least best [] = best
  least best (v ∷ vs) = least (if less v best then v else best) vs

  -- `min(state.coverage_scores.values(), default=0)`
  pub min_coverage : List (Dimension × Value) → Value
  min_coverage [] = hundredths 0
  min_coverage ((d, v) ∷ scores) = least v (map (λ e. e.1) scores)

  -- `reflect`
  pub reflect : LoopState → List Text → List Features → ℕ → LoopState
  reflect state pool_ids df target =
      let scores = coverage (select (λ r. member_text r.candidate_id pool_ids) df) target in
      let gaps = plan (record state { coverage_scores = scores }) in
      record state {
        candidates_pool = pool_ids;
        coverage_scores = scores;
        gaps = gaps;
        history =
            state.history
            ++ record {
              iteration = state.iteration;
              pool_size = length pool_ids;
              min_coverage = round3 (min_coverage scores);
              gaps = gaps;
            }
              ∷ [];
      }

  -- `should_continue`, with the state that it leaves
  pub should_continue : LoopState → LoopState × Bool
  should_continue state =
      if leb state.max_iterations state.iteration
      then (record state { exit_reason = max_iterations }, false)
      else if geq (min_coverage state.coverage_scores) state.confidence_threshold
      then (record state { exit_reason = confident }, false)
      else (state, true)

  -- `retrieve` and `reflect`
  pub look : List Features → ℕ → Value → LoopState → LoopState
  look df target base_fit state = reflect state (retrieve state df base_fit) df target

  -- The body of the `while` loop.
  pub widen : List Features → ℕ → Value → LoopState → LoopState
  widen df target base_fit state = look df target base_fit (record state {
    iteration = state.iteration + 1;
    threshold_relaxation = plus state.threshold_relaxation (hundredths 15);
  })

  -- The `while` loop, for at most as many tests of its condition as the fuel.
  pub loop : ℕ → List Features → ℕ → Value → LoopState → LoopState
  loop zero df target base_fit state = state
  loop (suc fuel) df target base_fit state =
      let (state', on) = should_continue state in
      let rest = loop fuel df target base_fit (widen df target base_fit state') in
      if on then rest else state'

  -- `target or s.top_k`
  pub target_of : Option ℕ → Settings → ℕ
  target_of none s = s.top_k
  target_of (some target) s = if target == 0 then s.top_k else target

  pub first : Settings → LoopState
  first s = record {
    candidates_pool = [];
    coverage_scores = [];
    gaps = [];
    iteration = 0;
    max_iterations = s.max_loop_iterations;
    confidence_threshold = s.confidence_threshold;
    gap_threshold = s.coverage_gap_threshold;
    threshold_relaxation = hundredths 0;
    exit_reason = no_exit;
    history = [];
  }

  -- `run_loop`: a round more than the iterations allowed is fuel enough.
  pub run_loop : Settings → List Features → Option ℕ → Value → List Text × LoopState
  run_loop s df target base_fit =
      let t = target_of target s in
      let state = loop (s.max_loop_iterations + 1) df t base_fit (look df t base_fit (first s)) in
      (state.candidates_pool, state)
