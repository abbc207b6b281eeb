-- ===== src/Tournament.antt =====
-- pipeline/tournament.py: the round robin over the head of the ranking, on the rows of the frame.
use provenancerank.Prelude.{
  ℕ, zero, suc, Bool, false, List, [], ◌∷◌, map, length, select, ltb, ◌==◌, if◌then◌else◌, ◌||◌,
}
use provenancerank.Floats.{Float, of_bool}
use provenancerank.Text.{Text, codes, text_eqb, member_text}
use provenancerank.Retrieval.{enumerate, least_of, greatest_of, tiny}
pub mod Scale
mod Tests

module _ (n : Float) where
  open n use {Value, less, same, hundredths, plus, minus, times, over, of_nat, total, absolute}

  -- `_CRITERIA`
  abbrev pub criteria : List (Text × Value)
  criteria =
      (codes "jd_fit_score", hundredths 26)
      ∷ (codes "rerank_score", hundredths 20)
      ∷ (codes "retrieval_skill_count", hundredths 14)
      ∷ (codes "jd_skill_match_count", hundredths 12)
      ∷ (codes "assessment_mean_score", hundredths 12)
      ∷ (codes "evidence_confidence_bonus", hundredths 5)
      ∷ (codes "has_production_keywords", hundredths 4)
      ∷ (codes "product_company_ratio", hundredths 4)
      ∷ (codes "behavioural_composite", hundredths 3)
      ∷ []

  pub record Contender : Type 0 where
    pub candidate_id : Text
    pub cell : Text → Value

  -- The frame, with the names of its columns.
  pub record Head : Type 0 where
    pub columns : List Text
    pub rows : List Contender

  -- One match, over the criteria from the first on: the share won so far
  unfoldable pub share : List Value → List Value → List Value → Value → Value
  share [] r s won = won
  share (w ∷ ws) [] s won = won
  share (w ∷ ws) (x ∷ r) [] won = won
  share (w ∷ ws) (x ∷ r) (y ∷ s) won = share ws r s (
      plus won
        (times w (plus (of_bool n (less y x)) (times (hundredths 50) (of_bool n (same x y))))))

  -- `_soft_outcomes`
  unfoldable pub soft_outcomes : List (List Value) → List Value → List (List Value)
  soft_outcomes values weights =
      map
        (λ r.
          map (λ s. if r.0 == s.0 then hundredths 0 else share weights r.1 s.1 (hundredths 0))
            (enumerate 0 values))
        (enumerate 0 values)

  -- `inv.sum(axis=1)`, of one row
  unfoldable pub denominator : List Value → ℕ → Value → Value
  denominator p i strength = total (
      map (λ e. if i == e.0 then hundredths 0 else over (of_nat 1) (plus strength e.1))
        (enumerate 0 p))

  -- `new_p` before it is normalised
  unfoldable pub updates : List Value → ℕ → List Value → List Value → List Value
  updates p i [] strengths = []
  updates p i (w ∷ win_totals) [] = []
  updates p i (w ∷ win_totals) (strength ∷ strengths) =
      let denom = denominator p i strength in
      (if less (hundredths 0) denom then over w denom else hundredths 0)
      ∷ updates p (suc i) win_totals strengths

  unfoldable pub normalised : List Value → List Value
  normalised new_p =
      let sum = total new_p in
      if less (hundredths 0) sum then map (λ v. over v sum) new_p else new_p

  unfoldable pub distances : List Value → List Value → List Value
  distances [] qs = []
  distances (p ∷ ps) [] = []
  distances (p ∷ ps) (q ∷ qs) = absolute (minus p q) ∷ distances ps qs

  -- `np.max(np.abs(new_p - p)) < tol`, of at least one strength
  unfoldable pub has_settled : List Value → List Value → Bool
  has_settled new_p p = elim (distances new_p p) [
    | [] ↦ false
    | ◌∷◌ d ds ↦ less (greatest_of n d ds) (over (of_nat 1) (of_nat 10000000000))
  ]

  -- The rounds of `_bradley_terry` that are left
  unfoldable pub rounds : ℕ → List Value → List Value → List Value
  rounds zero win_totals p = p
  rounds (suc iters) win_totals p =
      let new_p = normalised (updates p 0 win_totals p) in
      let next = rounds iters win_totals new_p in if has_settled new_p p then new_p else next

  -- `_bradley_terry`
  unfoldable pub bradley_terry : List (List Value) → List Value
  bradley_terry wins =
      rounds 200 (map total wins) (map (λ w. over (of_nat 1) (of_nat (length wins))) wins)

  -- The pull towards a draw, on one cell
  unfoldable pub pulled : ℕ → ℕ → Value → Value
  pulled i j win =
      let eps = hundredths 2 in
      let draw =
        times (hundredths 50)
          (minus (of_nat 1) (if i == j then hundredths 100 else hundredths 0)) in
      plus (times (minus (of_nat 1) eps) win) (times eps draw)

  unfoldable pub pull : List (List Value) → List (List Value)
  pull wins = map (λ r. map (λ c. pulled r.0 c.0 c.1) (enumerate 0 r.1)) (enumerate 0 wins)

  -- The strengths between the least and the greatest
  unfoldable pub spread_out : List Value → List Value
  spread_out [] = []
  spread_out (v ∷ vs) =
      let lo = least_of n v vs in
      let hi = greatest_of n v vs in
      if less (tiny n) (minus hi lo)
      then map (λ x. over (minus x lo) (minus hi lo)) (v ∷ vs)
      else map (λ x. hundredths 0) (v ∷ vs)

  unfoldable pub zip_ids : List Contender → List Value → List (Text × Value)
  zip_ids [] vs = []
  zip_ids (r ∷ rs) [] = []
  zip_ids (r ∷ rs) (v ∷ vs) = (r.candidate_id, v) ∷ zip_ids rs vs

  -- The criteria whose columns the frame has
  unfoldable pub present_criteria : List Text → List (Text × Value)
  present_criteria columns = select (λ c. member_text c.0 columns) criteria

  unfoldable pub strengths_of : List (List Value) → List Value → List Value
  strengths_of values weights =
      let sum = total weights in
      spread_out (bradley_terry (pull (soft_outcomes values (map (λ w. over w sum) weights))))

  -- `run_tournament`, of rows with distinct ids
  unfoldable pub run_tournament : Head → List (Text × Value)
  run_tournament df_head =
      let cols = present_criteria df_head.columns in
      let values = map (λ r. map (λ c. r.cell c.0) cols) df_head.rows in
      if ltb (length df_head.rows) 2 || length cols == 0
      then map (λ r. (r.candidate_id, hundredths 0)) df_head.rows
      else zip_ids df_head.rows (strengths_of values (map (λ c. c.1) cols))
