-- ===== src/Submission.antt =====
-- output/submission_writer.py: the frame of the top candidates and the rows of its CSV file. A score
-- that is rounded to 4 places is its number of ten-thousandths, by the parameter `round4`; the
-- final scores lie between 0 and 1. Rows of cells stand for the file: `csv.reader` gives back the
-- cells that `csv.writer` wrote.
use provenancerank.Prelude.{
  ℕ, zero, suc, ◌+◌, Bool, true, false, ◌&&◌, ◌||◌, List, [], ◌∷◌, ltb, ◌==◌, if◌then◌else◌, map,
  take, sort_by,
}
use provenancerank.Text.{Text, text_ltb, decimal, format4, squeeze, codes}
use provenancerank.Validator.{FloatReader, Problem, rows_of, required_header, validate_submission}
pub mod Sorted
pub mod Accepted
pub mod Valid
mod Tests

-- The columns of the frame that `build_submission` reads.
pub record Candidate (F : Type 0) : Type 0 where
  pub candidate_id : Text
  pub final_score : F
  pub reasoning : Text

-- A row of `work`, with its rounded score.
pub record Work : Type 0 where
  pub candidate_id : Text
  pub score : ℕ
  pub reasoning : Text

-- A row of the submission.
pub record Row : Type 0 where
  pub candidate_id : Text
  pub rank : ℕ
  pub score : ℕ
  pub reasoning : Text

-- The order of `sort_values(["score", "candidate_id"], ascending=[False, True])`
unfoldable pub before : Work → Work → Bool
unfolding text_ltb
before x y = ltb y.score x.score || (x.score == y.score && text_ltb x.candidate_id y.candidate_id)

-- `sort_values`
unfoldable pub sort_values : List Work → List Work
sort_values = sort_by before

unfoldable pub round_score : {F : Type 0} → (F → ℕ) → Candidate F → Work
round_score round4 c = record {
  candidate_id = c.candidate_id;
  score = round4 c.final_score;
  reasoning = c.reasoning;
}

-- `work["rank"] = range(1, len(work) + 1)`
unfoldable pub number_from : ℕ → List Work → List Row
number_from n [] = []
number_from n (x ∷ xs) =
    record { candidate_id = x.candidate_id; rank = n; score = x.score; reasoning = x.reasoning }
    ∷ number_from (n + 1) xs

unfoldable pub build_submission : {F : Type 0} → (F → ℕ) → ℕ → List (Candidate F) → List Row
build_submission round4 top_k df =
    number_from 1 (take top_k (sort_values (map (round_score round4) df)))

-- The cells of one written row.
unfoldable pub cells_of : Row → List Text
cells_of r =
    r.candidate_id ∷ decimal r.rank ∷ format4 r.score ∷ squeeze false false r.reasoning ∷ []

-- `write_submission`: the rows of the file
unfoldable pub write_submission : List Row → List (List Text)
write_submission rows = required_header ∷ map cells_of rows

-- What `write_and_validate` does: it returns, or raises with the validator's problems.
pub data Outcome : Type 0 where
  written : Outcome
  invalid : List Problem → Outcome

unfoldable pub outcome_of : List Problem → Outcome
outcome_of [] = written
outcome_of (p ∷ ps) = invalid (p ∷ ps)

-- `write_and_validate`, to a path with this suffix and stem
unfoldable pub write_and_validate : FloatReader → Text → Text → List Row → Outcome
write_and_validate f suffix stem rows =
    outcome_of (validate_submission f suffix stem (rows_of (write_submission rows)))
