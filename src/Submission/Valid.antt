-- ===== src/Submission/Valid.antt =====
-- `write_and_validate` of output/submission_writer.py, from the frame to the validator's verdict.
use provenancerank.Prelude.{
  All-take, ℕ, suc, ◌+◌, ◌≤◌, ◌≡◌, ◌↔◌, refl, ap, ◌∙◌, true, false, List, [], ◌∷◌, ◌++◌, ◌==◌, All,
  arith, inl, inr, Bool-cases, length, map, take, length-take, length-map, select,
}
use Prim.Native.Nat.{min}
use provenancerank.Text.{member_text, Text, codes, text_eqb}
use provenancerank.Text.Spaces.{strip_solid}
use provenancerank.Validator.Reading.{is_candidate_id-IsSolid, is_candidate_id-ne-nil}
use provenancerank.Validator.{
  FloatReader, rows_of, Seen, is_candidate_id, is_empty, has_text, name_problem, header_problem,
  header_eqb, required_header, missing_problem, count_problem, check_data, contents_problems,
  validate_submission,
}
use provenancerank.Submission.{
  Candidate, Work, Row, sort_values, round_score, number_from, cells_of, build_submission,
  write_submission, written, outcome_of, write_and_validate,
}
use provenancerank.Submission.Sorted.{
  Other, Distinct, Sorted, sort_values-Sorted, take-Sorted, sort_values-All, sort_values-Distinct,
  take-Distinct, length-sort_values,
}
use provenancerank.Submission.Accepted.{
  ReadsScores, IsGood, IsNew, pushed, check_rows-numbered, sort_entries-entries,
  order_problems-none,
}

module _ {F : Type 0} (round4 : F → ℕ) where
  -- Every id has the required form, and every score rounds to one between 0 and 1.
  abbrev pub Submittable : List (Candidate F) → Type 0
  Submittable = All (λ c. (is_candidate_id c.candidate_id ≡ true) × (round4 c.final_score ≤ 10000))

  -- The rows that `build_submission` numbers.
  abbrev chosen : ℕ → List (Candidate F) → List Work
  chosen top_k df = take top_k (sort_values (map (round_score round4) df))

  round-IsGood :
      (df : List (Candidate F)) → Submittable df → All IsGood (map (round_score round4) df)
  unfolding round_score
  round-IsGood [] all = tt
  round-IsGood (c ∷ df) ((form, range), all) =
      (record { id_form = form; in_range = range }, round-IsGood df all)

-- No candidate id stands twice.
abbrev pub DistinctIds : {F : Type 0} → List (Candidate F) → Type 0
DistinctIds [] = Unit
DistinctIds (c ∷ df) = All (λ d. text_eqb c.candidate_id d.candidate_id ≡ false) df × DistinctIds df

module _ {F : Type 0} (round4 : F → ℕ) where
  round-Other :
      (s : Text) (df : List (Candidate F))
      → All (λ d. text_eqb s d.candidate_id ≡ false) df
      → All (Other s) (map (round_score round4) df)
  unfolding round_score
  round-Other s [] all = tt
  round-Other s (c ∷ df) (other, all) = (other, round-Other s df all)

  round-Distinct :
      (df : List (Candidate F)) → DistinctIds df → Distinct (map (round_score round4) df)
  unfolding round_score
  round-Distinct [] h = tt
  round-Distinct (c ∷ df) (apart, h) = (round-Other c.candidate_id df apart, round-Distinct df h)

has_text-cells_of : (r : Row) → is_candidate_id r.candidate_id ≡ true → has_text (cells_of r) ≡ true
unfolding cells_of has_text
has_text-cells_of r form =
    rw (strip_solid r.candidate_id (is_candidate_id-IsSolid r.candidate_id form))
      (rw (is_candidate_id-ne-nil r.candidate_id form) refl)

-- No written row is passed over as blank.
select-has_text :
    (n : ℕ) (ws : List Work)
    → All IsGood ws
    → select has_text (map cells_of (number_from n ws)) ≡ map cells_of (number_from n ws)
unfolding number_from
select-has_text n [] good = refl
select-has_text n (w ∷ ws) (here, good) =
    let r : Row = record {
      candidate_id = w.candidate_id;
      rank = n;
      score = w.score;
      reasoning = w.reasoning;
    } in
    rw (has_text-cells_of r here.id_form) (rw (select-has_text (n + 1) ws good) refl)

length-number_from : (n : ℕ) (ws : List Work) → length (number_from n ws) ≡ length ws
unfolding number_from
length-number_from n [] = refl
length-number_from n (w ∷ ws) = ap suc (length-number_from (n + 1) ws)

header_good : header_problem required_header ≡ []
unfolding header_problem header_eqb
header_good = refl

name_good : (stem : Text) → is_empty stem ≡ false → name_problem (codes ".csv") stem ≡ []
unfolding name_problem
name_good stem h = rw h refl

-- The hundred ranks leave none missing.
none_missing :
    (f : FloatReader) (reads : ReadsScores f) → missing_problem (pushed f reads 1 100 []) ≡ []
unfolding missing_problem
none_missing f reads = refl

All-IsNew : (ws : List Work) → All (IsNew []) ws
unfolding member_text
All-IsNew [] = tt
All-IsNew (w ∷ ws) = (refl, All-IsNew ws)

module _ (f : FloatReader) (reads : ReadsScores f) where
  -- The problems of at most a hundred written rows.
  check_data-written :
      (ws : List Work)
      → All IsGood ws
      → Distinct ws
      → Sorted ws
      → length ws ≤ 100
      → check_data f (map cells_of (number_from 1 ws))
        ≡ count_problem (length ws) ++ (missing_problem (pushed f reads 1 (length ws) []) ++ [])
  unfolding check_data
  check_data-written ws good distinct sorted short =
      let empty : Seen f = record { ids = []; ranks = []; by_rank = [] } in
      let (ids, loop) =
        check_rows-numbered f reads 2 1 ws empty good distinct (All-IsNew ws) tt (omega arith)
          (omega arith) in
      rw
        (
          loop,
          sort_entries-entries f reads 1 ws,
          order_problems-none f reads 1 ws good sorted,
          length-map cells_of (number_from 1 ws),
          length-number_from 1 ws,
        )
        refl

  -- The verdict on at most a hundred rows.
  validate-written :
      (stem : Text) (ws : List Work)
      → is_empty stem ≡ false
      → All IsGood ws
      → Distinct ws
      → Sorted ws
      → length ws ≤ 100
      → validate_submission f (codes ".csv") stem (rows_of (write_submission (number_from 1 ws)))
        ≡ count_problem (length ws) ++ (missing_problem (pushed f reads 1 (length ws) []) ++ [])
  unfolding validate_submission contents_problems write_submission
  validate-written stem ws h good distinct sorted short =
      rw (name_good stem h, header_good, select-has_text 1 ws good)
        (check_data-written ws good distinct sorted short)

-- A hundred rows have no problem, and fewer have one.
outcome_of-count :
    (f : FloatReader) (reads : ReadsScores f) (n : ℕ)
    → n ≤ 100
    → (outcome_of (count_problem n ++ (missing_problem (pushed f reads 1 n []) ++ [])) ≡ written)
      ↔ (100 ≤ n)
unfolding outcome_of count_problem
outcome_of-count f reads n short = elim (Bool-cases (n == 100)) [
  | inl full ↦
      let all : n ≡ 100 = ground arith in
      (λ h. omega arith, λ h. rw (all, none_missing f reads) refl)
  | inr other ↦ (λ h. ground arith, λ h. ground arith)
]

-- For a `float` that reads the texts of `.4f` and orders them as the scores, and a frame of
-- candidates with distinct well-formed ids and scores between 0 and 1, writing the
-- top hundred to a path with a stem and the suffix `.csv` is found valid exactly when the frame has
-- at least a hundred candidates, whatever order it comes in and however its rounded scores tie.
pub write_and_validate-written_iff :
    {F : Type 0} (round4 : F → ℕ) (f : FloatReader) (reads : ReadsScores f) (stem : Text)
    (df : List (Candidate F))
    → is_empty stem ≡ false
    → Submittable round4 df
    → DistinctIds df
    → (write_and_validate f (codes ".csv") stem (build_submission round4 100 df) ≡ written)
      ↔ (100 ≤ length df)
unfolding write_and_validate build_submission
write_and_validate-written_iff round4 f reads stem df named submittable distinct =
    let work = map (round_score round4) df in
    let ws = take 100 (sort_values work) in
    let good : All IsGood ws =
      All-take IsGood 100 (sort_values work)
        (sort_values-All IsGood work (round-IsGood round4 df submittable)) in
    let apart : Distinct ws =
      take-Distinct 100 (sort_values work)
        (sort_values-Distinct work (round-Distinct round4 df distinct)) in
    let sorted : Sorted ws = take-Sorted 100 (sort_values work) (sort_values-Sorted work) in
    let size : length (sort_values work) ≡ length df =
      length-sort_values work ∙ length-map (round_score round4) df in
    let taken : length ws ≡ min 100 (length (sort_values work)) =
      length-take 100 (sort_values work) in
    let short : length ws ≤ 100 = omega (arith, taken) in
    rw (validate-written f reads stem ws named good apart sorted short) (
      let (to, from) = outcome_of-count f reads (length ws) short in
      (λ h. omega (arith, taken, size, to h), λ h. from (omega (arith, taken, size))))
