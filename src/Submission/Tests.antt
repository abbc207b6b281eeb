-- ===== src/Submission/Tests.antt =====
-- The submission of output/submission_writer.py on concrete input. Scores are given in
-- ten-thousandths.
use provenancerank.Prelude.{
  sort_by, insert_by, ℕ, ◌≤◌, ◌≡◌, ◌↔◌, refl, ap, some, List, [], ◌∷◌, ltb, ◌==◌, length, arith,
}
use provenancerank.Text.{codes, read_digits, text_ltb, text_eqb}
use provenancerank.Text.Decimal.{read_digits-format4}
use provenancerank.Validator.{FloatReader, is_candidate_id}
use provenancerank.Submission.{
  Candidate, round_score, number_from, sort_values, before, build_submission, written,
  write_and_validate,
}
use provenancerank.Submission.Accepted.{ReadsScores}
use provenancerank.Submission.Valid.{write_and_validate-written_iff}

-- A reader that takes a decimal for its number of ten-thousandths.
abbrev reader : FloatReader
reader = record { Value = ℕ; parse = λ s. some (read_digits 0 s); less = ltb; same = λ a b. a == b }

reader-ReadsScores : ReadsScores reader
reader-ReadsScores = record {
  value = λ u. u;
  parse_format4 = λ u h. ap some (read_digits-format4 u);
  less_value = λ a b h h'. refl;
  same_value = λ a b h h'. refl;
}

abbrev frame : List (Candidate ℕ)
frame =
    record { candidate_id = codes "CAND_0000007"; final_score = 5000; reasoning = codes "a  b" }
    ∷ record { candidate_id = codes "CAND_0000003"; final_score = 9123; reasoning = codes "c" }
    ∷ record { candidate_id = codes "CAND_0000002"; final_score = 5000; reasoning = codes "d" }
    ∷ []

top_two :
    build_submission (λ u. u) 2 frame
    ≡ record { candidate_id = codes "CAND_0000003"; rank = 1; score = 9123; reasoning = codes "c" }
      ∷ record {
        candidate_id = codes "CAND_0000002";
        rank = 2;
        score = 5000;
        reasoning = codes "d";
      }
      ∷ []
unfolding build_submission round_score number_from sort_values sort_by insert_by before text_ltb
top_two = refl

write_and_validate-written_iff_example :
    (write_and_validate reader (codes ".csv") (codes "team") (build_submission (λ u. u) 100 frame)
      ≡ written)
    ↔ (100 ≤ length frame)
write_and_validate-written_iff_example =
    write_and_validate-written_iff (λ u. u) reader reader-ReadsScores (codes "team") frame refl
      (unfold is_candidate_id in
        ((refl, omega arith), ((refl, omega arith), ((refl, omega arith), tt))))
      (unfold text_eqb in ((refl, (refl, tt)), ((refl, tt), (tt, tt))))
