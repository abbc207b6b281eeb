-- ===== src/Validator/Loop.antt =====
-- The loop of validate_submission.py over rows that are as they should be.
use provenancerank.Prelude.{
  ℕ, ◌≤◌, ◌≡◌, refl, true, false, some, List, [], ◌∷◌, ◌++◌, arith, le→leb,
}
use provenancerank.Text.{member_text, Text, strip, decimal}
use provenancerank.Text.Spaces.{strip_solid}
use provenancerank.Validator.Reading.{
  parse_int-decimal, is_candidate_id-IsSolid, is_candidate_id-ne-nil,
}
use provenancerank.Validator.{
  ℤ, pos, FloatReader, Seen, member_nat, is_candidate_id, is_empty, check_id, check_rank, check_row,
  entry_of, score_problem, check_int,
}

check_id_new :
    (row : ℕ) (cid : Text) (seen : List Text)
    → is_candidate_id cid ≡ true
    → member_text cid seen ≡ false
    → check_id row cid seen ≡ (cid ∷ seen, [])
unfolding check_id
check_id_new row cid seen good new = rw (is_candidate_id-ne-nil cid good) (rw good (rw new refl))

check_rank_new :
    (row n : ℕ) (seen : List ℕ)
    → 1 ≤ n
    → n ≤ 100
    → member_nat n seen ≡ false
    → check_rank row (some (pos n)) seen ≡ (n ∷ seen, [])
unfolding check_rank check_int
check_rank_new row n seen low high new = rw (le→leb 1 n low) (rw (le→leb n 100 high) (rw new refl))

module _ (f : FloatReader) where
  open f use {Value, parse}

  entry_of_id :
      (r : ℤ) (v : Value) (cid : Text)
      → is_empty cid ≡ false
      → entry_of f (some r) (some v) cid ≡ (r, (v, cid)) ∷ []
  unfolding entry_of
  entry_of_id r v [] h = ground arith
  entry_of_id r v (c ∷ s) h = refl

  -- A row with a new id of the right form, a new rank within the range and a score that is read
  -- gives no problem and one entry.
  pub check_row_new :
      (row n : ℕ) (cid s reasoning : Text) (v : Value) (seen : Seen f)
      → is_candidate_id cid ≡ true
      → member_text cid seen.ids ≡ false
      → 1 ≤ n
      → n ≤ 100
      → member_nat n seen.ranks ≡ false
      → parse (strip s) ≡ some v
      → check_row f row (cid ∷ decimal n ∷ s ∷ reasoning ∷ []) seen ≡ (
        record {
          ids = cid ∷ seen.ids;
          ranks = n ∷ seen.ranks;
          by_rank = seen.by_rank ++ (pos n, (v, cid)) ∷ [];
        },
        [],
      )
  unfolding check_row entry_of score_problem
  check_row_new row n cid s reasoning v seen good new low high rank_new reads =
      rw (strip_solid cid (is_candidate_id-IsSolid cid good)) (
        rw (parse_int-decimal n) (
          rw reads (
            rw (check_id_new row cid seen.ids good new) (
              rw (check_rank_new row n seen.ranks low high rank_new)
                (rw (entry_of_id (pos n) v cid (is_candidate_id-ne-nil cid good)) refl)))))
