-- ===== src/Submission/Accepted.antt =====
-- The checks of validate_submission.py on the rows that output/submission_writer.py writes.
use mathlib.Core.List.{append-nil, append_assoc}
use provenancerank.Prelude.{
  ℕ, zero, suc, ◌+◌, ◌≤◌, ◌<◌, ◌≡◌, refl, true, false, some, List, [], ◌∷◌, ◌++◌, ltb, ◌==◌, All,
  arith, length, map,
}
use provenancerank.Text.{member_text, Text, strip, format4, squeeze}
use provenancerank.Text.Spaces.{strip_solid, format4-IsSolid}
use provenancerank.Text.Order.{text_eqb_sym}
use provenancerank.Validator.{
  pos, FloatReader, Entry, Seen, member_nat, is_candidate_id, check_row, check_rows, insert_entry,
  sort_entries, increases, ties, order_problems,
}
use provenancerank.Validator.Loop.{check_row_new}
use provenancerank.Submission.{before, Work, Row, number_from, cells_of}
use provenancerank.Submission.Sorted.{Other, Distinct, InOrder, Sorted}

-- What `float` does with the texts that `.4f` prints for scores between 0 and 1: each is read, and
-- the values compare as the scores do.
pub record ReadsScores (f : FloatReader) : Type 0 where
  pub value : ℕ → f.Value
  pub parse_format4 : (u : ℕ) → u ≤ 10000 → f.parse (format4 u) ≡ some (value u)
  pub less_value : (a b : ℕ) → a ≤ 10000 → b ≤ 10000 → f.less (value a) (value b) ≡ ltb a b
  pub same_value : (a b : ℕ) → a ≤ 10000 → b ≤ 10000 → f.same (value a) (value b) ≡ (a == b)

-- A row that can be submitted.
pub record IsGood (w : Work) : Type 0 where
  pub id_form : is_candidate_id w.candidate_id ≡ true
  pub in_range : w.score ≤ 10000

-- The row's id is not among those.
abbrev pub IsNew : List Text → Work → Type 0
IsNew ids w = member_text w.candidate_id ids ≡ false

module _ (f : FloatReader) (reads : ReadsScores f) where
  abbrev pub entries : ℕ → List Work → List (Entry f)
  entries n [] = []
  entries n (w ∷ ws) = (pos n, (reads.value w.score, w.candidate_id)) ∷ entries (n + 1) ws

  abbrev pub pushed : ℕ → ℕ → List ℕ → List ℕ
  pushed n zero ranks = ranks
  pushed n (suc k) ranks = pushed (n + 1) k (n ∷ ranks)

  rank_new : (n : ℕ) (ranks : List ℕ) → All (λ r. r < n) ranks → member_nat n ranks ≡ false
  unfolding member_nat
  rank_new n [] h = refl
  rank_new n (r ∷ ranks) h = ground (arith, rank_new n ranks h.1)

  ranks_grow : (n : ℕ) (ranks : List ℕ) → All (λ r. r < n) ranks → All (λ r. r < n + 1) ranks
  ranks_grow n [] h = tt
  ranks_grow n (r ∷ ranks) h = (omega arith, ranks_grow n ranks h.1)

  ids_grow :
      (cid : Text) (ids : List Text) (ws : List Work)
      → All (Other cid) ws
      → All (IsNew ids) ws
      → All (IsNew (cid ∷ ids)) ws
  unfolding member_text
  ids_grow cid ids [] apart new = tt
  ids_grow cid ids (w ∷ ws) (other, apart) (here, new) =
      (rw (text_eqb_sym w.candidate_id cid) (rw other here), ids_grow cid ids ws apart new)

  check_row_written :
      (row n : ℕ) (w : Work) (seen : Seen f)
      → IsGood w
      → IsNew seen.ids w
      → All (λ r. r < n) seen.ranks
      → 1 ≤ n
      → n ≤ 100
      → let r : Row = record {
        candidate_id = w.candidate_id;
        rank = n;
        score = w.score;
        reasoning = w.reasoning;
      } in
        check_row f row (cells_of r) seen ≡ (
          record {
            ids = w.candidate_id ∷ seen.ids;
            ranks = n ∷ seen.ranks;
            by_rank = seen.by_rank ++ (pos n, (reads.value w.score, w.candidate_id)) ∷ [];
          },
          [],
        )
  unfolding cells_of
  check_row_written row n w seen good new below low high =
      let read : f.parse (strip (format4 w.score)) ≡ some (reads.value w.score) =
        rw (strip_solid (format4 w.score) (format4-IsSolid w.score))
          (reads.parse_format4 w.score good.in_range) in
      check_row_new f row n w.candidate_id (format4 w.score) (squeeze false false w.reasoning)
        (reads.value w.score) seen good.id_form new low high (rank_new n seen.ranks below) read

  -- The loop over rows that are numbered on from `n` finds no problem, and collects their entries.
  pub check_rows-numbered :
      (row n : ℕ) (ws : List Work) (seen : Seen f)
      → All IsGood ws
      → Distinct ws
      → All (IsNew seen.ids) ws
      → All (λ r. r < n) seen.ranks
      → 1 ≤ n
      → n + length ws ≤ 101
      → (ids : List Text) × (check_rows f row (map cells_of (number_from n ws)) seen ≡ (
        record {
          ids = ids;
          ranks = pushed n (length ws) seen.ranks;
          by_rank = seen.by_rank ++ entries n ws;
        },
        [],
      ))
  unfolding check_rows number_from
  check_rows-numbered row n [] seen good distinct new below low high =
      (seen.ids, rw append-nil refl)
  check_rows-numbered row n (w ∷ ws) seen (good, goods) (apart, distinct) (new, news) below low
        high =
      let entry : Entry f = (pos n, (reads.value w.score, w.candidate_id)) in
      let seen' : Seen f = record {
        ids = w.candidate_id ∷ seen.ids;
        ranks = n ∷ seen.ranks;
        by_rank = seen.by_rank ++ entry ∷ [];
      } in
      let (ids, rest) =
        check_rows-numbered (row + 1) (n + 1) ws seen' goods distinct
          (ids_grow w.candidate_id seen.ids ws apart news)
          (omega arith, ranks_grow n seen.ranks below) (omega arith) (omega arith) in
      let here = check_row_written row n w seen good new below low (omega arith) in
      (ids, rw here (rw rest (rw append_assoc refl)))

  insert_entry_front :
      (n : ℕ) (x : f.Value × Text) (ws : List Work)
      → insert_entry f (pos n, x) (entries (n + 1) ws) ≡ (pos n, x) ∷ entries (n + 1) ws
  unfolding insert_entry
  insert_entry_front n x [] = refl
  insert_entry_front n x (w ∷ ws) = ground arith

  -- The entries come in the order of their ranks.
  pub sort_entries-entries : (n : ℕ) (ws : List Work) → sort_entries f (entries n ws) ≡ entries n ws
  unfolding sort_entries
  sort_entries-entries n [] = refl
  sort_entries-entries n (w ∷ ws) =
      rw (sort_entries-entries (n + 1) ws)
        (insert_entry_front n (reads.value w.score, w.candidate_id) ws)

  increases-none :
      (n : ℕ) (w : Work) (ws : List Work)
      → IsGood w
      → All IsGood ws
      → InOrder w ws
      → increases f (pos n, (reads.value w.score, w.candidate_id)) (entries (n + 1) ws) ≡ []
  unfolding increases before
  increases-none n w [] good goods order = refl
  increases-none n w (y ∷ ys) good (good_y, goods) (step, order) =
      rw (reads.less_value w.score y.score good.in_range good_y.in_range)
        (ground (arith, increases-none (n + 1) y ys good_y goods order))

  ties-none :
      (n : ℕ) (w : Work) (ws : List Work)
      → IsGood w
      → All IsGood ws
      → InOrder w ws
      → ties f (pos n, (reads.value w.score, w.candidate_id)) (entries (n + 1) ws) ≡ []
  unfolding ties before
  ties-none n w [] good goods order = refl
  ties-none n w (y ∷ ys) good (good_y, goods) (step, order) =
      rw (reads.same_value w.score y.score good.in_range good_y.in_range)
        (ground (arith, ties-none (n + 1) y ys good_y goods order))

  pub order_problems-none :
      (n : ℕ) (ws : List Work) → All IsGood ws → Sorted ws → order_problems f (entries n ws) ≡ []
  unfolding order_problems
  order_problems-none n [] goods order = refl
  order_problems-none n (w ∷ ws) (good, goods) order =
      rw (increases-none n w ws good goods order) (ties-none n w ws good goods order)
