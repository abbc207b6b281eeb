-- ===== src/Validator.antt =====
-- `validate_submission` of validate_submission.py. The file is what `csv.reader` makes of it: rows of
-- cells. A list of problems stands for the list of messages. `float` of a cell is a parameter: the
-- values, how a text is read, and Python's `<` and `==` on them.
use provenancerank.Prelude.{
  ℕ, zero, suc, ◌+◌, ◌-◌, Bool, true, false, not, ◌&&◌, Option, none, some, List, [], ◌∷◌, ◌++◌,
  leb, ltb, ◌==◌, if◌then◌else◌, length, select,
}
use provenancerank.Text
use provenancerank.Text.{
  member_text, Text, codes, strip, lower, text_ltb, text_eqb, after_prefix, all_digits, read_digits,
  decimal,
}
pub mod Reading
pub mod Loop

-- A Python `int` in the rank column: n, or -(n + 1).
pub data ℤ : Type 0 where
  pos : ℕ → ℤ
  negsuc : ℕ → ℤ

unfoldable pub int_ltb : ℤ → ℤ → Bool
int_ltb (pos m) (pos n) = ltb m n
int_ltb (pos m) (negsuc n) = false
int_ltb (negsuc m) (pos n) = true
int_ltb (negsuc m) (negsuc n) = ltb n m

pub data Problem : Type 0 where
  bad_extension no_stem empty_file bad_header not_utf8 cannot_read : Problem
  row_count bad_columns no_id bad_id duplicate_id rank_range : ℕ → Problem
  duplicate_rank rank_format score_format : ℕ → Problem
  missing_ranks : List ℕ → Problem
  score_increases tie_order : ℤ → ℤ → Problem

-- What opening and reading the file gives: its rows, or those before it turned out not to be UTF-8
-- or not to be readable.
pub data Contents : Type 0 where
  rows_of undecodable unreadable : List (List Text) → Contents

-- `EXPECTED_DATA_ROWS`
abbrev pub expected_data_rows : ℕ
expected_data_rows = 100

-- `DATA_ROW_START`
abbrev pub data_row_start : ℕ
data_row_start = 2

-- `REQUIRED_HEADER`
abbrev pub required_header : List Text
required_header = codes "candidate_id" ∷ codes "rank" ∷ codes "score" ∷ codes "reasoning" ∷ []

-- `float` on texts
pub record FloatReader : Type 1 where
  pub Value : Type 0
  pub parse : Text → Option Value
  pub less : Value → Value → Bool
  pub same : Value → Value → Bool

unfoldable pub member_nat : ℕ → List ℕ → Bool
member_nat n [] = false
member_nat n (m ∷ ms) = if n == m then true else member_nat n ms

abbrev pub is_empty : Text → Bool
is_empty [] = true
is_empty (c ∷ s) = false

-- `CANDIDATE_ID_PATTERN.match`
unfoldable pub is_candidate_id : Text → Bool
unfolding after_prefix all_digits
is_candidate_id s = elim (after_prefix (codes "CAND_") s) [
  | none ↦ false
  | some rest ↦ length rest == 7 && all_digits rest
]

-- `int(rank_s)` where `str` of it is `rank_s` again; any other text is refused
unfoldable pub parse_nat : Text → Option ℕ
unfolding read_digits decimal text_eqb
parse_nat s = let n = read_digits 0 s in if text_eqb (decimal n) s then some n else none

unfoldable pub minus_of : Option ℕ → Option ℤ
minus_of none = none
minus_of (some n) = if n == 0 then none else some (negsuc (n - 1))

unfoldable pub nonneg_of : Option ℕ → Option ℤ
nonneg_of none = none
nonneg_of (some n) = some (pos n)

unfoldable pub parse_int : Text → Option ℤ
parse_int [] = none
parse_int (c ∷ s) = if c == b'-' then minus_of (parse_nat s) else nonneg_of (parse_nat (c ∷ s))

-- The `candidate_id` checks of one row: the ids seen after it, and the problem, if any.
unfoldable pub check_id : ℕ → Text → List Text → List Text × List Problem
check_id row cid seen =
    if is_empty cid
    then (seen, no_id row ∷ [])
    else if not (is_candidate_id cid)
    then (seen, bad_id row ∷ [])
    else if member_text cid seen
    then (seen, duplicate_id row ∷ [])
    else (cid ∷ seen, [])

-- The `rank` checks of one row: the ranks seen after it, the rank if it is a number, and the problem.
pub check_int : ℕ → ℤ → List ℕ → List ℕ × List Problem
unfolding member_nat
check_int row (negsuc n) seen = (seen, rank_range row ∷ [])
check_int row (pos n) seen =
    if not (leb 1 n && leb n 100)
    then (seen, rank_range row ∷ [])
    else if member_nat n seen
    then (seen, duplicate_rank row ∷ [])
    else (n ∷ seen, [])

unfoldable pub check_rank : ℕ → Option ℤ → List ℕ → List ℕ × List Problem
unfolding check_int
check_rank row none seen = (seen, rank_format row ∷ [])
check_rank row (some n) seen = check_int row n seen

-- `range(n, n + count)`
unfoldable pub range_from : ℕ → ℕ → List ℕ
range_from n zero = []
range_from n (suc count) = n ∷ range_from (n + 1) count

-- `missing = set(range(1, 101)) - seen_ranks`, sorted
unfoldable pub missing_problem : List ℕ → List Problem
unfolding range_from member_nat
missing_problem seen = elim (select (λ r. not (member_nat r seen)) (range_from 1 100)) [
  | [] ↦ []
  | r ∷ rs ↦ missing_ranks (r ∷ rs) ∷ []
]

unfoldable pub count_problem : ℕ → List Problem
count_problem n = if n == expected_data_rows then [] else row_count n ∷ []

-- `any(cell.strip() for cell in row)`
unfoldable pub has_text : List Text → Bool
unfolding strip
has_text [] = false
has_text (cell ∷ cells) = if is_empty (strip cell) then has_text cells else true

unfoldable pub header_eqb : List Text → List Text → Bool
unfolding text_eqb
header_eqb [] [] = true
header_eqb [] (t ∷ ts) = false
header_eqb (s ∷ ss) [] = false
header_eqb (s ∷ ss) (t ∷ ts) = text_eqb s t && header_eqb ss ts

unfoldable pub header_problem : List Text → List Problem
unfolding header_eqb
header_problem header = if header_eqb header required_header then [] else bad_header ∷ []

unfoldable pub name_problem : Text → Text → List Problem
unfolding text_eqb lower
name_problem suffix stem =
    if not (text_eqb (lower suffix) (codes ".csv"))
    then bad_extension ∷ []
    else if is_empty stem
    then no_stem ∷ []
    else []

module _ (f : FloatReader) where
  open f use {Value, parse, less, same}

  -- An entry of `by_rank`.
  abbrev pub Entry : Type 0
  Entry = ℤ × (Value × Text)

  -- The variables of the loop over the rows.
  pub record Seen : Type 0 where
    pub ids : List Text
    pub ranks : List ℕ
    pub by_rank : List Entry

  -- `if rank is not None and score is not None and cid`
  unfoldable pub entry_of : Option ℤ → Option Value → Text → List Entry
  entry_of (some r) (some v) (c ∷ s) = (r, (v, c ∷ s)) ∷ []
  entry_of _ _ _ = []

  pub score_problem : ℕ → Option Value → List Problem
  score_problem row none = score_format row ∷ []
  score_problem row (some v) = []

  -- The body of the loop, for the cells of one row.
  unfoldable pub check_row : ℕ → List Text → Seen → Seen × List Problem
  check_row row (c ∷ r ∷ s ∷ reasoning ∷ []) seen =
      let cid = strip c in
      let rank = parse_int (strip r) in
      let score = parse (strip s) in
      let (ids, id_problems) = check_id row cid seen.ids in
      let (ranks, rank_problems) = check_rank row rank seen.ranks in
      (
        record { ids = ids; ranks = ranks; by_rank = seen.by_rank ++ entry_of rank score cid },
        id_problems ++ (rank_problems ++ score_problem row score),
      )
  check_row row _ seen = (seen, bad_columns row ∷ [])

  unfoldable pub check_rows : ℕ → List (List Text) → Seen → Seen × List Problem
  check_rows row [] seen = (seen, [])
  check_rows row (cells ∷ rows) seen =
      let (seen', problems) = check_row row cells seen in
      let (last, more) = check_rows (row + 1) rows seen' in (last, problems ++ more)

  -- `by_rank.sort(key=lambda x: x[0])`, which is stable
  unfoldable pub insert_entry : Entry → List Entry → List Entry
  unfolding int_ltb
  insert_entry x [] = x ∷ []
  insert_entry x (y ∷ ys) = if int_ltb y.0 x.0 then y ∷ insert_entry x ys else x ∷ y ∷ ys

  unfoldable pub sort_entries : List Entry → List Entry
  unfolding insert_entry
  sort_entries [] = []
  sort_entries (x ∷ xs) = insert_entry x (sort_entries xs)

  -- The loop over neighbours that compares scores, after the entry `x`.
  unfoldable pub increases : Entry → List Entry → List Problem
  increases x [] = []
  increases x (y ∷ ys) =
      (if less x.1.0 y.1.0 then score_increases x.0 y.0 ∷ [] else []) ++ increases y ys

  -- The loop over neighbours that compares the ids of equal scores, after the entry `x`.
  unfoldable pub ties : Entry → List Entry → List Problem
  unfolding text_ltb
  ties x [] = []
  ties x (y ∷ ys) =
      (if same x.1.0 y.1.0 && text_ltb y.1.1 x.1.1 then tie_order x.0 y.0 ∷ [] else []) ++ ties y ys

  unfoldable pub order_problems : List Entry → List Problem
  unfolding increases ties
  order_problems [] = []
  order_problems (x ∷ xs) = increases x xs ++ ties x xs

  -- All checks of the data rows.
  unfoldable pub check_data : List (List Text) → List Problem
  check_data rows =
      let (seen, problems) =
        check_rows data_row_start rows (record { ids = []; ranks = []; by_rank = [] }) in
      count_problem (length rows)
      ++ (problems ++ (missing_problem seen.ranks ++ order_problems (sort_entries seen.by_rank)))

  unfoldable pub contents_problems : Contents → List Problem
  contents_problems (rows_of []) = empty_file ∷ []
  contents_problems (rows_of (header ∷ rows)) =
      header_problem header ++ check_data (select has_text rows)
  contents_problems (undecodable []) = not_utf8 ∷ []
  contents_problems (undecodable (header ∷ rows)) = header_problem header ++ not_utf8 ∷ []
  contents_problems (unreadable []) = cannot_read ∷ []
  contents_problems (unreadable (header ∷ rows)) = header_problem header ++ cannot_read ∷ []

  -- `validate_submission`, on a path's suffix and stem and on the file's contents
  unfoldable pub validate_submission : Text → Text → Contents → List Problem
  validate_submission suffix stem contents = name_problem suffix stem ++ contents_problems contents
