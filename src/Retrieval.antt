-- ===== src/Retrieval.antt =====
-- pipeline/retrieval.py: the fusion of the two retrieval scores of each candidate. Scores are floats
-- without NaN.
use provenancerank.Prelude.{
  ℕ, zero, suc, ◌+◌, Bool, Option, none, some, List, [], ◌∷◌, map, length, sort_by, ltb, ◌==◌,
  if◌then◌else◌,
}
use provenancerank.Floats.{Float, min_of, max_of}
use provenancerank.Text.{Text, text_eqb}
pub mod Order
pub mod Places
pub mod Lengths
mod Tests

-- `enumerate(xs)`
unfoldable pub enumerate {ℓ} : {A : Type ℓ} → ℕ → List A → List (ℕ × A)
enumerate i [] = []
enumerate i (x ∷ xs) = (i, x) ∷ enumerate (i + 1) xs

-- Where an index stands in `order`
unfoldable pub place_of : ℕ → List ℕ → ℕ
place_of i [] = 0
place_of i (j ∷ order) = let later = place_of i order in if i == j then 0 else suc later

module _ (n : Float) where
  open n use {Value, less, hundredths, plus, minus, over, of_nat, single}

  -- `np.argsort(-scores, kind="stable")`
  unfoldable pub descending : List Value → List ℕ
  descending scores = map (λ e. e.0) (sort_by (λ y x. less x.1 y.1) (enumerate 0 scores))

  -- `_ranks`
  unfoldable pub ranks : List Value → List ℕ
  ranks scores = map (λ e. place_of e.0 (descending scores)) (enumerate 0 scores)

  unfoldable pub least_of : Value → List Value → Value
  least_of v [] = v
  least_of v (w ∷ ws) = least_of (min_of n v w) ws

  unfoldable pub greatest_of : Value → List Value → Value
  greatest_of v [] = v
  greatest_of v (w ∷ ws) = greatest_of (max_of n v w) ws

  -- The literal `1e-12`
  abbrev pub tiny : Value
  tiny = over (of_nat 1) (of_nat 1000000000000)

  -- `_minmax`; of no scores, which `fuse_rrf` has answered before, it would raise
  unfoldable pub minmax : List Value → List Value
  minmax [] = []
  minmax (v ∷ vs) =
      let lo = least_of v vs in
      let hi = greatest_of v vs in
      if less (minus hi lo) tiny
      then map (λ x. hundredths 0) (v ∷ vs)
      else map (λ x. over (minus x lo) (minus hi lo)) (v ∷ vs)

  -- `np.where(scores > 0, 1.0 / (k + 1 + ranks), 0.0)`
  unfoldable pub contributions : ℕ → List Value → List ℕ → List Value
  contributions k [] rs = []
  contributions k (v ∷ vs) [] = []
  contributions k (v ∷ vs) (r ∷ rs) =
      (if less (hundredths 0) v then over (hundredths 100) (of_nat (k + 1 + r)) else hundredths 0)
      ∷ contributions k vs rs

  -- The sum of two arrays of one length
  unfoldable pub add_arrays : List Value → List Value → List Value
  add_arrays [] ys = []
  add_arrays (x ∷ xs) [] = []
  add_arrays (x ∷ xs) (y ∷ ys) = plus x y ∷ add_arrays xs ys

  -- `fuse_rrf`; `none` where adding the arrays raises. Callers give two arrays of one length: of others,
  -- the model has `none` also where one array has length 1 and would be broadcast
  unfoldable pub fuse_rrf : ℕ → List Value → List Value → Option (List Value)
  fuse_rrf k [] cosine = some []
  fuse_rrf k (b ∷ bm25) cosine =
      if length (b ∷ bm25) == length cosine
      then some (
          map single (
            minmax (
              add_arrays (contributions k (b ∷ bm25) (ranks (b ∷ bm25)))
                (contributions k cosine (ranks cosine)))))
      else none

  -- `scores[cid] += 1.0 / (k + rank + 1)`
  unfoldable pub credit : Text → Value → List (Text × Value) → List (Text × Value)
  unfolding text_eqb
  credit cid v [] = (cid, plus (hundredths 0) v) ∷ []
  credit cid v ((c, w) ∷ scores) =
      let rest = credit cid v scores in
      if text_eqb cid c then (c, plus w v) ∷ scores else (c, w) ∷ rest

  -- The inner loop of `reciprocal_rank_fusion`
  unfoldable pub credit_ranking : ℕ → ℕ → List Text → List (Text × Value) → List (Text × Value)
  credit_ranking k rank [] scores = scores
  credit_ranking k rank (cid ∷ ranking) scores =
      credit_ranking k (rank + 1) ranking
        (credit cid (over (hundredths 100) (of_nat (k + rank + 1))) scores)

  unfoldable pub fuse_rankings : ℕ → List (List Text) → List (Text × Value) → List (Text × Value)
  fuse_rankings k [] scores = scores
  fuse_rankings k (ranking ∷ rankings) scores =
      fuse_rankings k rankings (credit_ranking k 0 ranking scores)

  -- `reciprocal_rank_fusion`
  unfoldable pub reciprocal_rank_fusion : List (List Text) → ℕ → List (Text × Value)
  reciprocal_rank_fusion rankings k = fuse_rankings k rankings []
