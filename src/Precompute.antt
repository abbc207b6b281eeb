-- ===== src/Precompute.antt =====
-- precompute.py: the head of the matrix that the accuracy layer looks at, and the columns that it
-- writes for it. `np.argsort`, minus infinity and `np.isfinite` are parameters, as are the reranker,
-- the tournament's and the language model's answers; a stage that raises is `none`.
use provenancerank.Prelude.{
  ℕ, zero, suc, Bool, true, false, not, ◌&&◌, ◌||◌, Option, none, some, List, [], ◌∷◌, map, length,
  take, count_by, any, ltb, ◌==◌, if◌then◌else◌,
}
use mathlib.Core.List.{reverse}
use provenancerank.Floats.{Float}
use provenancerank.Text.{Text, text_eqb}
use provenancerank.Bm25.{item_or}
use provenancerank.Retrieval.{enumerate}
use provenancerank.Frames.{FrameRow, Frame}
use provenancerank.Predictor.{create_proxy_labels}
pub mod Order
pub mod Head
mod Tests

module _ (n : Float) (from_iso : Text → Option ℕ) where
  open n use {Value, less, same, hundredths, plus, times}

  -- What NumPy gives.
  pub record Numpy : Type 0 where
    pub neg_inf : Value
    pub is_finite : Value → Bool
    pub argsort : List Value → List ℕ

  -- Why a row is pushed to the bottom, in a frame with this column of gates or without
  unfoldable pub is_masked : Bool → FrameRow n from_iso → Bool
  is_masked has_gates r =
      (has_gates && not r.gate_passed) || same r.features.is_honeypot (hundredths 100)

  -- `0.6 * prov + 0.4 * df["retrieval_score"]`
  unfoldable pub with_retrieval : List (FrameRow n from_iso) → List Value → List Value
  with_retrieval [] prov = []
  with_retrieval (r ∷ rows) [] = []
  with_retrieval (r ∷ rows) (p ∷ prov) =
      plus (times (hundredths 60) p) (times (hundredths 40) r.retrieval_score)
      ∷ with_retrieval rows prov

  -- `np.where(masked, -np.inf, prov)`
  unfoldable pub masked_scores : Numpy → Bool → List (FrameRow n from_iso) → List Value → List Value
  masked_scores np has_gates [] prov = []
  masked_scores np has_gates (r ∷ rows) [] = []
  masked_scores np has_gates (r ∷ rows) (p ∷ prov) =
      (if is_masked has_gates r then np.neg_inf else p) ∷ masked_scores np has_gates rows prov

  unfoldable pub provisional_scores : Numpy → Frame n from_iso → List Value
  provisional_scores np df =
      let prov = create_proxy_labels n from_iso df in
      let blended = with_retrieval df.rows prov in
      masked_scores np df.columns.gate_passed df.rows
        (if df.has_retrieval_score then blended else prov)

  -- `_provisional_order`: the order and the count of finite scores
  unfoldable pub provisional_order : Numpy → Frame n from_iso → List ℕ × ℕ
  provisional_order np df =
      let prov = provisional_scores np df in (reverse (np.argsort prov), count_by np.is_finite prov)

  -- `scores.get(cid, 0.0)`
  unfoldable pub score_of : List (Text × Value) → Text → Value
  score_of [] cid = hundredths 0
  score_of ((c, v) ∷ scores) cid =
      let rest = score_of scores cid in if text_eqb c cid then v else rest

  -- The column of zeros with the scores of the head at its places
  unfoldable pub head_column :
      List ℕ → List (Text × Value) → List (FrameRow n from_iso) → List Value
  head_column head scores rows =
      map
        (λ e.
          if any head (λ p. p == e.0)
          then score_of scores e.1.features.candidate_id
          else hundredths 0)
        (enumerate 0 rows)

  unfoldable pub scored_column :
      List ℕ → List (FrameRow n from_iso) → Option (List (Text × Value)) → Option (List Value)
  scored_column head rows none = none
  scored_column head rows (some scores) = some (head_column head scores rows)

  -- A stage over the first `top` of the order: its scores of the head, `none` where it raises
  unfoldable pub head_stage :
      Bool
      → ℕ
      → (List ℕ → Option (List (Text × Value)))
      → List ℕ × ℕ
      → List (FrameRow n from_iso)
      → Option (List Value)
  head_stage enabled top score order rows =
      let k = if ltb order.1 top then order.1 else top in
      let head = take k order.0 in
      if enabled && ltb 1 order.1 then scored_column head rows (score head) else none
