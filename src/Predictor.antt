-- ===== src/Predictor.antt =====
-- ml/predictor.py and the proxy labels of ml/trainer.py: the fit of each row. A trained model is a
-- parameter: the artifact that is loaded, with its `predict`.
use provenancerank.Prelude.{
  ℕ, Bool, true, false, Option, none, some, List, [], ◌∷◌, map, if◌then◌else◌, ◌&&◌, not,
}
use provenancerank.Floats.{Float, clip}
use provenancerank.Text.{Text}
use provenancerank.Retrieval.{least_of, greatest_of, tiny, minmax}
use provenancerank.Frames.{FrameRow, Frame}
pub mod Lengths

module _ (n : Float) (from_iso : Text → Option ℕ) where
  open n use {Value, less, same, hundredths, plus, minus, times, over, of_nat}

  -- What `joblib.load` finds at the model's path.
  pub data Artifact : Type 0 where
    missing unreadable formula : Artifact
    -- A model by its `predict`, `none` where that raises
    trained : (List (FrameRow n from_iso) → Option (List Value)) → Artifact

  -- `_norm` of ml/trainer.py
  unfoldable pub norm : List Value → List Value
  norm = minmax n

  -- The label of one row, from its two normed counts
  unfoldable pub proxy_label : Bool → FrameRow n from_iso → Value → Value → Value
  proxy_label has_gates r retrieval matches =
      let label =
        plus
          (plus
            (plus
              (plus (times (hundredths 45) r.features.jd_fit.jd_fit_score)
                (times (hundredths 20) retrieval))
              (times (hundredths 15) matches))
            (times (hundredths 10) r.features.career.product_company_ratio))
          (times (hundredths 10)
            (clip n (hundredths 0) (hundredths 100) r.features.signal.behavioural_composite)) in
      let label = clip n (hundredths 0) (hundredths 100) label in
      let label = if has_gates && not r.gate_passed then hundredths 0 else label in
      if same r.features.is_honeypot (hundredths 100) then hundredths 0 else label

  unfoldable pub label_rows :
      Bool → List (FrameRow n from_iso) → List Value → List Value → List Value
  label_rows has_gates [] rs ms = []
  label_rows has_gates (row ∷ rows) [] ms = []
  label_rows has_gates (row ∷ rows) (r ∷ rs) [] = []
  label_rows has_gates (row ∷ rows) (r ∷ rs) (m ∷ ms) =
      proxy_label has_gates row r m ∷ label_rows has_gates rows rs ms

  -- `create_proxy_labels`
  unfoldable pub create_proxy_labels : Frame n from_iso → List Value
  create_proxy_labels df =
      label_rows df.columns.gate_passed df.rows
        (norm (map (λ r. of_nat r.features.skill.retrieval_skill_count) df.rows))
        (norm (map (λ r. of_nat r.features.skill.jd_skill_match_count) df.rows))

  -- `_minmax` of ml/predictor.py, which raises on no scores
  unfoldable pub scaled_fit : List Value → Option (List Value)
  scaled_fit [] = none
  scaled_fit (v ∷ vs) = some (norm (v ∷ vs))

  -- What a model's answer becomes
  unfoldable pub fit_or_formula : Frame n from_iso → Option (List Value) → Option (List Value)
  fit_or_formula df none = scaled_fit (create_proxy_labels df)
  fit_or_formula df (some raw) = scaled_fit raw

  -- `predict_fit`
  unfoldable pub predict_fit : Artifact → Frame n from_iso → Option (List Value)
  predict_fit missing df = scaled_fit (create_proxy_labels df)
  predict_fit unreadable df = scaled_fit (create_proxy_labels df)
  predict_fit formula df = scaled_fit (create_proxy_labels df)
  predict_fit (trained predict) df = fit_or_formula df (predict df.rows)
