-- ===== src/Predictor/Lengths.antt =====
-- ml/predictor.py answers every frame that has a row.
use provenancerank.Prelude.{
  ℕ, suc, ◌≡◌, refl, sym, ap, ◌∙◌, Bool, Option, some, List, [], ◌∷◌, length, length-map, arith,
  Option-cases, inl, inr,
}
use provenancerank.Floats.{Float}
use provenancerank.Text.{Text}
use provenancerank.Retrieval.Lengths.{length-minmax}
use provenancerank.Frames.{FrameRow, Frame}
use provenancerank.Predictor.{
  Artifact, missing, unreadable, formula, trained, norm, label_rows, create_proxy_labels,
  scaled_fit, fit_or_formula, predict_fit,
}

module _ (n : Float) (from_iso : Text → Option ℕ) where
  open n use {Value}

  -- A model that answers gives one score for each row.
  abbrev pub IsAligned : Artifact n from_iso → Type 0
  IsAligned missing = Unit
  IsAligned unreadable = Unit
  IsAligned formula = Unit
  IsAligned (trained predict) =
      (rows : List (FrameRow n from_iso)) (raw : List Value)
      → predict rows ≡ some raw
      → length raw ≡ length rows

  length-label_rows :
      (b : Bool) (rows : List (FrameRow n from_iso)) (rs ms : List Value)
      → length rs ≡ length rows
      → length ms ≡ length rows
      → length (label_rows n from_iso b rows rs ms) ≡ length rows
  unfolding label_rows
  length-label_rows b [] rs ms h k = refl
  length-label_rows b (row ∷ rows) [] ms h k = absurd (omega (arith, h))
  length-label_rows b (row ∷ rows) (r ∷ rs) [] h k = absurd (omega (arith, k))
  length-label_rows b (row ∷ rows) (r ∷ rs) (m ∷ ms) h k =
      ap suc (length-label_rows b rows rs ms (omega (arith, h)) (omega (arith, k)))

  length-create_proxy_labels :
      (df : Frame n from_iso) → length (create_proxy_labels n from_iso df) ≡ length df.rows
  unfolding create_proxy_labels norm
  length-create_proxy_labels df =
      length-label_rows df.columns.gate_passed df.rows _ _
        (length-minmax n _ ∙ length-map _ df.rows) (length-minmax n _ ∙ length-map _ df.rows)

  scaled_fit-some :
      (k : ℕ) (vs : List Value)
      → length vs ≡ suc k
      → (fit : List Value) × (scaled_fit n from_iso vs ≡ some fit) × (length fit ≡ suc k)
  unfolding scaled_fit norm
  scaled_fit-some k [] h = absurd (omega (arith, h))
  scaled_fit-some k (v ∷ vs) h = (_, refl, length-minmax n (v ∷ vs) ∙ h)

  formula-some :
      (df : Frame n from_iso) (k : ℕ)
      → length df.rows ≡ suc k
      → (fit : List Value) × (scaled_fit n from_iso (create_proxy_labels n from_iso df) ≡ some fit)
        × (length fit ≡ length df.rows)
  formula-some df k h =
      let (fit, found, size) =
        scaled_fit-some k (create_proxy_labels n from_iso df) (length-create_proxy_labels df ∙ h) in
      (fit, found, size ∙ sym h)

  pub predict_fit-some :
      (model : Artifact n from_iso) (df : Frame n from_iso) (k : ℕ)
      → IsAligned model
      → length df.rows ≡ suc k
      → (fit : List Value) × (predict_fit n from_iso model df ≡ some fit)
        × (length fit ≡ length df.rows)
  unfolding predict_fit fit_or_formula
  predict_fit-some missing df k a h = formula-some df k h
  predict_fit-some unreadable df k a h = formula-some df k h
  predict_fit-some formula df k a h = formula-some df k h
  predict_fit-some (trained predict) df k a h = elim (Option-cases (predict df.rows)) [
    | inl raised ↦ rw raised (formula-some df k h)
    | inr (raw, eq) ↦ rw eq (
        let (fit, found, size) = scaled_fit-some k raw (a df.rows raw eq ∙ h) in
        (fit, found, size ∙ sym h))
  ]
