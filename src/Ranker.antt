-- ===== src/Ranker.antt =====
-- services/ranker.py: one request, from the frame to the rows of the result. What numpy, the index and
-- the embedder compute from a job description, the model, the rounding and the hash are parameters;
-- the time taken is left out.
use provenancerank.Prelude.{
  ℕ, zero, suc, ◌+◌, Bool, true, false, not, ◌&&◌, ◌||◌, Option, none, some, List, [], ◌∷◌, ◌++◌,
  map, length, take, select, count_by, replicate, sort_by, ltb, ◌==◌, if◌then◌else◌,
}
use provenancerank.Results.{Result, ok, error, ◌>>=◌, or_error}
use provenancerank.Floats.{Float}
use provenancerank.Text.{Text, text_eqb, text_ltb, strip, member_text}
use provenancerank.Features.Signals.{SignalSettings}
use provenancerank.Scoring.{Weights, Columns, merge_final_scores}
use provenancerank.Coverage
use provenancerank.Coverage.{run_loop, Dimension}
use provenancerank.Reasoning.{Printer, generate_all}
use provenancerank.Frames.{FrameRow, Frame, cells_of, coverage_row, reason_row}
use provenancerank.Predictor.{Artifact, predict_fit}
use provenancerank.Submission
use provenancerank.Submission.{build_submission}
pub mod Request
pub mod Safe
pub mod Answers
mod Tests

-- `ArtifactError`, `RankingError`, and an error of numpy's that is not caught.
pub data RankError : Type 0 where
  artifact_error ranking_error array_error : RankError

pub data Source : Type 0 where
  fast_path live : Source

-- `get_settings` as the ranker and its stages read it, and the outside functions.
pub record Engine (n : Float) (from_iso : Text → Option ℕ) : Type 1 where
  pub signal_settings : SignalSettings n
  pub weights : Weights n
  pub loop_settings : Coverage.Settings n
  pub model : Artifact n from_iso
  pub printer : Printer n
  -- `round(score, 4)`, in ten-thousandths
  pub round4 : n.Value → ℕ
  -- The first 16 hexadecimal digits of the text's SHA-256
  pub jd_hash : Text → Text
  -- BM25 and cosine scores of documents for a job description, none where building or querying raises
  pub live_scores : List Text → Text → Option (List n.Value × List n.Value)

module _ (n : Float) (from_iso : Text → Option ℕ) where
  open n use {Value, less, same, hundredths, round3, total, whole}

  pub record GateStats : Type 0 where
    pub total_rows : ℕ
    -- The passed and the excluded, if the frame has the gates' column
    pub gated : Option (ℕ × ℕ)
    pub honeypots : ℕ
    pub keyword_stuffers : ℕ

  pub record RankResult : Type 0 where
    pub rows : List Submission.Row
    pub source : Source
    pub candidates_count : ℕ
    pub top_k : ℕ
    pub jd_hash : Text
    pub gate_stats : GateStats
    pub coverage : List (Dimension × Value)
    pub cache_hit : Bool

  -- `_gate_stats`
  unfoldable pub gate_stats_of : Frame n from_iso → GateStats
  gate_stats_of df = record {
    total_rows = length df.rows;
    gated =
        if df.columns.gate_passed
        then some (count_by (λ r. r.gate_passed) df.rows, count_by (λ r. not r.gate_passed) df.rows)
        else none;
    honeypots = whole (total (map (λ r. r.features.is_honeypot) df.rows));
    keyword_stuffers = whole (total (map (λ r. r.features.skill.keyword_stuffer_flag) df.rows));
  }

  -- A row with its final score.
  abbrev pub Scored : Type 0
  Scored = FrameRow n from_iso × Value

  -- `merge_final_scores` over the frame; arrays of other lengths raise
  unfoldable pub score_rows :
      Weights n
      → Columns n
      → List (FrameRow n from_iso)
      → List Value
      → List Value
      → Result RankError (List Scored)
  score_rows w columns [] [] [] = ok []
  score_rows w columns [] [] (r ∷ rs) = error ranking_error
  score_rows w columns [] (f ∷ fs) rs = error ranking_error
  score_rows w columns (row ∷ rows) [] rs = error ranking_error
  score_rows w columns (row ∷ rows) (f ∷ fs) [] = error ranking_error
  score_rows w columns (row ∷ rows) (f ∷ fs) (r ∷ rs) = do
    rest ← score_rows w columns rows fs rs
    ok ((row, merge_final_scores n w columns (cells_of n from_iso row f r)) ∷ rest)

  -- The order of `sort_values(["final_score", "candidate_id"], ascending=[False, True])`
  unfoldable pub ranks_before : Scored → Scored → Bool
  ranks_before y x =
      less x.1 y.1 || same x.1 y.1 && text_ltb y.0.features.candidate_id x.0.features.candidate_id

  -- `pool` and `ranked`
  unfoldable pub ranked_of : ℕ → List Scored → List Scored
  ranked_of top_k scored = take top_k (
      sort_by ranks_before
        (select (λ s. not (same s.0.features.is_honeypot (hundredths 100))) scored))

  -- The rows of `ranked` with their sentences, as `build_submission` reads them
  unfoldable pub with_reasoning : List Scored → List Text → List (Submission.Candidate Value)
  with_reasoning [] texts = []
  with_reasoning (s ∷ ss) [] = []
  with_reasoning (s ∷ ss) (t ∷ ts) =
      record { candidate_id = s.0.features.candidate_id; final_score = s.1; reasoning = t }
      ∷ with_reasoning ss ts

  module _ (e : Engine n from_iso) where
    -- The rows of the result, from `ranked`
    unfoldable pub submission_rows : ℕ → List Scored → List Submission.Row
    submission_rows top_k ranked =
        let texts =
          generate_all n e.printer (map (λ s. reason_row n from_iso e.printer s.0) ranked) in
        build_submission e.round4 top_k (with_reasoning ranked texts)

    -- `_finalize`, whose `except` clauses turn a failed scoring into an error
    unfoldable pub finalize :
        Frame n from_iso → List Value → ℕ → Source → Text → Result RankError RankResult
    finalize df retrieval top_k source jd_text = do
      ml_fit ← or_error ranking_error (predict_fit n from_iso e.model df)
      scored ← score_rows e.weights df.columns df.rows ml_fit retrieval
      let (pool, state) =
          run_loop n e.loop_settings (map (coverage_row n from_iso df.columns) df.rows) (some top_k)
            (hundredths 60)
      ok (record {
        rows = submission_rows top_k (ranked_of top_k scored);
        source = source;
        candidates_count = length df.rows;
        top_k = top_k;
        jd_hash = e.jd_hash jd_text;
        gate_stats = gate_stats_of df;
        coverage = map (λ c. (c.0, round3 c.1)) state.coverage_scores;
        cache_hit = false;
      })
