-- ===== src/Ranker/Request.antt =====
-- The two shapes of request of services/ranker.py, and the choice between them.
use provenancerank.Prelude.{
  ℕ, zero, suc, ◌+◌, Bool, true, false, not, ◌&&◌, Option, none, some, List, [], ◌∷◌, map, length,
  select, replicate, ◌==◌, if◌then◌else◌,
}
use provenancerank.Results.{Result, ok, error, ◌>>=◌, or_error}
use provenancerank.Floats.{Float}
use provenancerank.Text.{Text, text_eqb, strip, member_text}
use provenancerank.Candidates.{Candidate}
use provenancerank.Features.Row.{FeatureRow, gate_columns, build_feature_matrix}
use provenancerank.Gate.{Marked, apply_gates}
use provenancerank.Retrieval.{fuse_rrf}
use provenancerank.Frames.{FrameRow, Frame}
use provenancerank.Loader.{corpus_text, is_full}
use provenancerank.Ranker.{
  RankError, artifact_error, ranking_error, array_error, fast_path, live, Engine, RankResult,
  finalize,
}

-- The last index at which the id stands: `pos.get(cid)`
unfoldable pub last_index : Text → ℕ → List Text → Option ℕ
unfolding text_eqb
last_index cid i [] = none
last_index cid i (c ∷ cs) =
    later_or (last_index cid (i + 1) cs) (if text_eqb cid c then some i else none)
  where
    later_or : Option ℕ → Option ℕ → Option ℕ
    later_or none here = here
    later_or (some j) here = some j

-- `xs[i]`
unfoldable pub item_at {ℓ} : {A : Type ℓ} → ℕ → List A → Option A
item_at i [] = none
item_at zero (x ∷ xs) = some x
item_at (suc i) (x ∷ xs) = item_at i xs

module _ (n : Float) (from_iso : Text → Option ℕ) where
  open n use {Value, hundredths}

  -- The service once it is loaded. The embeddings and the index give scores for a job description.
  pub record Service : Type 0 where
    pub ready : Bool
    pub matrix : Frame n from_iso
    pub candidate_ids : List Text
    pub embeddings : Option (Text → List Value)
    pub bm25 : Option (Text → List Value)
    pub default_jd : Text

  unfoldable pub zeros : ℕ → List Value
  zeros k = replicate k (hundredths 0)

  -- The scores of one modality, zeros without it
  unfoldable pub scores_or_zeros : Option (Text → List Value) → Text → ℕ → List Value
  scores_or_zeros none jd k = zeros k
  scores_or_zeros (some scores) jd k = scores jd

  -- `full[pos[c]] if c in pos else 0.0`
  unfoldable pub score_at : List Value → Option ℕ → Result RankError Value
  score_at full none = ok (hundredths 0)
  score_at full (some i) = or_error array_error (item_at i full)

  unfoldable pub scores_of :
      List Text → List Value → List (FrameRow n from_iso) → Result RankError (List Value)
  scores_of ids full [] = ok []
  scores_of ids full (r ∷ rs) = do
    v ← score_at full (last_index r.features.candidate_id 0 ids)
    vs ← scores_of ids full rs
    ok (v ∷ vs)

  abbrev pub is_there : Option (Text → List Value) → Bool
  is_there none = false
  is_there (some scores) = true

  -- `_retrieval`
  unfoldable pub retrieval_of :
      Service → Frame n from_iso → Text → Bool → Result RankError (List Value)
  retrieval_of s df jd custom_jd =
      let column = ok (map (λ r. r.retrieval_score) df.rows) in
      let recomputed =
        or_error array_error (
          fuse_rrf n 60 (scores_or_zeros s.bm25 jd (length s.candidate_ids))
            (scores_or_zeros s.embeddings jd (length s.candidate_ids)))
        >>= λ full. scores_of s.candidate_ids full df.rows in
      if not custom_jd && df.has_retrieval_score
      then column
      else if not (is_there s.embeddings) && not (is_there s.bm25)
      then (if df.has_retrieval_score then column else ok (zeros (length df.rows)))
      else recomputed

  -- `custom_jd`
  unfoldable pub is_custom : Service → Option Text → Bool
  is_custom s none = false
  is_custom s (some jd) = is_full (strip jd) && not (text_eqb (strip jd) (strip s.default_jd))

  unfoldable pub jd_or : Text → Option Text → Text
  jd_or default none = default
  jd_or default (some jd) = jd

  -- The rows of the requested ids, or the whole matrix
  unfoldable pub requested :
      Frame n from_iso → Option (List Text) → Result RankError (Frame n from_iso)
  requested matrix none = ok matrix
  requested matrix (some []) = ok matrix
  requested matrix (some (c ∷ cs)) =
      let rows = select (λ r. member_text r.features.candidate_id (c ∷ cs)) matrix.rows in
      if length rows == 0 then error ranking_error else ok (record matrix { rows = rows })

  module _ (e : Engine n from_iso) where
    -- `_rank_fast`
    unfoldable pub rank_fast :
        Service → Option Text → Option (List Text) → ℕ → Result RankError (RankResult n from_iso)
    rank_fast s jd_text candidate_ids top_k = do
      let custom_jd = is_custom s jd_text
      let jd = if custom_jd then jd_or s.default_jd jd_text else s.default_jd
      df ← requested s.matrix candidate_ids
      retrieval ← retrieval_of s df jd custom_jd
      finalize n from_iso e df retrieval top_k fast_path jd

    -- A row of the live frame with its gates
    unfoldable pub gated_row : FeatureRow n from_iso → FrameRow n from_iso
    gated_row r = record {
      features = r;
      retrieval_score = hundredths 0;
      rerank_score = none;
      tournament_score = none;
      llm_fit_score = none;
      gate_passed = true;
    }

    -- The rows with what the gates say
    unfoldable pub with_gates :
        List (FeatureRow n from_iso) → List (Marked n) → List (FrameRow n from_iso)
    with_gates [] marks = []
    with_gates (r ∷ rs) [] = []
    with_gates (r ∷ rs) (m ∷ ms) =
        record (gated_row r) { gate_passed = m.gate_passed } ∷ with_gates rs ms

    -- The frame of an ad-hoc sample
    unfoldable pub live_frame : List (Candidate n) → Frame n from_iso
    live_frame candidates =
        let rows = build_feature_matrix n from_iso e.signal_settings candidates in
        record {
          columns = record {
            rerank_score = false;
            tournament_score = false;
            llm_fit_score = false;
            evidence_confidence_bonus = true;
            gate_passed = true;
          };
          has_retrieval_score = false;
          rows = with_gates rows (apply_gates n (map (gate_columns n from_iso) rows));
        }

    -- `jd_text or self.default_jd or (corpus[0] if corpus else "")`
    unfoldable pub live_jd : Service → Option Text → List Text → Text
    live_jd s jd_text corpus =
        let default = if is_full s.default_jd then s.default_jd else first_text corpus in
        let jd = jd_or [] jd_text in if is_full jd then jd else default
      where
        first_text : List Text → Text
        first_text [] = []
        first_text (t ∷ ts) = t

    -- The fused scores, or zeros where their computation raises
    unfoldable pub live_retrieval : Option (List Value × List Value) → ℕ → List Value
    live_retrieval none k = zeros k
    live_retrieval (some (bm25, cosine)) k = fused_or_zeros (fuse_rrf n 60 bm25 cosine)
      where
        fused_or_zeros : Option (List Value) → List Value
        fused_or_zeros none = zeros k
        fused_or_zeros (some scores) = scores

    -- `_rank_live`
    unfoldable pub rank_live :
        Service → List (Candidate n) → Option Text → ℕ → Result RankError (RankResult n from_iso)
    rank_live s candidates jd_text top_k =
        let df = live_frame candidates in
        let corpus = map corpus_text candidates in
        let jd = live_jd s jd_text corpus in
        let retrieval = live_retrieval (e.live_scores corpus jd) (length df.rows) in
        finalize n from_iso e df retrieval top_k live jd

    -- `top_k or get_settings().top_k`
    unfoldable pub top_k_or_default : Option ℕ → ℕ
    top_k_or_default none = e.loop_settings.top_k
    top_k_or_default (some k) = if k == 0 then e.loop_settings.top_k else k

    -- `rank`
    unfoldable pub rank :
        Service
        → Option Text
        → Option (List Text)
        → Option (List (Candidate n))
        → Option ℕ
        → Result RankError (RankResult n from_iso)
    rank s jd_text candidate_ids none top_k =
        if s.ready
        then rank_fast s jd_text candidate_ids (top_k_or_default top_k)
        else error artifact_error
    rank s jd_text candidate_ids (some candidates) top_k =
        rank_live s candidates jd_text (top_k_or_default top_k)
