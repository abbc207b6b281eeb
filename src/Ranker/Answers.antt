-- ===== src/Ranker/Answers.antt =====
-- That services/ranker.py answers, and how many rows it gives.
use Prim.Native.Nat.{min}
use provenancerank.Prelude.{
  ℕ, zero, suc, ◌+◌, ◌≡◌, refl, sym, ap, ◌∙◌, not, Option, some, List, [], ◌∷◌, map, length, select,
  length-map, length-take, length-sort_by, arith, Option-cases, inl, inr, replicate,
}
use provenancerank.Results.{ok, or_error}
use provenancerank.Floats.{Float}
use provenancerank.Text.{Text}
use provenancerank.Candidates.{Candidate}
use provenancerank.Scoring.{Weights, Columns}
use provenancerank.Retrieval.Lengths.{fuse_rrf-some}
use provenancerank.Features.Row.{FeatureRow, build_feature_matrix}
use provenancerank.Features.Gated.{TellsFlags}
use provenancerank.Gate.{Marked}
use provenancerank.Gate.Verdict.{apply_gates-verdict}
use provenancerank.Frames.{FrameRow, Frame}
use provenancerank.Predictor.Lengths.{IsAligned, predict_fit-some}
use provenancerank.Reasoning.{Printer, generate_from, mark_repeats, generate_all}
use provenancerank.Reasoning
use provenancerank.Submission
use provenancerank.Submission.{Work, number_from, build_submission, sort_values}
use provenancerank.Submission.Sorted.{length-sort_values}
use provenancerank.Ranker.{
  Source, Engine, RankResult, Scored, score_rows, ranked_of, with_reasoning, submission_rows,
  finalize,
}
use provenancerank.Ranker.Request.{
  Service, zeros, with_gates, live_frame, live_retrieval, rank_live, rank, top_k_or_default,
}
use provenancerank.Ranker.Safe.{
  finalize-rows, possible_ids, allowed, allowed-live_frame, pool-allowed,
}
use provenancerank.Loader.{corpus_text}

length-number_from : (k : ℕ) (ws : List Work) → length (number_from k ws) ≡ length ws
unfolding number_from
length-number_from k [] = refl
length-number_from k (w ∷ ws) = ap suc (length-number_from (k + 1) ws)

length-build_submission :
    {F : Type 0} (round4 : F → ℕ) (k : ℕ) (cs : List (Submission.Candidate F))
    → length (build_submission round4 k cs) ≡ min k (length cs)
unfolding build_submission
length-build_submission round4 k cs =
    length-number_from 1 _ ∙ length-take k _ ∙ ap (min k) (length-sort_values _ ∙ length-map _ cs)

length-replicate : {A : Type 0} (k : ℕ) (a : A) → length (replicate k a) ≡ k
length-replicate zero a = refl
length-replicate (suc k) a = ap suc (length-replicate k a)

module _ (n : Float) (p : Printer n) where
  length-generate_from :
      (k : ℕ) (rows : List (Reasoning.Row n p)) → length (generate_from n p k rows) ≡ length rows
  unfolding generate_from
  length-generate_from k [] = refl
  length-generate_from k (r ∷ rows) = ap suc (length-generate_from (k + 1) rows)

  length-mark_repeats :
      (seen : List Text) (rows : List (Reasoning.Row n p)) (texts : List Text)
      → length texts ≡ length rows
      → length (mark_repeats n p seen rows texts) ≡ length rows
  unfolding mark_repeats
  length-mark_repeats seen [] texts h = refl
  length-mark_repeats seen (r ∷ rows) [] h = absurd (omega (arith, h))
  length-mark_repeats seen (r ∷ rows) (t ∷ texts) h =
      ap suc (length-mark_repeats (t ∷ seen) rows texts (omega (arith, h)))

  length-generate_all :
      (rows : List (Reasoning.Row n p)) → length (generate_all n p rows) ≡ length rows
  unfolding generate_all
  length-generate_all rows = length-mark_repeats [] rows _ (length-generate_from 1 rows)

module _ (n : Float) (from_iso : Text → Option ℕ) where
  open n use {Value, same, hundredths}

  length-with_reasoning :
      (ss : List (Scored n from_iso)) (texts : List Text)
      → length texts ≡ length ss
      → length (with_reasoning n from_iso ss texts) ≡ length ss
  unfolding with_reasoning
  length-with_reasoning [] texts h = refl
  length-with_reasoning (s ∷ ss) [] h = absurd (omega (arith, h))
  length-with_reasoning (s ∷ ss) (t ∷ ts) h =
      ap suc (length-with_reasoning ss ts (omega (arith, h)))

  length-submission_rows :
      (e : Engine n from_iso) (k : ℕ) (ss : List (Scored n from_iso))
      → length (submission_rows n from_iso e k ss) ≡ min k (length ss)
  unfolding submission_rows
  length-submission_rows e k ss =
      length-build_submission e.round4 k _
      ∙ ap (min k)
          (length-with_reasoning ss _ (length-generate_all n e.printer _ ∙ length-map _ ss))

  score_rows-some :
      (w : Weights n) (columns : Columns n) (rows : List (FrameRow n from_iso)) (fs rs : List Value)
      → length fs ≡ length rows
      → length rs ≡ length rows
      → (scored : List (Scored n from_iso)) × (score_rows n from_iso w columns rows fs rs
          ≡ ok scored)
  unfolding score_rows
  score_rows-some w columns [] [] [] h k = ([], refl)
  score_rows-some w columns [] [] (r ∷ rs) h k = absurd (omega (arith, k))
  score_rows-some w columns [] (f ∷ fs) rs h k = absurd (omega (arith, h))
  score_rows-some w columns (row ∷ rows) [] rs h k = absurd (omega (arith, h))
  score_rows-some w columns (row ∷ rows) (f ∷ fs) [] h k = absurd (omega (arith, k))
  score_rows-some w columns (row ∷ rows) (f ∷ fs) (r ∷ rs) h k =
      let (rest, eq) = score_rows-some w columns rows fs rs (omega (arith, h)) (omega (arith, k)) in
      rw eq (_, refl)

  finalize-some :
      (e : Engine n from_iso) (df : Frame n from_iso) (retrieval : List Value) (k m : ℕ)
      (source : Source) (jd : Text)
      → IsAligned n from_iso e.model
      → length df.rows ≡ suc m
      → length retrieval ≡ length df.rows
      → (res : RankResult n from_iso) × (finalize n from_iso e df retrieval k source jd ≡ ok res)
  unfolding finalize or_error
  finalize-some e df retrieval k m source jd aligned h r =
      let (fit, found, size) = predict_fit-some n from_iso e.model df m aligned h in
      let (scored, eq) = score_rows-some e.weights df.columns df.rows fit retrieval size r in
      rw found (rw eq (_, refl))

  length-ranked_of :
      (df : Frame n from_iso) (k : ℕ) (scored : List (Scored n from_iso))
      → map (λ s. s.0) scored ≡ df.rows
      → length (ranked_of n from_iso k scored) ≡ min k (length (allowed n from_iso df))
  unfolding ranked_of
  length-ranked_of df k scored e =
      length-take k _
      ∙ ap (min k) (
          length-sort_by _ _
          ∙ sym (
              length-map (λ s. s.0.features.candidate_id)
                (select (λ s. not (same s.0.features.is_honeypot (hundredths 100))) scored))
          ∙ ap length (pool-allowed n from_iso df scored e))

  min_twice : (k m : ℕ) → min k (min k m) ≡ min k m
  min_twice k m = omega arith

  finalize-length :
      (e : Engine n from_iso) (df : Frame n from_iso) (retrieval : List Value) (k : ℕ)
      (source : Source) (jd : Text) (res : RankResult n from_iso)
      → finalize n from_iso e df retrieval k source jd ≡ ok res
      → length res.rows ≡ min k (length (allowed n from_iso df))
  finalize-length e df retrieval k source jd res h =
      let (scored, eq, rows) = finalize-rows n from_iso e df retrieval k source jd res h in
      sym (ap length rows)
      ∙ length-submission_rows e k _
      ∙ ap (min k) (length-ranked_of df k scored eq)
      ∙ min_twice k (length (allowed n from_iso df))

  length-with_gates :
      (e : Engine n from_iso) (rows : List (FeatureRow n from_iso)) (marks : List (Marked n))
      → length marks ≡ length rows
      → length (with_gates n from_iso e rows marks) ≡ length rows
  unfolding with_gates
  length-with_gates e [] marks h = refl
  length-with_gates e (r ∷ rows) [] h = absurd (omega (arith, h))
  length-with_gates e (r ∷ rows) (m ∷ marks) h =
      ap suc (length-with_gates e rows marks (omega (arith, h)))

  length-live_frame :
      (e : Engine n from_iso) (cs : List (Candidate n))
      → length (live_frame n from_iso e cs).rows ≡ length cs
  unfolding live_frame build_feature_matrix
  length-live_frame e cs =
      length-with_gates e _ _
        (ap length (apply_gates-verdict n _) ∙ length-map _ _ ∙ length-map _ _)
      ∙ length-map _ cs

  -- The index and the embedder give one score for each document.
  abbrev pub ScoresAll : Engine n from_iso → Type 0
  ScoresAll e =
      (corpus : List Text) (jd : Text) (bm25 cosine : List Value)
      → e.live_scores corpus jd ≡ some (bm25, cosine)
      → (length bm25 ≡ length corpus) × (length cosine ≡ length corpus)

  length-live_retrieval :
      (e : Engine n from_iso) (corpus : List Text) (jd : Text) (k : ℕ)
      → ScoresAll e
      → length corpus ≡ k
      → length (live_retrieval n from_iso e (e.live_scores corpus jd) k) ≡ k
  unfolding live_retrieval zeros
  length-live_retrieval e corpus jd k all h = elim (Option-cases (e.live_scores corpus jd)) [
    | inl raised ↦ rw raised (length-replicate k (hundredths 0))
    | inr ((bm25, cosine), eq) ↦ rw eq (
        let (left, right) = all corpus jd bm25 cosine eq in
        let (full, found, size) = fuse_rrf-some n 60 bm25 cosine (left ∙ sym right) in
        rw found (size ∙ left ∙ h))
  ]

  -- A request with profiles is answered: where `==` tells 0.0 from 1.0, the model's answers have a score
  -- for each row, and the index and the embedder one for each document or raise, a request with at
  -- least one profile gets a result whatever the service has loaded, and it has as many rows as it asks
  -- for, or as there are profiles that are no honeypots if these are fewer.
  pub rank-answers :
      (e : Engine n from_iso) (s : Service n from_iso) (jd_text : Option Text)
      (ids : Option (List Text)) (c : Candidate n) (cs : List (Candidate n)) (top_k : Option ℕ)
      → TellsFlags n
      → IsAligned n from_iso e.model
      → ScoresAll e
      → (res : RankResult n from_iso) × (rank n from_iso e s jd_text ids (some (c ∷ cs)) top_k
          ≡ ok res)
        × (length res.rows
            ≡ min (top_k_or_default n from_iso e top_k) (length (possible_ids n from_iso (c ∷ cs))))
  unfolding rank rank_live
  rank-answers e s jd_text ids c cs top_k t aligned all =
      let size = length-live_frame e (c ∷ cs) in
      let (res, eq) =
        finalize-some e (live_frame n from_iso e (c ∷ cs)) _ _ (length cs) _ _ aligned size
          (length-live_retrieval e _ _ _ all (length-map corpus_text (c ∷ cs) ∙ sym size)) in
      (
        res,
        eq,
        finalize-length e _ _ _ _ _ res eq
            ∙ ap (λ ids. min (top_k_or_default n from_iso e top_k) (length ids))
                (allowed-live_frame n from_iso e (c ∷ cs) t),
      )
