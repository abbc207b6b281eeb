-- ===== src/Ranker/Safe.antt =====
-- Who is among the rows that services/ranker.py gives.
use provenancerank.Prelude.{
  ℕ, ◌+◌, ◌≡◌, refl, sym, ap, ◌∙◌, Bool, true, false, not, Option, some, List, [], ◌∷◌, map, select,
  All, All-map, All-take, All-sort_by, Bool-cases, inl, inr, arith,
}
use provenancerank.Results.{ok, or_error, >>=-ok, ok_injective}
use provenancerank.Floats.{Float, of_bool}
use provenancerank.Text.{Text, member_text}
use provenancerank.Text.Order.{All-member_text}
use provenancerank.Candidates.{Candidate}
use provenancerank.Honeypot.{detect_honeypot, is_honeypot}
use provenancerank.Scoring.{Weights, Columns}
use provenancerank.Features.Row.{build_feature_row, build_feature_matrix, gate_columns}
use provenancerank.Features.Gated.{TellsFlags}
use provenancerank.Gate.Verdict.{verdict, apply_gates-verdict}
use provenancerank.Frames.{FrameRow, Frame}
use provenancerank.Predictor.{predict_fit}
use provenancerank.Submission
use provenancerank.Submission.{Work, round_score, number_from, build_submission, sort_values}
use provenancerank.Submission.Sorted.{sort_values-All}
use provenancerank.Ranker.{
  Source, Engine, RankResult, Scored, score_rows, ranked_of, with_reasoning, submission_rows,
  finalize,
}
use provenancerank.Ranker.Request.{Service, gated_row, with_gates, live_frame, rank_live, rank}

number_from-All :
    (Q : Text → Type 0) (k : ℕ) (ws : List Work)
    → All (λ w. Q w.candidate_id) ws
    → All (λ r. Q r.candidate_id) (number_from k ws)
unfolding number_from
number_from-All Q k [] h = tt
number_from-All Q k (w ∷ ws) (q, h) = (q, number_from-All Q (k + 1) ws h)

build_submission-All :
    {F : Type 0} (Q : Text → Type 0) (round4 : F → ℕ) (k : ℕ) (cs : List (Submission.Candidate F))
    → All (λ c. Q c.candidate_id) cs
    → All (λ r. Q r.candidate_id) (build_submission round4 k cs)
unfolding build_submission round_score
build_submission-All Q round4 k cs h = number_from-All Q 1 _ (
    All-take (λ w. Q w.candidate_id) k _
      (sort_values-All (λ w. Q w.candidate_id) _
        (All-map (λ w. Q w.candidate_id) (round_score round4) cs h)))

module _ (n : Float) (from_iso : Text → Option ℕ) where
  open n use {Value, same, hundredths}

  -- The ids of the rows that are not flagged as honeypots
  abbrev pub allowed : Frame n from_iso → List Text
  allowed df =
      map (λ r. r.features.candidate_id)
        (select (λ r. not (same r.features.is_honeypot (hundredths 100))) df.rows)

  score_rows-rows :
      (w : Weights n) (columns : Columns n) (rows : List (FrameRow n from_iso)) (fs rs : List Value)
      (scored : List (Scored n from_iso))
      → score_rows n from_iso w columns rows fs rs ≡ ok scored
      → map (λ s. s.0) scored ≡ rows
  unfolding score_rows
  score_rows-rows w columns [] [] [] scored h = ap (map (λ s. s.0)) (sym (ok_injective h))
  score_rows-rows w columns [] [] (r ∷ rs) scored h = cc
  score_rows-rows w columns [] (f ∷ fs) rs scored h = cc
  score_rows-rows w columns (row ∷ rows) [] rs scored h = cc
  score_rows-rows w columns (row ∷ rows) (f ∷ fs) [] scored h = cc
  score_rows-rows w columns (row ∷ rows) (f ∷ fs) (r ∷ rs) scored h =
      let (rest, eq, last) = >>=-ok (score_rows n from_iso w columns rows fs rs) _ h in
      ap (map (λ s. s.0)) (sym (ok_injective last))
      ∙ ap (λ rows. row ∷ rows) (score_rows-rows w columns rows fs rs rest eq)

  map-select :
      {A B C : Type 0} (f : A → B) (g : B → C) (p : B → Bool) (xs : List A)
      → map (λ x. g (f x)) (select (λ x. p (f x)) xs) ≡ map g (select p (map f xs))
  map-select f g p [] = refl
  map-select f g p (x ∷ xs) = ground (arith, map-select f g p xs)

  with_reasoning-All :
      (Q : Text → Type 0) (ss : List (Scored n from_iso)) (texts : List Text)
      → All (λ s. Q s.0.features.candidate_id) ss
      → All (λ c. Q c.candidate_id) (with_reasoning n from_iso ss texts)
  unfolding with_reasoning
  with_reasoning-All Q [] texts h = tt
  with_reasoning-All Q (s ∷ ss) [] h = tt
  with_reasoning-All Q (s ∷ ss) (t ∷ ts) (q, h) = (q, with_reasoning-All Q ss ts h)

  -- The pool has the ids of the rows that are not flagged.
  pub pool-allowed :
      (df : Frame n from_iso) (scored : List (Scored n from_iso))
      → map (λ s. s.0) scored ≡ df.rows
      → map
          (λ s. s.0.features.candidate_id)
          (select (λ s. not (same s.0.features.is_honeypot (hundredths 100))) scored)
        ≡ allowed df
  pool-allowed df scored e =
      map-select (λ s. s.0) (λ r. r.features.candidate_id)
        (λ r. not (same r.features.is_honeypot (hundredths 100))) scored
      ∙ ap
          (λ rows.
            map (λ r. r.features.candidate_id)
              (select (λ r. not (same r.features.is_honeypot (hundredths 100))) rows))
          e

  -- The ranked rows are rows that are not flagged.
  ranked_of-allowed :
      (df : Frame n from_iso) (k : ℕ) (scored : List (Scored n from_iso))
      → map (λ s. s.0) scored ≡ df.rows
      → All
          (λ s. member_text s.0.features.candidate_id (allowed df) ≡ true)
          (ranked_of n from_iso k scored)
  unfolding ranked_of
  ranked_of-allowed df k scored e = All-take _ k _ (
      All-sort_by _ _ _ (
        rw (← pool-allowed df scored e) (
          All-member_text (λ s. s.0.features.candidate_id)
            (select (λ s. not (same s.0.features.is_honeypot (hundredths 100))) scored))))

  -- The rows of a result come from the ranked rows of the scored frame.
  pub finalize-rows :
      (e : Engine n from_iso) (df : Frame n from_iso) (retrieval : List Value) (k : ℕ)
      (source : Source) (jd : Text) (res : RankResult n from_iso)
      → finalize n from_iso e df retrieval k source jd ≡ ok res
      → (scored : List (Scored n from_iso)) × (map (λ s. s.0) scored ≡ df.rows)
        × (submission_rows n from_iso e k (ranked_of n from_iso k scored) ≡ res.rows)
  unfolding finalize
  finalize-rows e df retrieval k source jd res h =
      let (fit, _, h') = >>=-ok (or_error _ (predict_fit n from_iso e.model df)) _ h in
      let (scored, eq, last) =
        >>=-ok (score_rows n from_iso e.weights df.columns df.rows fit retrieval) _ h' in
      (
        scored,
        score_rows-rows e.weights df.columns df.rows fit retrieval scored eq,
        ap (λ res. res.rows) (ok_injective last),
      )

  finalize-allowed :
      (e : Engine n from_iso) (df : Frame n from_iso) (retrieval : List Value) (k : ℕ)
      (source : Source) (jd : Text) (res : RankResult n from_iso)
      → finalize n from_iso e df retrieval k source jd ≡ ok res
      → All (λ row. member_text row.candidate_id (allowed df) ≡ true) res.rows
  unfolding submission_rows
  finalize-allowed e df retrieval k source jd res h =
      let (scored, eq, rows) = finalize-rows e df retrieval k source jd res h in
      rw (← rows) (
        build_submission-All (λ id. member_text id (allowed df) ≡ true) e.round4 k _
          (with_reasoning-All (λ id. member_text id (allowed df) ≡ true)
            (ranked_of n from_iso k scored) _ (ranked_of-allowed df k scored eq)))

  same-of_bool : TellsFlags n → (b : Bool) → same (of_bool n b) (hundredths 100) ≡ b
  unfolding of_bool
  same-of_bool t true = t.one_one
  same-of_bool t false = t.zero_one

  -- The ids of the profiles that are no honeypots
  abbrev pub possible_ids : List (Candidate n) → List Text
  possible_ids cs = map (λ c. c.candidate_id) (select (λ c. not (is_honeypot n from_iso c)) cs)

  with_gates-allowed :
      (e : Engine n from_iso) (cs : List (Candidate n))
      → TellsFlags n
      → map
          (λ r. r.features.candidate_id)
          (select
            (λ r. not (same r.features.is_honeypot (hundredths 100)))
            (with_gates n from_iso e (build_feature_matrix n from_iso e.signal_settings cs) (
              map (verdict n) (
                map
                  (gate_columns n from_iso)
                  (build_feature_matrix n from_iso e.signal_settings cs)))))
        ≡ possible_ids cs
  unfolding with_gates build_feature_matrix build_feature_row is_honeypot gated_row verdict
      detect_honeypot
  with_gates-allowed e [] t = refl
  with_gates-allowed e (c ∷ cs) t =
      rw (same-of_bool t (detect_honeypot n from_iso c).0)
        (elim (Bool-cases (detect_honeypot n from_iso c).0) [
          | inl trap ↦ rw (trap, with_gates-allowed e cs t) refl
          | inr real ↦ rw (real, with_gates-allowed e cs t) refl
        ])

  pub allowed-live_frame :
      (e : Engine n from_iso) (cs : List (Candidate n))
      → TellsFlags n
      → allowed (live_frame n from_iso e cs) ≡ possible_ids cs
  unfolding live_frame
  allowed-live_frame e cs t = rw (apply_gates-verdict n _) (with_gates-allowed e cs t)

  -- End to end, where `==` tells 0.0 from 1.0: whatever the model, the weights and the retrieval scores
  -- are, every row of the answer to an ad-hoc request has the id of a profile of the request that is no
  -- honeypot.
  pub rank-possible :
      (e : Engine n from_iso) (s : Service n from_iso) (jd_text : Option Text)
      (ids : Option (List Text)) (cs : List (Candidate n)) (top_k : Option ℕ)
      (res : RankResult n from_iso)
      → TellsFlags n
      → rank n from_iso e s jd_text ids (some cs) top_k ≡ ok res
      → All (λ row. member_text row.candidate_id (possible_ids cs) ≡ true) res.rows
  unfolding rank rank_live
  rank-possible e s jd_text ids cs top_k res t h =
      rw (← allowed-live_frame e cs t) (finalize-allowed e _ _ _ _ _ res h)
