-- ===== src/Features/Tests.antt =====
-- The features of pipeline/feature_engineering.py on concrete profiles.
use provenancerank.Prelude.{ℕ, ◌≡◌, refl, true, false, some, List, [], ◌∷◌, map, select}
use provenancerank.Floats.Sample.{sample}
use provenancerank.Text.{Text, codes, lower, text_eqb, member_text, contains, starts_with}
use provenancerank.Candidates.Sample.{read_ordinal, candidate, trap}
use provenancerank.Gate.{apply_gates}
use provenancerank.Features.Titles.{
  has_any, first_level, title_level, is_consulting, title_relevance_factor,
}
use provenancerank.Features.Skills.{is_among, top_retrieval_skills}
use provenancerank.Features.Signals.{SignalSettings, minus_one, compute_signal_features}
use provenancerank.Features.Row.{FeatureRow, build_feature_row, gate_columns, build_feature_matrix}
use provenancerank.Features.Live.{
  apply_live_signals, get_skill_confidence, find_confidence, hit_or_claim, verified,
}
use provenancerank.Features.Gated.{admitted, apply_gates-build_feature_matrix}
use provenancerank.Features.Evidence.{is_backed, apply_live_signals-gate_columns}
use provenancerank.Features.Zeros.{scored, compute_signal_features-zero_scores}

abbrev settings : SignalSettings sample
settings = record {
  recency_half_life_days = 9000;
  availability_weight = 40;
  engagement_weight = 30;
  trust_weight = 20;
  github_weight = 10;
}

senior : title_level (codes "Senior Data Engineer") ≡ 3
unfolding title_level first_level has_any contains starts_with lower
senior = refl

relevant : title_relevance_factor sample (codes "Data Engineer") ≡ 100
unfolding title_relevance_factor has_any contains starts_with lower
relevant = refl

consulting : is_consulting (codes "Tech Mahindra Ltd") ≡ true
unfolding is_consulting has_any contains starts_with lower
consulting = refl

retrieval : top_retrieval_skills sample candidate.skills ≡ codes "FAISS" ∷ []
unfolding top_retrieval_skills is_among member_text text_eqb lower
retrieval = refl

confidence :
    verified sample (codes "FAISS" ∷ codes "Python" ∷ []) ((codes "faiss", 90) ∷ []) ≡ 90 ∷ []
unfolding verified get_skill_confidence find_confidence hit_or_claim lower text_eqb
confidence = refl

apply_gates-build_feature_matrix_example :
    map
      (λ m. m.row.candidate_id)
      (select
        (λ m. m.gate_passed)
        (apply_gates sample (
          map
            (gate_columns sample read_ordinal)
            (build_feature_matrix sample read_ordinal settings (candidate ∷ trap ∷ [])))))
    ≡ map (λ c. c.candidate_id) (select (admitted sample read_ordinal) (candidate ∷ trap ∷ []))
apply_gates-build_feature_matrix_example =
    apply_gates-build_feature_matrix sample read_ordinal settings (candidate ∷ trap ∷ [])
      (record { one_one = refl; zero_one = refl })

abbrev row : FeatureRow sample read_ordinal
row = build_feature_row sample read_ordinal settings candidate

abbrev live : List (Text × ℕ)
live = (codes "faiss", 90) ∷ []

apply_live_signals-gate_columns_example :
    let lifted = apply_live_signals sample read_ordinal 5 row (some live) in
    (gate_columns sample read_ordinal lifted ≡ gate_columns sample read_ordinal row)
    × (is_backed sample read_ordinal row (some live) ≡ false → lifted ≡ row)
    × (is_backed sample read_ordinal row (some live) ≡ true
        → (lifted.has_live_evidence ≡ 100) × (lifted.evidence_confidence_bonus ≡ 5))
apply_live_signals-gate_columns_example =
    apply_live_signals-gate_columns sample read_ordinal 5 row (some live)

compute_signal_features-zero_scores_example :
    compute_signal_features sample read_ordinal settings (scored sample read_ordinal candidate 0 0)
    ≡ compute_signal_features sample read_ordinal settings
        (scored sample read_ordinal candidate (minus_one sample) (minus_one sample))
compute_signal_features-zero_scores_example =
    compute_signal_features-zero_scores sample read_ordinal settings candidate refl refl
