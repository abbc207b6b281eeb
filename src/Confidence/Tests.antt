-- ===== src/Confidence/Tests.antt =====
-- The confidences of intelligence/confidence_scorer.py on concrete evidence, in whole hundredths.
use provenancerank.Prelude.{◌≡◌, refl, List, [], ◌∷◌, All, arith}
use provenancerank.Floats.{min_of, max_of}
use provenancerank.Floats.Sample.{sample}
use provenancerank.Text.{codes, strip, lstrip, is_space, lower, text_eqb}
use provenancerank.Confidence.{
  EvidenceRecord, weight_of, complexity_of, canonical, contribution, decay, total_from,
  compute_confidence, confidence_by_skill, half_life_days, default_normaliser,
}
use provenancerank.Confidence.Range.{InUnit, confidence_by_skill-InUnit}

abbrev evidence : List EvidenceRecord
evidence =
    record {
      source_type = codes "pr_review";
      skill_name = codes " FAISS";
      artifact_date = 0;
      complexity_score = 9;
    }
    ∷ record {
      source_type = codes "commit_diff";
      skill_name = codes "Python";
      artifact_date = 0;
      complexity_score = 1;
    }
    ∷ []

faiss :
    compute_confidence sample
      (half_life_days sample)
      (default_normaliser sample)
      evidence
      (codes "faiss")
      0
    ≡ 9
unfolding compute_confidence total_from contribution weight_of complexity_of canonical decay strip
    lstrip is_space lower text_eqb min_of max_of
faiss = refl

confidence_by_skill-InUnit_example :
    All (λ c. InUnit sample c.1) (confidence_by_skill sample evidence 100)
confidence_by_skill-InUnit_example = confidence_by_skill-InUnit sample evidence 100 (record {
  irreflexive = λ x. ground arith;
  one_zero = refl;
  positive = λ x h. ground (arith, h);
})
