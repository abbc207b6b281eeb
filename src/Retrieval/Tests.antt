-- ===== src/Retrieval/Tests.antt =====
-- The fusion of pipeline/retrieval.py on concrete scores. Numbers are whole hundredths.
use provenancerank.Prelude.{
  ◌≡◌, refl, some, [], ◌∷◌, map, ltb, insert_by, sort_by, arith, inl, inr, Bool-cases,
}
use provenancerank.Floats.{min_of, max_of}
use provenancerank.Floats.Sample.{sample}
use provenancerank.Text.{codes, text_eqb}
use provenancerank.Retrieval.{
  enumerate, place_of, descending, ranks, least_of, greatest_of, minmax, contributions, add_arrays,
  fuse_rrf, credit, credit_ranking, fuse_rankings, reciprocal_rank_fusion,
}
use provenancerank.Retrieval.Order.{OrdersScores}
use provenancerank.Retrieval.Places.{better_count, ranks-better_count}

ranked : ranks sample (30 ∷ 50 ∷ 30 ∷ []) ≡ 1 ∷ 0 ∷ 2 ∷ []
unfolding ranks descending place_of enumerate sort_by insert_by
ranked = refl

fused : fuse_rrf sample 0 (30 ∷ 50 ∷ 0 ∷ []) (0 ∷ 40 ∷ 0 ∷ []) ≡ some (25 ∷ 100 ∷ 0 ∷ [])
unfolding fuse_rrf ranks descending place_of enumerate sort_by insert_by minmax least_of greatest_of
    contributions add_arrays min_of max_of
fused = refl

voted :
    reciprocal_rank_fusion sample ((codes "a" ∷ codes "b" ∷ []) ∷ (codes "b" ∷ []) ∷ []) 0
    ≡ (codes "a", 100) ∷ (codes "b", 150) ∷ []
unfolding reciprocal_rank_fusion fuse_rankings credit_ranking credit text_eqb
voted = refl

sample-OrdersScores : OrdersScores sample
sample-OrdersScores = record {
  asym = λ x y h. ground arith;
  between =
      λ x y z h. elim (Bool-cases (ltb x y)) [ inl e ↦ inl e | inr e ↦ inr (ground (arith, h, e)) ];
}

ranks-better_count_example :
    ranks sample (30 ∷ 50 ∷ 30 ∷ [])
    ≡ map (better_count sample (30 ∷ 50 ∷ 30 ∷ [])) (enumerate 0 (30 ∷ 50 ∷ 30 ∷ []))
ranks-better_count_example = ranks-better_count sample (30 ∷ 50 ∷ 30 ∷ []) sample-OrdersScores
