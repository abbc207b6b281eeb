-- ===== src/Tournament/Tests.antt =====
-- The tournament of pipeline/tournament.py between three candidates, in whole hundredths.
use provenancerank.Prelude.{ℕ, ◌+◌, ◌≡◌, refl, [], ◌∷◌, if◌then◌else◌, ltb, ◌==◌, ◌*◌, arith}
use provenancerank.Floats.Sample.{sample}
use provenancerank.Text.{Text, codes, text_eqb}
use provenancerank.Tournament.{Contender, Head, soft_outcomes, share, run_tournament}
use provenancerank.Retrieval.{enumerate}
use provenancerank.Floats.{of_bool}
use provenancerank.Tournament.Scale.{rescaled, run_tournament-rescaled}

abbrev contender : Text → ℕ → ℕ → Contender sample
contender id fit skills = record {
  candidate_id = id;
  cell = λ c. if text_eqb c (codes "jd_fit_score") then fit else skills;
}

abbrev head : Head sample
head = record {
  columns = codes "candidate_id" ∷ codes "jd_fit_score" ∷ codes "retrieval_skill_count" ∷ [];
  rows =
      contender (codes "a") 90 400
      ∷ contender (codes "b") 80 700
      ∷ contender (codes "c") 80 100
      ∷ [];
}

outcomes :
    soft_outcomes sample ((90 ∷ 400 ∷ []) ∷ (80 ∷ 700 ∷ []) ∷ (80 ∷ 100 ∷ []) ∷ []) (65 ∷ 35 ∷ [])
    ≡ (0 ∷ 65 ∷ 100 ∷ []) ∷ (35 ∷ 0 ∷ 67 ∷ []) ∷ (0 ∷ 32 ∷ 0 ∷ []) ∷ []
unfolding soft_outcomes share enumerate of_bool
outcomes = refl

-- Skills counted in another unit
abbrev scale : Text → ℕ → ℕ
scale c x = if text_eqb c (codes "retrieval_skill_count") then 3 * x + 1 else x

scale-less : (c : Text) (x y : ℕ) → ltb (scale c x) (scale c y) ≡ ltb x y
scale-less c x y = ground arith

scale-same : (c : Text) (x y : ℕ) → (scale c x == scale c y) ≡ (x == y)
scale-same c x y = ground arith

run_tournament-rescaled_example :
    run_tournament sample (rescaled sample scale head) ≡ run_tournament sample head
run_tournament-rescaled_example = run_tournament-rescaled sample scale scale-less scale-same head
