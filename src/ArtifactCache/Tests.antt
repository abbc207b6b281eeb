-- ===== src/ArtifactCache/Tests.antt =====
-- Runs of a stage over core/artifact_cache.py, the first of them on other inputs than the later ones.
use provenancerank.Prelude.{ℕ, ◌≡◌, refl, Bool, true, false, none, some, [], ◌∷◌, All}
use provenancerank.Text.{Text, codes, strip, lstrip, is_space}
use provenancerank.ArtifactCache.{Store, good}
use provenancerank.ArtifactCache.Honest.{runs, runs-computed}

-- Inputs are flags, each with its key.
abbrev key : Bool → Text
key true = codes "k"
key false = codes "kk"

abbrev computed : Bool → ℕ
computed true = 10
computed false = 20

abbrev path : Text
path = codes "rerank_scores.npy"

-- A leftover artifact without a key
abbrev files : Store ℕ
files = record { artifacts = λ p. some (good 5); keys = λ p. none }

stripped : (b : Bool) → strip (key b) ≡ key b
unfolding strip lstrip is_space
stripped true = refl
stripped false = refl

injective : (a b : Bool) → key a ≡ key b → a ≡ b
injective true true e = refl
injective true false e = cc
injective false true e = cc
injective false false e = refl

runs-computed_example :
    All
      (λ r. r.1 ≡ computed r.0)
      (runs key computed path
        ((true, true) ∷ (true, false) ∷ (false, true) ∷ (true, true) ∷ [])
        files)
runs-computed_example =
    runs-computed key computed path stripped injective
      ((true, true) ∷ (true, false) ∷ (false, true) ∷ (true, true) ∷ []) files refl
