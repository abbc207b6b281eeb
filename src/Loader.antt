-- ===== src/Loader.antt =====
-- pipeline/loader.py: the batches of the candidates and the texts that stand for one. A file's lines
-- are the parsed candidates, in order.
use provenancerank.Prelude.{
  ℕ, zero, suc, ◌+◌, Bool, true, false, not, List, [], ◌∷◌, ◌++◌, map, length, take, select,
  sort_by, leb, ltb, if◌then◌else◌,
}
use provenancerank.Floats.{Float}
use provenancerank.Text.{Text, codes, strip, join}
use provenancerank.Candidates.{Role, Skill, Candidate}
pub mod Batches
mod Tests

-- The loop of `stream_batches`, with the batch so far: the batches it yields
unfoldable pub batches_from {ℓ} : {A : Type ℓ} → ℕ → List A → List A → List (List A)
batches_from batch_size [] [] = []
batches_from batch_size (b ∷ batch) [] = (b ∷ batch) ∷ []
batches_from batch_size batch (c ∷ cs) =
    let full = batches_from batch_size [] cs in
    let more = batches_from batch_size (batch ++ c ∷ []) cs in
    if leb batch_size (length (batch ++ c ∷ [])) then (batch ++ c ∷ []) ∷ full else more

-- `stream_batches`
unfoldable pub stream_batches {ℓ} : {A : Type ℓ} → ℕ → List A → List (List A)
stream_batches batch_size cs = batches_from batch_size [] cs

unfoldable pub is_full : Text → Bool
is_full [] = false
is_full (c ∷ s) = true

-- `" ".join(p for p in parts if p).strip()`
unfoldable pub document : List Text → Text
document parts = strip (join (codes " ") (select is_full parts))

unfoldable pub role_parts : List Role → List Text
role_parts [] = []
role_parts (r ∷ rs) = r.title ∷ r.description ∷ role_parts rs

-- The title and the first 300 characters of the first role, if there is one
unfoldable pub recent_parts : List Role → List Text
recent_parts [] = []
recent_parts (r ∷ rs) = r.title ∷ take 300 r.description ∷ []

unfoldable pub corpus_text : {n : Float} → Candidate n → Text
corpus_text c = document (
    (c.profile.headline ∷ c.profile.summary ∷ c.profile.current_title ∷ c.profile.current_industry
      ∷ [])
    ++ (role_parts c.career_history ++ map (λ s. s.name) c.skills))

unfoldable pub rerank_text : {n : Float} → Candidate n → Text
rerank_text c =
    let top = take 10 (sort_by (λ y x. ltb x.endorsements y.endorsements) c.skills) in
    document (
      (c.profile.current_title ∷ c.profile.headline ∷ [])
      ++ (recent_parts c.career_history ++ join (codes " ") (map (λ s. s.name) top) ∷ []))
