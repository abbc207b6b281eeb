-- ===== src/Summaries/Bounds.antt =====
-- What the heuristic of intelligence/summariser.py can say.
use provenancerank.Prelude.{
  ℕ, ◌+◌, ◌≤◌, List, [], ◌∷◌, All, take, count_by, length, ltb, ◌&&◌, if◌then◌else◌, if_keeps,
  arith,
}
use provenancerank.Text.{Text, codes, lower, contains}
use provenancerank.Skills.{aliases}
use provenancerank.Skills.Canonical.{HasOnly, IsCanonical, extract_skills-IsCanonical}
use provenancerank.Summaries.{
  hard_tokens, trivial_tokens, mentions_any, one_to_five, complexity, heuristic,
}

one_to_five-bounds : (score : ℕ) → (1 ≤ one_to_five score) × (one_to_five score ≤ 5)
unfolding one_to_five
one_to_five-bounds score = ground arith

complexity-bounds : (text : Text) → (1 ≤ complexity text) × (complexity text ≤ 5)
unfolding complexity
complexity-bounds text =
    if_keeps (λ k. (1 ≤ k) × (k ≤ 5))
      (mentions_any trivial_tokens (lower text) && ltb (length (lower text)) 400)
      (omega arith, omega arith)
      (one_to_five-bounds (
        let score = 2 + count_by (λ k. contains k (lower text)) hard_tokens in
        if ltb 3000 (length (lower text)) then score + 1 else score))

-- Of any artifact, whatever its type and however long it is: the complexity is between 1 and 5, and
-- every skill is a canonical name, in whatever order Python runs through its sets.
pub heuristic-bounds :
    (set_of : List Text → List Text) (content_hash : Text → Text)
    → HasOnly set_of
    → (artifact_type raw : Text)
    → let summary = heuristic set_of content_hash artifact_type raw in
      (1 ≤ summary.complexity)
      × (summary.complexity ≤ 5)
      × All (IsCanonical (aliases set_of)) summary.skills_demonstrated
unfolding heuristic
heuristic-bounds set_of content_hash h artifact_type raw =
    let (low, high) = complexity-bounds (take 8000 raw) in
    (low, high, (extract_skills-IsCanonical set_of h (take 8000 raw) (codes "" ∷ []) []).0)
