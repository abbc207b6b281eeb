-- ===== src/Summaries.antt =====
-- The heuristic of intelligence/summariser.py, which stands in for the language model. `content_hash` is
-- the SHA-256 of the content, in hexadecimal.
use provenancerank.Prelude.{
  ℕ, ◌+◌, Bool, true, false, ◌&&◌, ◌||◌, List, [], ◌∷◌, ◌++◌, map, any, count_by, length, take, leb,
  ltb, ◌==◌, if◌then◌else◌,
}
use provenancerank.Text.{Text, codes, strip, lower, contains, text_eqb}
use provenancerank.Loader.{is_full}
use provenancerank.Skills.{extract_skills}
pub mod Bounds
mod Tests

pub record SummaryResult : Type 0 where
  pub what_was_done : Text
  pub skills_demonstrated : List Text
  pub complexity : ℕ
  pub problem_category : Text
  pub production_signal : Bool
  pub collaboration_signal : Bool
  pub content_hash : Text
  pub raw_chars : ℕ
  pub source : Text

abbrev pub production_tokens : List Text
production_tokens =
    codes "production"
    ∷ codes "deployed"
    ∷ codes "users"
    ∷ codes "scale"
    ∷ codes "latency"
    ∷ codes "incident"
    ∷ codes "monitoring"
    ∷ codes "a/b"
    ∷ codes "experiment"
    ∷ codes "throughput"
    ∷ codes "p99"
    ∷ codes "sla"
    ∷ codes "rollout"
    ∷ []

abbrev pub hard_tokens : List Text
hard_tokens =
    codes "race condition"
    ∷ codes "deadlock"
    ∷ codes "distributed"
    ∷ codes "consensus"
    ∷ codes "throughput"
    ∷ codes "latency"
    ∷ codes "scale"
    ∷ codes "optimi"
    ∷ codes "memory leak"
    ∷ codes "concurren"
    ∷ codes "sharding"
    ∷ []

abbrev pub trivial_tokens : List Text
trivial_tokens =
    codes "typo"
    ∷ codes "readme"
    ∷ codes "comment"
    ∷ codes "lint"
    ∷ codes "formatting"
    ∷ codes "rename"
    ∷ codes "bump"
    ∷ []

abbrev pub collab_tokens : List Text
collab_tokens =
    codes "review"
    ∷ codes "discuss"
    ∷ codes "feedback"
    ∷ codes "pair"
    ∷ codes "teammate"
    ∷ codes "approve"
    ∷ codes "comment"
    ∷ []

-- `any(k in t for k in tokens)`
unfoldable pub mentions_any : List Text → Text → Bool
unfolding contains
mentions_any tokens t = any tokens (λ k. contains k t)

-- `_classify`
unfoldable pub classify : Text → Text
unfolding lower mentions_any
classify text =
    let t = lower text in
    if mentions_any
      (codes "race condition"
        ∷ codes "deadlock"
        ∷ codes "bug"
        ∷ codes "fix"
        ∷ codes "crash"
        ∷ codes "regression"
        ∷ [])
      t
    then codes "debugging"
    else if mentions_any
        (codes "architecture"
          ∷ codes "design"
          ∷ codes "rfc"
          ∷ codes "consensus"
          ∷ codes "schema"
          ∷ [])
        t
    then codes "architecture"
    else if mentions_any
        (codes "deploy"
          ∷ codes "infra"
          ∷ codes "terraform"
          ∷ codes "kubernetes"
          ∷ codes "ci/cd"
          ∷ codes "pipeline"
          ∷ [])
        t
    then codes "infrastructure"
    else if mentions_any
        (codes "refactor" ∷ codes "cleanup" ∷ codes "rename" ∷ codes "migrate" ∷ []) t
    then codes "refactoring"
    else if mentions_any (codes "review" ∷ codes "lgtm" ∷ codes "approve" ∷ []) t
    then codes "review"
    else codes "feature"

-- `max(1, min(score, 5))`
unfoldable pub one_to_five : ℕ → ℕ
one_to_five score = let low = if ltb 5 score then 5 else score in if ltb low 1 then 1 else low

-- `_complexity`
unfoldable pub complexity : Text → ℕ
unfolding lower mentions_any one_to_five
complexity text =
    let t = lower text in
    let score = 2 + count_by (λ k. contains k t) hard_tokens in
    let score = if ltb 3000 (length t) then score + 1 else score in
    if mentions_any trivial_tokens t && ltb (length t) 400 then 1 else one_to_five score

-- A character at which `splitlines` splits
unfoldable pub is_line_break : ℕ → Bool
is_line_break c =
    (leb 10 c && leb c 13) || (leb 28 c && leb c 30) || c == 133 || c == 8232 || c == 8233

unfoldable pub first_line : Text → Text
unfolding is_line_break
first_line [] = []
first_line (c ∷ s) = let rest = first_line s in if is_line_break c then [] else c ∷ rest

-- `artifact_type.replace('_', ' ')`
unfoldable pub spaced : Text → Text
spaced = map (λ c. if c == b'_' then 32 else c)

-- `what_was_done`
unfoldable pub summary_line : Text → Text → Text
unfolding strip first_line spaced
summary_line artifact_type text =
    let first = take 160 (first_line (strip text)) in
    strip (if is_full first then first else spaced artifact_type ++ codes " with no description")

module _ (set_of : List Text → List Text) (content_hash : Text → Text) where
  -- `_heuristic`
  unfoldable pub heuristic : Text → Text → SummaryResult
  heuristic artifact_type raw =
      let text = take 8000 raw in
      let low = lower text in
      record {
        what_was_done = summary_line artifact_type text;
        skills_demonstrated = extract_skills set_of text;
        complexity = complexity text;
        problem_category = classify text;
        production_signal = mentions_any production_tokens low;
        collaboration_signal =
            text_eqb artifact_type (codes "pr_review")
            || text_eqb artifact_type (codes "issue_thread")
            || mentions_any collab_tokens low;
        content_hash = content_hash raw;
        raw_chars = length raw;
        source = codes "heuristic";
      }
