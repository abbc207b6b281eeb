-- ===== src/Skills.antt =====
-- intelligence/skill_extractor.py: the canonical names of skills. `set_of` gives the elements of a set
-- in the order in which Python runs through it. spaCy changes nothing and is left out.
use provenancerank.Prelude.{
  ℕ, Bool, true, false, not, ◌&&◌, ◌||◌, Option, none, some, List, [], ◌∷◌, ◌++◌, map, any, select,
  sort_by, leb, if◌then◌else◌,
}
use provenancerank.Text.{
  Text, codes, strip, lower, is_digit, starts_with, contains, member_text, text_ltb,
}
use provenancerank.Constants.{retrieval_skills, llm_skills, core_ml_skills}
pub mod Members
pub mod Canonical
mod Tests

-- The aliases of general skills
abbrev pub general_aliases : List (Text × List Text)
general_aliases =
    (codes "kubernetes", codes "kubernetes" ∷ codes "k8s" ∷ [])
    ∷ (codes "docker", codes "docker" ∷ codes "containerization" ∷ codes "containers" ∷ [])
    ∷ (codes "postgresql", codes "postgresql" ∷ codes "postgres" ∷ codes "psql" ∷ [])
    ∷ (codes "redis", codes "redis" ∷ [])
    ∷ (codes "kafka", codes "kafka" ∷ codes "apache kafka" ∷ [])
    ∷ (codes "python", codes "python" ∷ codes "py" ∷ [])
    ∷ (codes "go", codes "golang" ∷ codes "go " ∷ [])
    ∷ (codes "rust", codes "rust" ∷ [])
    ∷ (codes "typescript", codes "typescript" ∷ codes "ts" ∷ [])
    ∷ (codes "react", codes "react" ∷ codes "reactjs" ∷ codes "react.js" ∷ [])
    ∷ (
      codes "vector search",
      codes "vector search"
          ∷ codes "vector database"
          ∷ codes "ann"
          ∷ codes "approximate nearest"
          ∷ [],
    )
    ∷ (codes "semantic search", codes "semantic search" ∷ [])
    ∷ (codes "elasticsearch", codes "elasticsearch" ∷ codes "elastic search" ∷ codes "es" ∷ [])
    ∷ (codes "faiss", codes "faiss" ∷ [])
    ∷ (codes "pinecone", codes "pinecone" ∷ [])
    ∷ (codes "qdrant", codes "qdrant" ∷ [])
    ∷ (codes "embeddings", codes "embeddings" ∷ codes "embedding" ∷ [])
    ∷ (
      codes "sentence transformers",
      codes "sentence transformers" ∷ codes "sbert" ∷ codes "sentence-transformers" ∷ [],
    )
    ∷ (
      codes "fine-tuning llms",
      codes "fine-tuning"
          ∷ codes "fine tuning"
          ∷ codes "finetune"
          ∷ codes "lora"
          ∷ codes "qlora"
          ∷ codes "peft"
          ∷ [],
    )
    ∷ (codes "nlp", codes "nlp" ∷ codes "natural language processing" ∷ [])
    ∷ (
      codes "information retrieval",
      codes "information retrieval" ∷ codes "ir " ∷ codes "retrieval" ∷ [],
    )
    ∷ (codes "learning to rank", codes "learning to rank" ∷ codes "ltr" ∷ codes "lambdamart" ∷ [])
    ∷ (
      codes "recommendation systems",
      codes "recommendation" ∷ codes "recommender" ∷ codes "recsys" ∷ [],
    )
    ∷ (
      codes "distributed systems",
      codes "distributed systems"
          ∷ codes "distributed system"
          ∷ codes "consensus"
          ∷ codes "raft"
          ∷ [],
    )
    ∷ (
      codes "concurrency",
      codes "concurrency"
          ∷ codes "race condition"
          ∷ codes "deadlock"
          ∷ codes "mutex"
          ∷ codes "goroutine"
          ∷ [],
    )
    ∷ (
      codes "observability",
      codes "observability"
          ∷ codes "prometheus"
          ∷ codes "grafana"
          ∷ codes "tracing"
          ∷ codes "opentelemetry"
          ∷ [],
    )
    ∷ (codes "ci/cd", codes "ci/cd" ∷ codes "cicd" ∷ codes "github actions" ∷ codes "jenkins" ∷ [])
    ∷ (codes "graphql", codes "graphql" ∷ [])
    ∷ (codes "grpc", codes "grpc" ∷ [])
    ∷ (codes "pytorch", codes "pytorch" ∷ codes "torch" ∷ [])
    ∷ (codes "tensorflow", codes "tensorflow" ∷ codes "tf " ∷ [])
    ∷ (
      codes "mlops",
      codes "mlops" ∷ codes "model serving" ∷ codes "mlflow" ∷ codes "kubeflow" ∷ [],
    )
    ∷ []

-- Is a name among the keys
unfoldable pub is_key : Text → List (Text × List Text) → Bool
is_key name table = member_text name (map (λ e. e.0) table)

-- `_ALIASES.setdefault(_s, [_s])`, for the names
unfoldable pub set_defaults : List Text → List (Text × List Text) → List (Text × List Text)
unfolding is_key
set_defaults [] table = table
set_defaults (s ∷ names) table =
    set_defaults names (if is_key s table then table else table ++ (s, s ∷ []) ∷ [])

-- `category_of`
unfoldable pub category_of : Text → Text
unfolding lower member_text
category_of skill =
    let s = lower skill in
    if member_text s core_ml_skills
    then codes "ml"
    else if member_text s llm_skills
    then codes "llm"
    else if member_text s retrieval_skills
    then codes "retrieval"
    else codes "general"

-- The first entry one of whose aliases is part of the name
unfoldable pub first_alias : Text → List (Text × List Text) → Option Text
unfolding contains
first_alias n [] = none
first_alias n ((canonical, aliases) ∷ table) =
    let rest = first_alias n table in
    if any aliases (λ a. contains a n) then some canonical else rest

-- `canonicalise`, with the table
unfoldable pub canonicalise_in : List (Text × List Text) → Text → Option Text
unfolding strip lower is_key first_alias
canonicalise_in table name =
    let n = lower (strip name) in if is_key n table then some n else first_alias n table

-- A character of `[a-z0-9]`
unfoldable pub is_word_char : ℕ → Bool
unfolding is_digit
is_word_char c = (leb b'a' c && leb c b'z') || is_digit c

-- `re.search(r"(?<![a-z0-9])" + re.escape(a), text)`, after a character that is one of a word or not
unfoldable pub mentions : Bool → Text → Text → Bool
unfolding starts_with is_word_char
mentions inside a [] = not inside && starts_with a []
mentions inside a (c ∷ s) = (not inside && starts_with a (c ∷ s)) || mentions (is_word_char c) a s

-- Every element once, at its last place
unfoldable pub distinct : List Text → List Text
unfolding member_text
distinct [] = []
distinct (s ∷ names) = let rest = distinct names in if member_text s names then rest else s ∷ rest

-- `sorted` of a set
unfoldable pub sorted_set : List Text → List Text
unfolding distinct
sorted_set names = sort_by (λ y x. text_ltb y x) (distinct names)

-- `c for c in found if c`
unfoldable pub found_names : List (Option Text) → List Text
found_names [] = []
found_names (none ∷ found) = found_names found
found_names (some [] ∷ found) = found_names found
found_names (some (c ∷ s) ∷ found) = (c ∷ s) ∷ found_names found

module _ (set_of : List Text → List Text) where
  -- `_ALIASES`
  unfoldable pub aliases : List (Text × List Text)
  aliases =
      set_defaults (set_of (retrieval_skills ++ (llm_skills ++ core_ml_skills))) general_aliases

  -- `canonicalise`
  unfoldable pub canonicalise : Text → Option Text
  canonicalise = canonicalise_in aliases

  -- `extract_skills` of a list
  unfoldable pub extract_from_list : List Text → List Text
  extract_from_list names = sorted_set (found_names (map canonicalise names))

  -- `extract_skills` of a text
  unfoldable pub extract_skills : Text → List Text
  extract_skills text = sorted_set (
      map (λ e. e.0)
        (select (λ (e : Text × List Text). any e.1 (λ a. mentions false a (lower text))) aliases))
