-- ===== src/Jd/Fallback.antt =====
-- The hand-written specification of pipeline/jd_deconstructor.py, which ranking falls back to.
use provenancerank.Prelude.{ℕ, true, List, [], ◌∷◌, map}
use provenancerank.Text.{Text, codes}
use provenancerank.Skills.{sorted_set}
use provenancerank.Constants.{jd_core_skills}
use provenancerank.Json.{Json, boolean, number, string, array, items_of}
use provenancerank.Jd.{Gate, WeightedReq, JobSpec}

-- A list of strings as JSON
abbrev pub strings : List Text → Json
strings ts = array (items_of (map string ts))

-- A gate on a flag
abbrev gate : Text → Text → Gate
gate description feature_key = record {
  description = string description;
  feature_key = string feature_key;
  operator = string (codes "bool");
  value = boolean true;
}

abbrev requirement : Text → ℕ → List Text → WeightedReq
requirement description weight skill_tags = record {
  description = string description;
  weight = number weight;
  skill_tags = strings skill_tags;
}

abbrev pub fallback_gates : List Gate
fallback_gates =
    gate (codes "Honeypot / impossible profile (ground-truth tier 0)") (codes "is_honeypot")
    ∷ gate (codes "Entire career at pure consulting/services firms, no product co")
        (codes "all_consulting_career")
    ∷ gate (codes "AI keyword stuffer on a non-technical career (framework trap)")
        (codes "keyword_stuffer_flag")
    ∷ gate (codes "Inactive & unresponsive (>180d inactive AND response_rate<0.15)")
        (codes "inactive_unresponsive")
    ∷ []

abbrev pub fallback_requirements : List WeightedReq
fallback_requirements =
    requirement (codes "Production embeddings-based retrieval deployed to users") 100 (
      codes "embeddings"
      ∷ codes "sentence transformers"
      ∷ codes "retrieval"
      ∷ codes "vector search"
      ∷ codes "semantic search"
      ∷ [])
    ∷ requirement (codes "Vector DB / hybrid search operational experience") 100 (
        codes "pinecone"
        ∷ codes "qdrant"
        ∷ codes "weaviate"
        ∷ codes "milvus"
        ∷ codes "faiss"
        ∷ codes "elasticsearch"
        ∷ codes "opensearch"
        ∷ codes "hybrid search"
        ∷ codes "bm25"
        ∷ [])
    ∷ requirement (codes "Evaluation frameworks for ranking (NDCG/MRR/MAP, A/B)") 90 (
        codes "ndcg"
        ∷ codes "mrr"
        ∷ codes "map"
        ∷ codes "learning to rank"
        ∷ codes "a/b testing"
        ∷ [])
    ∷ requirement (codes "Strong Python / code quality") 60 (codes "python" ∷ [])
    ∷ requirement (codes "Prior HR-tech / recruiting / marketplace experience") 90
        (codes "recommendation systems" ∷ codes "search relevance" ∷ [])
    ∷ requirement (codes "LLM fine-tuning (LoRA/QLoRA/PEFT)") 80
        (codes "lora" ∷ codes "qlora" ∷ codes "peft" ∷ codes "fine-tuning llms" ∷ [])
    ∷ requirement (codes "Learning-to-rank (XGBoost/neural LTR)") 70
        (codes "learning to rank" ∷ codes "xgboost" ∷ codes "lightgbm" ∷ codes "ltr" ∷ [])
    ∷ requirement (codes "Distributed systems / large-scale inference") 60
        (codes "distributed systems" ∷ codes "mlops" ∷ codes "model serving" ∷ [])
    ∷ requirement (codes "Open-source AI/ML contributions") 70
        (codes "pytorch" ∷ codes "transformers" ∷ codes "hugging face transformers" ∷ [])
    ∷ []

abbrev pub fallback_latent : List Text
fallback_latent =
    codes "Product-company experience over pure research"
    ∷ codes "Ships fast (tilt toward shipper, not researcher)"
    ∷ codes "Pre-LLM-era ML production experience (understood retrieval before it was fashionable)"
    ∷ codes "Based in / willing to relocate to Pune or Noida (India, no visa sponsorship)"
    ∷ codes "Actively in the job market (recent platform activity, responsive)"
    ∷ codes "Has shipped at least one end-to-end ranking/search/recsys system at scale"
    ∷ []

abbrev pub fallback_anti_patterns : List Text
fallback_anti_patterns =
    codes "Title-chaser: company switches every ~1.5 years for title bumps"
    ∷ codes "Framework enthusiast: LangChain/prompt demos without systems depth"
    ∷ codes "Pure consulting-firm career with no product exposure"
    ∷ codes "Primary expertise CV/speech/robotics without NLP/IR"
    ∷ codes "'Open to learning AI' with no pre-LLM ML production history"
    ∷ codes "Pure research background with zero production deployment"
    ∷ codes "Moved to architecture/tech-lead; no production code in 18 months"
    ∷ codes "Perfect-on-paper but inactive (>6mo) with low recruiter response"
    ∷ []

abbrev pub fallback_boilerplate : List Text
fallback_boilerplate =
    codes "vibe check"
    ∷ codes "we disagree openly"
    ∷ codes "async-first and write a lot"
    ∷ codes "move fast and break things"
    ∷ codes "the JD changes every six months"
    ∷ []

-- `fallback_job_spec`
unfoldable pub fallback_job_spec : JobSpec
fallback_job_spec = record {
  hard_gates = fallback_gates;
  weighted_requirements = fallback_requirements;
  latent_requirements = strings fallback_latent;
  jd_core_skills = strings (sorted_set jd_core_skills);
  anti_patterns = strings fallback_anti_patterns;
  boilerplate_removed = strings fallback_boilerplate;
  source = string (codes "fallback");
}
