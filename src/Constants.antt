-- ===== src/Constants.antt =====
-- core/constants.py: the vocabularies and weights that the features and the reasoning read. A
-- frozenset of strings is the list of its members, in the order of the file; a weight is given in
-- hundredths.
use provenancerank.Prelude.{ℕ, List, [], ◌∷◌, ◌++◌}
use provenancerank.Text.{Text, codes}

abbrev pub retrieval_skills : List Text
retrieval_skills =
    codes "vector search"
    ∷ codes "semantic search"
    ∷ codes "hybrid search"
    ∷ codes "faiss"
    ∷ codes "pinecone"
    ∷ codes "qdrant"
    ∷ codes "weaviate"
    ∷ codes "milvus"
    ∷ codes "pgvector"
    ∷ codes "elasticsearch"
    ∷ codes "opensearch"
    ∷ codes "bm25"
    ∷ codes "haystack"
    ∷ codes "information retrieval"
    ∷ codes "retrieval"
    ∷ codes "recommendation systems"
    ∷ codes "recommendation"
    ∷ codes "learning to rank"
    ∷ codes "ltr"
    ∷ codes "ranking"
    ∷ codes "search relevance"
    ∷ codes "embeddings"
    ∷ codes "sentence transformers"
    ∷ []

abbrev pub llm_skills : List Text
llm_skills =
    codes "llms"
    ∷ codes "large language models"
    ∷ codes "fine-tuning llms"
    ∷ codes "fine-tuning"
    ∷ codes "lora"
    ∷ codes "qlora"
    ∷ codes "peft"
    ∷ codes "rag"
    ∷ codes "hugging face transformers"
    ∷ codes "transformers"
    ∷ codes "prompt engineering"
    ∷ codes "langchain"
    ∷ codes "llamaindex"
    ∷ []

abbrev pub core_ml_skills : List Text
core_ml_skills =
    codes "nlp"
    ∷ codes "natural language processing"
    ∷ codes "machine learning"
    ∷ codes "deep learning"
    ∷ codes "pytorch"
    ∷ codes "tensorflow"
    ∷ codes "scikit-learn"
    ∷ codes "xgboost"
    ∷ codes "lightgbm"
    ∷ codes "feature engineering"
    ∷ codes "mlops"
    ∷ codes "mlflow"
    ∷ codes "kubeflow"
    ∷ codes "statistical modeling"
    ∷ codes "data science"
    ∷ codes "model serving"
    ∷ codes "bentoml"
    ∷ codes "weights & biases"
    ∷ []

abbrev pub jd_core_skills : List Text
jd_core_skills = retrieval_skills ++ (llm_skills ++ (core_ml_skills ++ codes "python" ∷ []))

abbrev pub cv_speech_robotics_skills : List Text
cv_speech_robotics_skills =
    codes "computer vision"
    ∷ codes "opencv"
    ∷ codes "cnn"
    ∷ codes "object detection"
    ∷ codes "yolo"
    ∷ codes "image classification"
    ∷ codes "image segmentation"
    ∷ codes "diffusion models"
    ∷ codes "gans"
    ∷ codes "asr"
    ∷ codes "tts"
    ∷ codes "speech recognition"
    ∷ codes "speech synthesis"
    ∷ codes "robotics"
    ∷ codes "slam"
    ∷ codes "point cloud"
    ∷ codes "optical flow"
    ∷ []

abbrev pub non_relevant_skills : List Text
non_relevant_skills =
    codes "photoshop"
    ∷ codes "illustrator"
    ∷ codes "figma"
    ∷ codes "solidworks"
    ∷ codes "creo"
    ∷ codes "ansys"
    ∷ codes "autocad"
    ∷ codes "marketing"
    ∷ codes "seo"
    ∷ codes "excel"
    ∷ codes "powerpoint"
    ∷ codes "accounting"
    ∷ codes "tally"
    ∷ codes "sap"
    ∷ codes "hr"
    ∷ codes "human resources"
    ∷ codes "recruitment"
    ∷ codes "salesforce crm"
    ∷ codes "salesforce"
    ∷ codes "crm"
    ∷ codes "erp"
    ∷ codes "content writing"
    ∷ codes "copywriting"
    ∷ codes "sales"
    ∷ codes "six sigma"
    ∷ codes "customer support"
    ∷ codes "project management"
    ∷ []

abbrev pub proficiency_weights : List (Text × ℕ)
proficiency_weights =
    (codes "beginner", 25)
    ∷ (codes "intermediate", 50)
    ∷ (codes "advanced", 80)
    ∷ (codes "expert", 100)
    ∷ []

abbrev pub consulting_firms : List Text
consulting_firms =
    codes "tcs"
    ∷ codes "tata consultancy"
    ∷ codes "infosys"
    ∷ codes "wipro"
    ∷ codes "accenture"
    ∷ codes "cognizant"
    ∷ codes "capgemini"
    ∷ codes "hcl"
    ∷ codes "tech mahindra"
    ∷ codes "mphasis"
    ∷ codes "ltimindtree"
    ∷ codes "mindtree"
    ∷ codes "l&t infotech"
    ∷ codes "lti"
    ∷ codes "igate"
    ∷ codes "syntel"
    ∷ codes "hexaware"
    ∷ codes "birlasoft"
    ∷ codes "cybage"
    ∷ codes "persistent systems"
    ∷ codes "ust global"
    ∷ codes "ust"
    ∷ codes "nttdata"
    ∷ codes "ntt data"
    ∷ codes "dxc technology"
    ∷ codes "dxc"
    ∷ codes "atos"
    ∷ codes "ibm services"
    ∷ []

abbrev pub technical_title_tokens : List Text
technical_title_tokens =
    codes "engineer"
    ∷ codes "developer"
    ∷ codes "scientist"
    ∷ codes "ml "
    ∷ codes "ai "
    ∷ codes "machine learning"
    ∷ codes "data"
    ∷ codes "programmer"
    ∷ codes "architect"
    ∷ codes "sde"
    ∷ codes "researcher"
    ∷ codes "research"
    ∷ codes "applied scientist"
    ∷ codes "nlp"
    ∷ codes "devops"
    ∷ codes "sre"
    ∷ codes "backend"
    ∷ codes "platform"
    ∷ []

abbrev pub non_technical_title_tokens : List Text
non_technical_title_tokens =
    codes "marketing"
    ∷ codes "hr"
    ∷ codes "human resource"
    ∷ codes "sales"
    ∷ codes "account"
    ∷ codes "graphic"
    ∷ codes "content writer"
    ∷ codes "content writing"
    ∷ codes "copywriter"
    ∷ codes "operations"
    ∷ codes "recruit"
    ∷ codes "talent"
    ∷ codes "customer support"
    ∷ codes "business development"
    ∷ codes "civil engineer"
    ∷ codes "mechanical engineer"
    ∷ codes "electrical engineer"
    ∷ codes "designer"
    ∷ codes "project manager"
    ∷ codes "program manager"
    ∷ []

abbrev pub production_keywords : List Text
production_keywords =
    codes "production"
    ∷ codes "deployed"
    ∷ codes "deploy"
    ∷ codes "users"
    ∷ codes "scale"
    ∷ codes "scaled"
    ∷ codes "latency"
    ∷ codes "pipeline"
    ∷ codes "real-time"
    ∷ codes "realtime"
    ∷ codes "a/b"
    ∷ codes "experiment"
    ∷ codes "metric"
    ∷ codes "ndcg"
    ∷ codes "mrr"
    ∷ codes "recall"
    ∷ codes "precision"
    ∷ codes "retrieval"
    ∷ codes "ranking"
    ∷ codes "rank"
    ∷ codes "embedding"
    ∷ codes "vector"
    ∷ codes "fine-tun"
    ∷ codes "recommendation"
    ∷ codes "recommender"
    ∷ codes "search"
    ∷ codes "throughput"
    ∷ codes "sla"
    ∷ codes "p99"
    ∷ codes "inference"
    ∷ codes "serving"
    ∷ codes "index"
    ∷ codes "relevance"
    ∷ codes "click-through"
    ∷ codes "ctr"
    ∷ []

abbrev pub preferred_locations : List Text
preferred_locations =
    codes "pune"
    ∷ codes "noida"
    ∷ codes "delhi"
    ∷ codes "new delhi"
    ∷ codes "gurgaon"
    ∷ codes "gurugram"
    ∷ codes "ncr"
    ∷ codes "hyderabad"
    ∷ codes "mumbai"
    ∷ codes "bangalore"
    ∷ codes "bengaluru"
    ∷ []
