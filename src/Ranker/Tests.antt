-- ===== src/Ranker/Tests.antt =====
-- Requests to services/ranker.py on concrete profiles.
use Prim.Native.Nat.{min}
use provenancerank.Prelude.{◌*◌, ◌≡◌, refl, true, false, none, some, [], ◌∷◌, length, All}
use provenancerank.Results.{ok, error}
use provenancerank.Floats.Sample.{sample}
use provenancerank.Text.{codes, member_text}
use provenancerank.Candidates.Sample.{read_ordinal, candidate, trap}
use provenancerank.Features.Gated.{TellsFlags}
use provenancerank.Predictor.{formula}
use provenancerank.Reasoning.{Printer}
use provenancerank.Frames.{Frame}
use provenancerank.Ranker.{Engine, RankResult, artifact_error}
use provenancerank.Ranker.Request.{Service, rank, top_k_or_default}
use provenancerank.Ranker.Safe.{possible_ids, rank-possible}
use provenancerank.Ranker.Answers.{rank-answers}

abbrev printer : Printer sample
printer = record {
  one_place = λ v. codes "6.0";
  no_places = λ v. codes "6";
  percent = λ v. codes "60%";
}

abbrev engine : Engine sample read_ordinal
engine = record {
  signal_settings = record {
    recency_half_life_days = 9000;
    availability_weight = 40;
    engagement_weight = 30;
    trust_weight = 20;
    github_weight = 10;
  };
  weights = record {
    ml_score = 40;
    retrieval_score = 35;
    signal_score = 25;
    rerank = 0;
    tournament = 0;
    llm_score = 0;
  };
  loop_settings = record {
    top_k = 100;
    max_loop_iterations = 3;
    confidence_threshold = 60;
    coverage_gap_threshold = 30;
  };
  model = formula;
  printer = printer;
  round4 = λ v. 100 * v;
  jd_hash = λ s. s;
  live_scores = λ corpus jd. none;
}

abbrev empty_frame : Frame sample read_ordinal
empty_frame = record {
  columns = record {
    rerank_score = false;
    tournament_score = false;
    llm_fit_score = false;
    evidence_confidence_bonus = false;
    gate_passed = false;
  };
  has_retrieval_score = false;
  rows = [];
}

abbrev cold : Service sample read_ordinal
cold = record {
  ready = false;
  matrix = empty_frame;
  candidate_ids = [];
  embeddings = none;
  bm25 = none;
  default_jd = [];
}

refused : rank sample read_ordinal engine cold none none none none ≡ error artifact_error
unfolding rank
refused = refl

sample-TellsFlags : TellsFlags sample
sample-TellsFlags = record { one_one = refl; zero_one = refl }

answered :
    (res : RankResult sample read_ordinal) × (rank sample read_ordinal engine cold none none
        (some (candidate ∷ trap ∷ []))
        none
      ≡ ok res)
    × (length res.rows
        ≡ min
            (top_k_or_default sample read_ordinal engine none)
            (length (possible_ids sample read_ordinal (candidate ∷ trap ∷ []))))
answered =
    rank-answers sample read_ordinal engine cold none none candidate (trap ∷ []) none
      sample-TellsFlags tt (λ corpus jd bm25 cosine h. cc)

rank-answers_example :
    (res : RankResult sample read_ordinal) × (rank sample read_ordinal engine cold none none
        (some (candidate ∷ trap ∷ []))
        none
      ≡ ok res)
    × (length res.rows
        ≡ min
            (top_k_or_default sample read_ordinal engine none)
            (length (possible_ids sample read_ordinal (candidate ∷ trap ∷ []))))
rank-answers_example =
    rank-answers sample read_ordinal engine cold none none candidate (trap ∷ []) none
      sample-TellsFlags tt (λ corpus jd bm25 cosine h. cc)

rank-possible_example :
    All
      (λ row.
        member_text row.candidate_id (possible_ids sample read_ordinal (candidate ∷ trap ∷ []))
        ≡ true)
      answered.0.rows
rank-possible_example =
    rank-possible sample read_ordinal engine cold none none (candidate ∷ trap ∷ []) none answered.0
      sample-TellsFlags answered.1
