-- ===== src/Lib.antt =====
-- ProvenanceRank ranks candidates for a job and serves the ranking over an API. This library
-- models the parts that carry state or a contract, and proves what makes them correct.
--
-- The ranking of candidates and its files:
--
-- - Constants: the tables of core/constants.py that the features read.
-- - Candidates: a candidate's profile, after data/candidate_schema.json, with the reading of its
--   dates.
-- - Honeypot: pipeline/honeypot_detector.py. `detect_honeypot` gives the flags of a profile, rule
--   by rule.
-- - Features: pipeline/feature_engineering.py. Its children follow the source's sections: Titles,
--   Career, Skills, Signals, Fit, Row (`build_feature_row`) and Live (`apply_live_signals`).
-- - Gate: pipeline/gate_filter.py. `apply_gates` marks the rows gate by gate, and
--   `write_rejection_registry` gives the lines of the registry.
-- - Loader: the batches and texts of pipeline/loader.py.
-- - Retrieval: the ranks and fusions of pipeline/retrieval.py.
-- - Bm25: the inverted index of pipeline/bm25_indexer.py. `from_corpus` builds it and `get_scores`
--   asks it.
-- - Json and Jd: JSON values, and pipeline/jd_deconstructor.py: `JobSpec` with `to_json` and
--   `from_json`, the fallback in Jd.Fallback, and `deconstruct_jd` in Jd.Reply.
-- - Predictor: ml/predictor.py with the proxy labels of ml/trainer.py, which it falls back to.
-- - Tournament: pipeline/tournament.py. `run_tournament` gives each row of the head its
--   Bradley-Terry strength.
-- - ArtifactCache: core/artifact_cache.py on one store of files, and `cached_stage`, the pattern
--   by which precompute.py uses it.
-- - Precompute: of precompute.py the provisional order and a stage over the head, which scores its
--   rows and leaves the others at 0.
-- - Scoring: pipeline/scorer.py and the modifier of pipeline/signal_scorer.py.
--   `merge_final_scores` is the final score of one row.
-- - Coverage: pipeline/loop_agent.py. `run_loop` is the loop that widens the pool, with its state.
-- - Reasoning: output/reasoning_generator.py. `generate_reasoning` is the text of one row and
--   `generate_all` that of a ranking.
-- - Frames: the rows of the data frame that these stages hand on, with what each stage reads of
--   them.
-- - Ranker: services/ranker.py. `rank`, in Ranker.Request, takes a request to the fast path or the
--   live path, and `finalize` scores, filters, orders, explains and numbers. It uses Features, Gate,
--   Predictor, Scoring, Coverage, Honeypot's column, Reasoning and Submission.
-- - Text, Validator and Submission: `validate_submission` of validate_submission.py, check by
--   check, and output/submission_writer.py. `write_and_validate` runs the validator on the rows it
--   writes.
--
-- The service around it:
--
-- - Auth: the identity of a request, from core/security.py, api/deps.py, api/routers/auth.py and
--   the users, keys and audit log of db/repositories.py. Auth.Context is `get_auth` and the tokens,
--   Auth.Routes the handlers.
-- - Jobs: services/jobs.py over the job table of db/repositories.py and db/models.py. The session
--   of `_persist` may fail and is then rolled back; the others commit. `handle` is `_handle`,
--   `execute` is `_execute`, and `deliver` the deliveries of one message.
-- - Queue and Worker: `InMemoryQueue` and `QueueWorker` of services/queue.py. `Step` is what
--   happens between two awaits of the worker's loop, its tasks, the producers and `stop`; `serve` is
--   the loop with one task at a time.
-- - Dict and Cache: Python's insertion-ordered dictionaries, and `InMemoryCache` of
--   services/cache.py with its three eviction policies. `run` is any sequence of calls.
-- - RateLimit: services/ratelimit.py. `check` is `RateLimiter.check` and uses the cache's `incr`.
-- - Breaker: core/circuit_breaker.py. `Event` and `run` are the moments of calls that overlap on
--   the event loop.
-- - Sync: ingestion/sync.py over the evidence and skill tables of db/repositories.py, with the
--   signals of ingestion/github_client.py in Sync.Signals.
-- - Confidence: intelligence/confidence_scorer.py, which Sync uses.
-- - Skills: intelligence/skill_extractor.py. `canonicalise` gives a name its skill, and
--   `extract_skills` the skills of a text.
-- - Summaries: the heuristic of intelligence/summariser.py, which uses Skills.
-- - Graph: the in-memory store of graph/schema.py; Graph.Debuggers is its
--   `find_production_debuggers`.
-- - Prelude, Results and Floats: the names, tests and list lemmas that all share; results with an
--   error, chained in do blocks; and the interface of floating-point numbers.
--
-- Conventions. Every reading of the clock is an argument, in ticks; a difference of times is
-- written as a sum, since subtraction on the natural numbers stops at 0. Strings are lists of
-- character codes. Floating-point numbers are a parameter, the record `Float` of the operations
-- that the source uses, of which the definitions assume nothing; a theorem that needs a law of
-- them takes it as a hypothesis. Dates are the ordinals that a parameter `from_iso` reads. The
-- order in which Python runs through a set is a parameter too, `set_of` or `pairs_of`, as are
-- `math.log` and, in the record `Numpy`, NumPy's sort and its test for finite numbers. The
-- digests, tokens and password hashes are the parameter `Crypto`, and the model, the encoders, the
-- index, the printing and the rounding of numbers are parameters too. The file that `csv.writer`
-- writes is its rows of cells, which `csv.reader` gives back. Ranks are read as Python reads
-- integers of fewer than 4300 digits. Exceptions are the error of a result.
--
-- Fuel. The eviction loop of the cache runs on fuel, one unit for each entry stored; each round
-- drops an entry, and the result on eviction says that this is enough. `serve` runs for a given
-- number of rounds, and its results hold for every number that is large enough. `run_loop` runs on
-- one round more than the iterations that the settings allow, and its result on termination says
-- that more makes no difference. The digits of a number are printed on the number itself as fuel.
-- The Bradley-Terry iteration runs at most the 200 rounds of the source. All other loops are
-- structural.
--
-- Not modelled: the Redis versions of the cache and of the queue and the database (calls of
-- clients), logging, files, the rest of the HTTP layer, the Neo4j graph, the language models, the
-- embeddings and the training of the ranker (third-party libraries), and, so far, the metrics, the
-- command lines of the offline pipeline and its stage of language-model scores, the vector index,
-- the channels of the job manager and the repositories of other tables.
pub mod Prelude
pub mod Results
pub mod Floats
pub mod Constants
pub mod Candidates
pub mod Honeypot
pub mod Features
pub mod Reasoning
pub mod Json
pub mod Jd
pub mod Loader
pub mod Retrieval
pub mod Bm25
pub mod Frames
pub mod Predictor
pub mod Tournament
pub mod ArtifactCache
pub mod Precompute
pub mod Ranker
pub mod Auth
pub mod Confidence
pub mod Skills
pub mod Summaries
pub mod Graph
pub mod Sync
pub mod Breaker
pub mod Dict
pub mod Cache
pub mod RateLimit
pub mod Queue
pub mod Worker
pub mod Text
pub mod Validator
pub mod Submission
pub mod Gate
pub mod Coverage
pub mod Jobs
pub mod Scoring
