-- ===== src/Coverage/Tests.antt =====
-- The loop of pipeline/loop_agent.py on concrete input. Numbers are given in hundredths.
use provenancerank.Floats.Sample.{sample}
use provenancerank.Prelude.{◌+◌, ◌≡◌, refl, true, none, [], ◌∷◌, ◌++◌, length, inl, arith}
use provenancerank.Text.{codes, text_eqb}
use provenancerank.Text.{member_text}
use provenancerank.Coverage.{
  Features, Settings, look, first, loop, run_loop, target_of, retrieve, should_continue, widen,
  reflect, coverage, plan, covers, keeps, min_fit, min_coverage, least, at_least_one, at_most_one,
}
use provenancerank.Coverage.Rounds.{Ended, run_loop-Ended}
use provenancerank.Coverage.Pool.{IsCurrent, run_loop-pool}

abbrev settings : Settings sample
settings = record {
  top_k = 1;
  max_loop_iterations = 4;
  confidence_threshold = 80;
  coverage_gap_threshold = 60;
}

abbrev strong : Features sample
strong = record {
  candidate_id = codes "CAND_0000001";
  jd_fit_score = 30;
  retrieval_skill_count = 200;
  llm_skill_count = 0;
  has_production_keywords = 0;
  product_company_ratio = 80;
  availability_score = 50;
  gate_passed = true;
}

abbrev weak : Features sample
weak = record strong {
  candidate_id = codes "CAND_0000002";
  retrieval_skill_count = 0;
  llm_skill_count = 0;
  has_production_keywords = 100;
}

widened :
    (run_loop sample settings (weak ∷ strong ∷ []) none 60).0
    ≡ codes "CAND_0000002" ∷ codes "CAND_0000001" ∷ []
unfolding run_loop loop look first retrieve should_continue widen reflect coverage plan covers keeps
    min_fit min_coverage least at_least_one at_most_one target_of member_text text_eqb
widened = refl

run_loop-Ended_example :
    let t = target_of sample none settings in
    let last = (run_loop sample settings (weak ∷ strong ∷ []) none 60).1 in
    (loop sample 9
        (weak ∷ strong ∷ [])
        t
        60
        (look sample (weak ∷ strong ∷ []) t 60 (first sample settings))
      ≡ last)
    × Ended sample last
    × (last.max_iterations ≡ 4)
    × (length last.history ≡ last.iteration + 1)
run_loop-Ended_example = run_loop-Ended sample settings (weak ∷ strong ∷ []) none 60 9 (omega arith)

run_loop-pool_example :
    let df = (weak ∷ []) ++ strong ∷ [] in
    let (pool, last) = run_loop sample settings df none 60 in
    (pool ≡ retrieve sample last df 60)
    × IsCurrent sample df (target_of sample none settings) 60 last
    × (member_text strong.candidate_id pool ≡ true)
run_loop-pool_example = run_loop-pool sample settings (weak ∷ []) [] strong none 60 refl (inl refl)
