-- ===== src/Scoring/Tests.antt =====
-- The merge of pipeline/scorer.py on concrete input. Numbers are whole hundredths.
use provenancerank.Floats.{clip}
use provenancerank.Floats.Sample.{sample}
use provenancerank.Prelude.{
  ◌≡◌, refl, not, ◌&&◌, ◌||◌, true, false, none, some, if◌then◌else◌, ltb, ◌==◌,
}
use provenancerank.Scoring.{
  Weights, Columns, Cells, CompositeWeights, recompute_behavioural_composite, filled, multiplier,
  signal_modifier, item, present, sum_weights, sum_signal, head_blend, blend, core, scaled,
  merge_final_scores,
}
use provenancerank.Scoring.Final.{OrdersUnit, merge_final_scores-bounds}

sample-OrdersUnit : OrdersUnit sample
sample-OrdersUnit = record { zero_zero = refl; one_zero = refl; one_one = refl }

abbrev weights : Weights sample
weights = record {
  ml_score = 40;
  retrieval_score = 35;
  signal_score = 25;
  rerank = 0;
  tournament = 10;
  llm_score = 15;
}

abbrev columns : Columns sample
columns = record {
  rerank_score = true;
  tournament_score = false;
  llm_fit_score = false;
  evidence_confidence_bonus = true;
  gate_passed = true;
}

abbrev row : Cells sample
row = record {
  ml_fit = 80;
  retrieval = 60;
  behavioural_composite = 40;
  location_fit = 100;
  availability_score = 100;
  engagement_score = 100;
  rerank_score = some 90;
  tournament_score = none;
  llm_fit_score = none;
  evidence_confidence_bonus = some 0;
  gate_passed = true;
  is_honeypot = 0;
}

merged : merge_final_scores sample weights columns row ≡ 63
unfolding merge_final_scores scaled core blend head_blend present item sum_weights sum_signal
    signal_modifier multiplier clip filled
merged = refl

abbrev composite_weights : CompositeWeights sample
composite_weights = record { availability = 40; engagement = 30; trust = 20; github = 10 }

composite : recompute_behavioural_composite sample composite_weights 100 50 100 (some 5000) ≡ 80
unfolding recompute_behavioural_composite clip filled
composite = refl

merge_final_scores-bounds_example :
    (ltb (merge_final_scores sample weights columns row) 0 ≡ false)
    × (ltb 100 (merge_final_scores sample weights columns row) ≡ false)
    × ((if (columns.gate_passed && not row.gate_passed) || (row.is_honeypot == 100)
          then merge_final_scores sample weights columns row
          else 0)
        ≡ 0)
merge_final_scores-bounds_example =
    merge_final_scores-bounds sample weights columns row sample-OrdersUnit
