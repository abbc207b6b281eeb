-- ===== src/Gate/Tests.antt =====
-- The gates of pipeline/gate_filter.py on concrete input. Numbers are given in hundredths.
use provenancerank.Floats.Sample.{sample}
use provenancerank.Prelude.{◌≡◌, refl, false, none, some, [], ◌∷◌, map}
use provenancerank.Text.{codes}
use provenancerank.Gate.{
  Features, honeypot, inactive_unresponsive, outside_india_focus, stale_but_responsive, start, hard,
  hard_row, flag, flag_row, is_one, filled, stale, inactive, apply_gates,
}
use provenancerank.Gate.Verdict.{verdict, apply_gates-verdict}

abbrev good : Features sample
good = record {
  candidate_id = codes "CAND_0000001";
  current_title = codes "Engineer";
  is_honeypot = 0;
  all_consulting = 0;
  keyword_stuffer_flag = 0;
  days_since_active = 20000;
  recruiter_response_rate = some 40;
  notice_period_days = 3000;
  title_chaser_flag = 0;
  wrong_specialisation_penalty = 0;
  location_fit = 40;
}

abbrev bad : Features sample
bad = record good { is_honeypot = 100; recruiter_response_rate = none }

gates :
    apply_gates sample (good ∷ bad ∷ [])
    ≡ record (start sample good) { soft = outside_india_focus ∷ stale_but_responsive ∷ [] }
      ∷ record {
        row = bad;
        gate_passed = false;
        failures = honeypot ∷ inactive_unresponsive ∷ [];
        soft = outside_india_focus ∷ [];
      }
      ∷ []
unfolding apply_gates start hard hard_row flag flag_row is_one filled stale inactive
gates = refl

apply_gates-verdict_example :
    apply_gates sample (good ∷ bad ∷ []) ≡ map (verdict sample) (good ∷ bad ∷ [])
apply_gates-verdict_example = apply_gates-verdict sample (good ∷ bad ∷ [])
