-- ===== src/Honeypot/Tests.antt =====
-- The detector of pipeline/honeypot_detector.py on concrete profiles.
use provenancerank.Prelude.{◌≡◌, ◌↔◌, refl, true, false, []}
use provenancerank.Floats.Sample.{sample}
use provenancerank.Candidates.{parse_date, date_or, total_months}
use provenancerank.Candidates.Sample.{read_ordinal, candidate, trap}
use provenancerank.Text.{text_eqb, all_digits, read_digits, is_digit}
use provenancerank.Honeypot.{
  is_tiny, tenure_flags, calendar_flags, each_role, is_expert_zero, expert_flags, experience_flags,
  volume_flags, detect_honeypot, is_honeypot,
}
use provenancerank.Honeypot.Rules.{IsPossible, is_honeypot-IsPossible}

clean : detect_honeypot sample read_ordinal candidate ≡ (false, [])
unfolding is_tiny tenure_flags calendar_flags each_role is_expert_zero expert_flags experience_flags
    volume_flags detect_honeypot parse_date date_or total_months read_ordinal text_eqb all_digits
    read_digits is_digit
clean = refl

caught : is_honeypot sample read_ordinal trap ≡ true
unfolding is_tiny tenure_flags calendar_flags each_role is_expert_zero expert_flags experience_flags
    volume_flags detect_honeypot is_honeypot parse_date date_or total_months read_ordinal text_eqb
    all_digits read_digits is_digit
caught = refl

is_honeypot-IsPossible_example :
    (is_honeypot sample read_ordinal candidate ≡ false) ↔ IsPossible sample read_ordinal candidate
is_honeypot-IsPossible_example = is_honeypot-IsPossible sample read_ordinal candidate
