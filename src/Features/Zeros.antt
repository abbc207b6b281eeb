-- ===== src/Features/Zeros.antt =====
-- The readings of pipeline/feature_engineering.py that a float of 0 changes.
use provenancerank.Prelude.{ℕ, ◌≡◌, refl, true, false, Option}
use provenancerank.Floats.{Float}
use provenancerank.Text.{Text}
use provenancerank.Candidates.{Candidate}
use provenancerank.Features.Signals.{
  SignalSettings, or_minus_one, minus_one, compute_signal_features, engagement_of, trust_of,
}

module _ (n : Float) (from_iso : Text → Option ℕ) where
  open n use {Value, same, hundredths}

  -- The profile with these two scores in its signals.
  abbrev pub scored : Candidate n → Value → Value → Candidate n
  scored c github offers = record c {
    redrob_signals = record c.redrob_signals {
      github_activity_score = github;
      offer_acceptance_rate = offers;
    };
  }

  or_minus_one-same :
      same (hundredths 0) (hundredths 0) ≡ true
      → same (minus_one n) (hundredths 0) ≡ false
      → or_minus_one n (hundredths 0) ≡ or_minus_one n (minus_one n)
  unfolding or_minus_one
  or_minus_one-same zero_zero minus_zero = rw (zero_zero, minus_zero) refl

  -- Where `==` says of 0.0 and -1.0 what it should, a linked account with an activity score of 0 and
  -- an acceptance rate of 0 give the very features of a candidate with no account and no offers.
  pub compute_signal_features-zero_scores :
      (s : SignalSettings n) (c : Candidate n)
      → same (hundredths 0) (hundredths 0) ≡ true
      → same (minus_one n) (hundredths 0) ≡ false
      → compute_signal_features n from_iso s (scored c (hundredths 0) (hundredths 0))
        ≡ compute_signal_features n from_iso s (scored c (minus_one n) (minus_one n))
  unfolding compute_signal_features engagement_of trust_of
  compute_signal_features-zero_scores s c zero_zero minus_zero =
      rw (or_minus_one-same zero_zero minus_zero) refl
