-- ===== src/Features/Evidence.antt =====
-- What the live evidence changes in a row of pipeline/feature_engineering.py.
use provenancerank.Prelude.{
  ℕ, ◌≡◌, refl, Bool, true, false, Option, none, some, List, [], ◌∷◌, any, arith, inl, inr,
  Bool-cases,
}
use provenancerank.Floats.{Float}
use provenancerank.Text.{Text, lower}
use provenancerank.Features.Row.{FeatureRow, gate_columns}
use provenancerank.Features.Live.{
  resume_claim_confidence, get_skill_confidence, verified, lift, apply_live_signals,
}

module _ (n : Float) (from_iso : Text → Option ℕ) where
  open n use {Value, less, hundredths}

  -- Some of the row's skills for the job is above the confidence of a claim.
  abbrev pub backs : List (Text × Value) → List Text → Bool
  backs live skills =
      any skills (λ s. less (resume_claim_confidence n) (get_skill_confidence n (lower s) live))

  gate_columns-lift :
      (bonus : Value) (row : FeatureRow n from_iso) (cs : List Value)
      → gate_columns n from_iso (lift n from_iso bonus row cs) ≡ gate_columns n from_iso row
  unfolding lift gate_columns
  gate_columns-lift bonus row [] = refl
  gate_columns-lift bonus row (c ∷ cs) = refl

  verified_none :
      (live : List (Text × Value)) (skills : List Text)
      → backs live skills ≡ false
      → verified n skills live ≡ []
  unfolding verified
  verified_none live [] h = refl
  verified_none live (s ∷ skills) h = ground (arith, verified_none live skills)

  verified_some :
      (live : List (Text × Value)) (skills : List Text)
      → backs live skills ≡ true
      → (c : Value) × (cs : List Value) × (verified n skills live ≡ c ∷ cs)
  unfolding verified
  verified_some live [] h = cc
  verified_some live (s ∷ skills) h =
      elim (Bool-cases (less (resume_claim_confidence n) (get_skill_confidence n (lower s) live))) [
        | inl above ↦ rw above (get_skill_confidence n (lower s) live, verified n skills live, refl)
        | inr below ↦ rw below (verified_some live skills (ground (arith, h, below)))
      ]

  -- The map backs a skill that the row shows.
  pub is_backed : FeatureRow n from_iso → Option (List (Text × Value)) → Bool
  is_backed row none = false
  is_backed row (some []) = false
  is_backed row (some (e ∷ es)) = backs (e ∷ es) row.top_jd_skills

  -- Live evidence never moves a gate: it leaves every column that the gates read. It changes nothing
  -- at all unless some skill that the row shows for the job has a confidence above that of a claim,
  -- and in that case the row has the mark of live evidence and the bonus.
  pub apply_live_signals-gate_columns :
      (bonus : Value) (row : FeatureRow n from_iso) (live : Option (List (Text × Value)))
      → let lifted = apply_live_signals n from_iso bonus row live in
        (gate_columns n from_iso lifted ≡ gate_columns n from_iso row)
        × (is_backed row live ≡ false → lifted ≡ row)
        × (is_backed row live ≡ true
            → (lifted.has_live_evidence ≡ hundredths 100)
              × (lifted.evidence_confidence_bonus ≡ bonus))
  unfolding apply_live_signals is_backed lift
  apply_live_signals-gate_columns bonus row none = (refl, λ _. refl, λ h. cc)
  apply_live_signals-gate_columns bonus row (some []) = (refl, λ _. refl, λ h. cc)
  apply_live_signals-gate_columns bonus row (some (e ∷ es)) = (
    gate_columns-lift bonus row _,
    λ h. rw (verified_none (e ∷ es) row.top_jd_skills h) refl,
    λ h. let (c, cs, eq) = verified_some (e ∷ es) row.top_jd_skills h in rw eq (refl, refl),
  )
