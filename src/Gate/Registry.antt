-- ===== src/Gate/Registry.antt =====
-- The registry of pipeline/gate_filter.py.
use provenancerank.Prelude.{
  ◌+◌, ◌≡◌, refl, Bool, not, List, [], ◌∷◌, map, length, select, count_by, length-map, arith,
  Bool-cases, inl, inr,
}
use provenancerank.Floats.{Float}
use provenancerank.Gate.{Features, Rejection, rejection_of, apply_gates, write_rejection_registry}
use provenancerank.Gate.Verdict.{is_nil, failures_of, verdict, apply_gates-verdict}

module _ (n : Float) where
  -- The row passes every hard gate.
  abbrev pub passes : Features n → Bool
  passes r = is_nil (failures_of n r)

  -- The line for a row that was dropped.
  abbrev pub line_of : Features n → Rejection n
  line_of r = record {
    candidate_id = r.candidate_id;
    current_title = r.current_title;
    gate_failures = failures_of n r;
  }

  registry-verdict :
      (df : List (Features n))
      → map (rejection_of n) (select (λ m. not m.gate_passed) (map (verdict n) df))
        ≡ map line_of (select (λ r. not (passes r)) df)
  unfolding rejection_of verdict
  registry-verdict [] = refl
  registry-verdict (r ∷ df) = elim (Bool-cases (passes r)) [
    | inl kept ↦ rw kept (registry-verdict df)
    | inr dropped ↦ rw dropped (rw (registry-verdict df) refl)
  ]

  count_passes :
      (df : List (Features n))
      → count_by (λ r. not (passes r)) df + count_by (λ m. m.gate_passed) (map (verdict n) df)
        ≡ length df
  unfolding verdict
  count_passes [] = refl
  count_passes (r ∷ df) = elim (Bool-cases (passes r)) [
    | inl kept ↦ rw kept (omega (arith, count_passes df))
    | inr dropped ↦ rw dropped (omega (arith, count_passes df))
  ]

  count_same :
      (df : List (Features n))
      → length (select (λ m. not m.gate_passed) (map (verdict n) df))
        ≡ count_by (λ r. not (passes r)) df
  unfolding verdict
  count_same [] = refl
  count_same (r ∷ df) = elim (Bool-cases (passes r)) [
    | inl kept ↦ rw kept (omega (arith, count_same df))
    | inr dropped ↦ rw dropped (omega (arith, count_same df))
  ]

  -- After the gates the registry has one line, with the reasons, for exactly the rows that some hard
  -- gate holds of, in the frame's order; the number returned is the number of lines, and together
  -- with the rows that passed it makes up the frame.
  registry-apply_gates :
      (df : List (Features n))
      → let (lines, count) = write_rejection_registry n (apply_gates n df) in
        (lines ≡ map line_of (select (λ r. not (passes r)) df))
        × (count ≡ length lines)
        × (count + count_by (λ m. m.gate_passed) (apply_gates n df) ≡ length df)
  unfolding write_rejection_registry
  registry-apply_gates df = rw (apply_gates-verdict n df) (
    registry-verdict df,
    refl,
    omega (
      arith,
      count_passes df,
      length-map (rejection_of n) (select (λ m. not m.gate_passed) (map (verdict n) df)),
      count_same df,
    ),
  )
