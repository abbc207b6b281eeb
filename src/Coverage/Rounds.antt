-- ===== src/Coverage/Rounds.antt =====
-- How the loop of pipeline/loop_agent.py ends.
use provenancerank.Prelude.{
  ℕ, zero, suc, ◌+◌, ◌≤◌, ◌<◌, ◌≡◌, refl, ◌∙◌, ◌⊎◌, inl, inr, true, false, Option, List, [], ◌∷◌,
  length, length-append, leb, arith, Bool-cases,
}
use provenancerank.Floats.{Float}
use provenancerank.Coverage.{
  Features, Settings, LoopState, max_iterations, confident, min_coverage, should_continue, look,
  widen, loop, target_of, first, run_loop, reflect,
}

module _ (n : Float) where
  open n use {Value, geq}

  -- The loop has stopped, and for the reason that it names.
  pub record Ended (state : LoopState n) : Type 0 where
    pub within : state.iteration ≤ state.max_iterations
    pub reason :
        (state.exit_reason ≡ max_iterations) × (state.iteration ≡ state.max_iterations)
        ⊎ (state.exit_reason ≡ confident)
          × (state.iteration < state.max_iterations)
          × (geq (min_coverage n state.coverage_scores) state.confidence_threshold ≡ true)

  module _ (df : List (Features n)) (target : ℕ) (base_fit : Value) where
    widen_parts :
        (state : LoopState n)
        → let after = widen n df target base_fit state in
          (after.iteration ≡ state.iteration + 1)
          × (after.max_iterations ≡ state.max_iterations)
          × (length after.history ≡ length state.history + 1)
    unfolding widen look reflect
    widen_parts state = (refl, refl, omega (arith, length-append state.history (_ ∷ [])))

    loop-widen :
        (fuel : ℕ) (state : LoopState n)
        → (should_continue n state).1 ≡ true
        → loop n (suc fuel) df target base_fit state
          ≡ loop n fuel df target base_fit (widen n df target base_fit (should_continue n state).0)
    unfolding loop
    loop-widen fuel state h = rw h refl

    loop-stop :
        (fuel : ℕ) (state : LoopState n)
        → (should_continue n state).1 ≡ false
        → loop n (suc fuel) df target base_fit state ≡ (should_continue n state).0
    unfolding loop
    loop-stop fuel state h = rw h refl

    stop-Ended :
        (state : LoopState n)
        → state.iteration ≤ state.max_iterations
        → (should_continue n state).1 ≡ false
        → Ended (should_continue n state).0
    unfolding should_continue
    stop-Ended state h off = elim (Bool-cases (leb state.max_iterations state.iteration)) [
      | inl full ↦ rw full (record { within = h; reason = inl (refl, ground arith) })
      | inr room ↦
          elim (Bool-cases
            (geq (min_coverage n state.coverage_scores) state.confidence_threshold)) [
              | inl covered ↦
                  rw room
                    (rw covered (record { within = h; reason = inr (refl, ground arith, covered) }))
              | inr short ↦ absurd (ground arith)
            ]
    ]

    go_on :
        (state : LoopState n)
        → (should_continue n state).1 ≡ true
        → (state.iteration < state.max_iterations) × ((should_continue n state).0 ≡ state)
    unfolding should_continue
    go_on state h = ground arith

    stop_parts :
        (state : LoopState n)
        → let after = (should_continue n state).0 in
          (after.iteration ≡ state.iteration)
          × (after.max_iterations ≡ state.max_iterations)
          × (length after.history ≡ length state.history)
    unfolding should_continue
    stop_parts state = ground arith

    -- Fuel for the iterations that are left, and one more, is enough, and more makes no difference.
    loop-enough :
        (fuel more : ℕ) (state : LoopState n)
        → state.max_iterations < state.iteration + fuel
        → state.max_iterations < state.iteration + more
        → state.iteration ≤ state.max_iterations
        → loop n fuel df target base_fit state ≡ loop n more df target base_fit state
    loop-enough zero more state h h' low = absurd (omega arith)
    loop-enough (suc fuel) zero state h h' low = absurd (omega arith)
    loop-enough (suc fuel) (suc more) state h h' low =
        elim (Bool-cases (should_continue n state).1) [
          | inl on ↦
              let (room, same) = go_on state on in
              let next = widen n df target base_fit state in
              let (step, cap, _) = widen_parts state in
              rw (loop-widen fuel state on, loop-widen more state on, same)
                (loop-enough fuel more next (omega (arith, step, cap)) (omega (arith, step, cap))
                  (omega (arith, step, cap, room)))
          | inr off ↦ rw (loop-stop fuel state off, loop-stop more state off) refl
        ]

    loop-Ended :
        (fuel : ℕ) (state : LoopState n)
        → state.max_iterations < state.iteration + fuel
        → state.iteration ≤ state.max_iterations
        → let last = loop n fuel df target base_fit state in
          Ended last
          × (last.max_iterations ≡ state.max_iterations)
          × (length last.history + state.iteration ≡ length state.history + last.iteration)
    loop-Ended zero state h low = absurd (omega arith)
    loop-Ended (suc fuel) state h low = elim (Bool-cases (should_continue n state).1) [
      | inl on ↦
          let (room, same) = go_on state on in
          let next = widen n df target base_fit state in
          let (step, cap, longer) = widen_parts state in
          let (ended, cap', rounds) =
            loop-Ended fuel next (omega (arith, step, cap)) (omega (arith, step, cap, room)) in
          rw (loop-widen fuel state on, same)
            (ended, cap' ∙ cap, omega (arith, rounds, longer, step))
      | inr off ↦
          let (same, cap, rounds) = stop_parts state in
          rw (loop-stop fuel state off) (stop-Ended state low off, cap, omega (arith, same, rounds))
    ]

  look-first :
      (s : Settings n) (df : List (Features n)) (target : ℕ) (base_fit : Value)
      → let state = look n df target base_fit (first n s) in
        (state.iteration ≡ 0)
        × (state.max_iterations ≡ s.max_loop_iterations)
        × (length state.history ≡ 1)
  unfolding look first reflect
  look-first s df target base_fit = (refl, refl, refl)

  -- The loop comes to an end on any frame: with as much fuel as one likes beyond the iterations
  -- allowed its result is that of `run_loop`, and that result has stopped either at
  -- `max_loop_iterations`, naming that reason, or earlier, naming `confident`, with every dimension
  -- covered up to the confidence threshold. Its history has one entry for the first look and one for
  -- each iteration.
  pub run_loop-Ended :
      (s : Settings n) (df : List (Features n)) (target : Option ℕ) (base_fit : Value) (fuel : ℕ)
      → s.max_loop_iterations < fuel
      → let t = target_of n target s in
        let last = (run_loop n s df target base_fit).1 in
        (loop n fuel df t base_fit (look n df t base_fit (first n s)) ≡ last)
        × Ended last
        × (last.max_iterations ≡ s.max_loop_iterations)
        × (length last.history ≡ last.iteration + 1)
  unfolding run_loop
  run_loop-Ended s df target base_fit fuel h =
      let t = target_of n target s in
      let state = look n df t base_fit (first n s) in
      let (zeroth, cap, one) = look-first s df t base_fit in
      let (ended, cap', rounds) =
        loop-Ended df t base_fit (s.max_loop_iterations + 1) state (omega (arith, zeroth, cap))
          (omega (arith, zeroth)) in
      (
        loop-enough df t base_fit fuel (s.max_loop_iterations + 1) state
            (omega (arith, zeroth, cap)) (omega (arith, zeroth, cap)) (omega (arith, zeroth)),
        ended,
        cap' ∙ cap,
        omega (arith, rounds, zeroth, one),
      )
