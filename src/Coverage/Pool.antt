-- ===== src/Coverage/Pool.antt =====
-- The pool with which the loop of pipeline/loop_agent.py ends.
use provenancerank.Prelude.{
  ℕ, zero, suc, ◌+◌, ◌≡◌, refl, ◌⊎◌, inl, inr, true, Option, List, [], ◌∷◌, ◌++◌, select, arith,
  Bool-cases,
}
use provenancerank.Text.Order.{member_text_self}
use provenancerank.Text.{member_text}
use provenancerank.Floats.{Float}
use provenancerank.Coverage.{
  Features, Settings, LoopState, coverage, keeps, min_fit, retrieve, should_continue, look, widen,
  loop, target_of, first, run_loop, reflect,
}

module _ (n : Float) where
  open n use {Value, less}

  -- The state's pool and scores are those of its own relaxation.
  pub record IsCurrent (df : List (Features n)) (target : ℕ) (base_fit : Value)
      (state : LoopState n) : Type 0 where
    pub pool : state.candidates_pool ≡ retrieve n state df base_fit
    pub scores :
        state.coverage_scores
        ≡ coverage n (select (λ r. member_text r.candidate_id state.candidates_pool) df) target

  module _ (df : List (Features n)) (target : ℕ) (base_fit : Value) where
    look-IsCurrent :
        (state : LoopState n) → IsCurrent df target base_fit (look n df target base_fit state)
    unfolding look reflect retrieve min_fit
    look-IsCurrent state = record { pool = refl; scores = refl }

    widen-IsCurrent :
        (state : LoopState n) → IsCurrent df target base_fit (widen n df target base_fit state)
    unfolding widen
    widen-IsCurrent state = look-IsCurrent _

    stop-IsCurrent :
        (state : LoopState n)
        → IsCurrent df target base_fit state
        → IsCurrent df target base_fit (should_continue n state).0
    unfolding should_continue retrieve min_fit
    stop-IsCurrent state h = ground (arith, h.pool, h.scores)

    loop-IsCurrent :
        (fuel : ℕ) (state : LoopState n)
        → IsCurrent df target base_fit state
        → IsCurrent df target base_fit (loop n fuel df target base_fit state)
    unfolding loop
    loop-IsCurrent zero state h = h
    loop-IsCurrent (suc fuel) state h = elim (Bool-cases (should_continue n state).1) [
      | inl on ↦ rw on (loop-IsCurrent fuel _ (widen-IsCurrent _))
      | inr off ↦ rw off (stop-IsCurrent state h)
    ]

  retrieve-front :
      (state : LoopState n) (r : Features n) (df : List (Features n)) (base_fit : Value)
      → keeps n (min_fit n state base_fit) r ≡ true
      → member_text r.candidate_id (retrieve n state (r ∷ df) base_fit) ≡ true
  unfolding retrieve
  retrieve-front state r df base_fit h = rw h (member_text_self r.candidate_id _)

  retrieve-kept :
      (state : LoopState n) (r : Features n) (before after : List (Features n)) (base_fit : Value)
      → keeps n (min_fit n state base_fit) r ≡ true
      → member_text r.candidate_id (retrieve n state (before ++ r ∷ after) base_fit) ≡ true
  unfolding retrieve member_text
  retrieve-kept state r [] after base_fit h = retrieve-front state r after base_fit h
  retrieve-kept state r (q ∷ before) after base_fit h =
      ground (arith, retrieve-kept state r before after base_fit h)

  -- The pool that `run_loop` returns is what `retrieve` selects at the relaxation of the state that
  -- it returns, whose scores are the coverage of that pool, and a row that passed the gates and has
  -- a retrieval or an LLM skill is in it, wherever it stands in the frame and whatever its fit.
  pub run_loop-pool :
      (s : Settings n) (before after : List (Features n)) (r : Features n) (target : Option ℕ)
      (base_fit : Value)
      → r.gate_passed ≡ true
      → (less (n.hundredths 0) r.retrieval_skill_count ≡ true)
        ⊎ (less (n.hundredths 0) r.llm_skill_count ≡ true)
      → let df = before ++ r ∷ after in
        let (pool, last) = run_loop n s df target base_fit in
        (pool ≡ retrieve n last df base_fit)
        × IsCurrent df (target_of n target s) base_fit last
        × (member_text r.candidate_id pool ≡ true)
  unfolding run_loop
  run_loop-pool s before after r target base_fit passed skilled =
      let df = before ++ r ∷ after in
      let t = target_of n target s in
      let start = look n df t base_fit (first n s) in
      let last = loop n (s.max_loop_iterations + 1) df t base_fit start in
      let current =
        loop-IsCurrent df t base_fit (s.max_loop_iterations + 1) start
          (look-IsCurrent df t base_fit (first n s)) in
      let kept : keeps n (min_fit n last base_fit) r ≡ true = unfold keeps in ground arith in
      (current.pool, current, rw current.pool (retrieve-kept last r before after base_fit kept))
