-- ===== src/Precompute/Head.antt =====
-- Which rows the accuracy layer of precompute.py can lift.
use mathlib.Core.List.{reverse}
use provenancerank.Prelude.{
  ℕ, zero, suc, ◌+◌, ◌≤◌, ◌≡◌, refl, sym, ap, ◌∙◌, Bool, true, false, ◌&&◌, Option, none, some,
  List, [], ◌∷◌, map, length, take, count_by, any, All, ltb, ◌==◌, if◌then◌else◌, if_keeps,
  Bool-cases, inl, inr, arith, ==_iff,
}
use provenancerank.Floats.{Float}
use provenancerank.Text.{Text}
use provenancerank.Bm25.{item_or, indices_from}
use provenancerank.Retrieval.{enumerate}
use provenancerank.Frames.{FrameRow, Frame}
use provenancerank.Precompute.{
  Numpy, is_masked, masked_scores, provisional_scores, provisional_order, score_of, head_column,
  scored_column, head_stage,
}
use provenancerank.Precompute.Order.{
  count_by-reverse, Ordered-reverse, All-take_less, first_good, count_by-indices_from, Ordered,
}

module _ (n : Float) (from_iso : Text → Option ℕ) where
  open n use {Value, less, hundredths}

  -- `np.argsort` gives each index once, and never a greater score before a lesser one; minus infinity
  -- is not finite, and is less than what is finite.
  pub record IsNumpy (np : Numpy n from_iso) : Type 0 where
    pub indices :
        (scores : List Value) (p : ℕ → Bool)
        → count_by p (np.argsort scores) ≡ count_by p (indices_from 0 (length scores))
    pub ascending :
        (scores : List Value)
        → Ordered
            (λ i j. less (item_or np.neg_inf scores j) (item_or np.neg_inf scores i) ≡ false)
            (np.argsort scores)
    pub not_finite : np.is_finite np.neg_inf ≡ false
    pub lowest : (v : Value) → np.is_finite v ≡ true → less np.neg_inf v ≡ true

  module _ (np : Numpy n from_iso) where
    abbrev flags : Bool → List (FrameRow n from_iso) → List Bool
    flags has_gates rows = map (is_masked n from_iso has_gates) rows

    masked_scores-neg_inf :
        (has_gates : Bool) (rows : List (FrameRow n from_iso)) (prov : List Value) (i : ℕ)
        → item_or false (flags has_gates rows) i ≡ true
        → item_or np.neg_inf (masked_scores n from_iso np has_gates rows prov) i ≡ np.neg_inf
    unfolding item_or masked_scores
    masked_scores-neg_inf b [] prov i h = cc
    masked_scores-neg_inf b (r ∷ rows) [] i h = refl
    masked_scores-neg_inf b (r ∷ rows) (p ∷ prov) zero h = rw h refl
    masked_scores-neg_inf b (r ∷ rows) (p ∷ prov) (suc i) h = masked_scores-neg_inf b rows prov i h

    zero_more : (d : ℕ) → 0 + d ≡ d
    zero_more d = omega arith

    beaten : IsNumpy np → (u v : Value) → u ≡ np.neg_inf → less u v ≡ false → np.is_finite v ≡ false
    beaten law u v e below = elim (Bool-cases (np.is_finite v)) [
      | inl finite ↦ absurd (clash _ (sym below ∙ ap (λ w. less w v) e ∙ law.lowest v finite))
      | inr not_finite ↦ not_finite
    ]
      where
        clash : (A : Type 0) → false ≡ true → A
        clash A h = cc

    -- No row of the order's first part, as long as the finite scores are many, is masked.
    provisional_order-unmasked :
        IsNumpy np
        → (df : Frame n from_iso)
        → let (order, valid) = provisional_order n from_iso np df in
          All
            (λ i. item_or false (flags df.columns.gate_passed df.rows) i ≡ false)
            (take valid order)
    unfolding provisional_order provisional_scores
    provisional_order-unmasked law df =
        let scores = provisional_scores n from_iso np df in
        let at : ℕ → Value = item_or np.neg_inf scores in
        let bad : ℕ → Bool = item_or false (flags df.columns.gate_passed df.rows) in
        let low : (i : ℕ) → bad i ≡ true → at i ≡ np.neg_inf =
          λ i h. masked_scores-neg_inf df.columns.gate_passed df.rows _ i h in
        let order = reverse (np.argsort scores) in
        let finite : ℕ → Bool = λ i. np.is_finite (at i) in
        let count : count_by finite order ≡ count_by np.is_finite scores =
          count_by-reverse finite (np.argsort scores)
          ∙ law.indices scores finite
          ∙ count_by-indices_from np.is_finite finite np.neg_inf 0 scores
              (λ d j e h. ap finite (e ∙ zero_more d)) in
        rw (← count) (
          first_good bad finite order (λ i h. ap np.is_finite (low i h) ∙ law.not_finite)
            (Ordered-reverse _ _ (np.argsort scores)
              (λ i j below h. beaten law (at j) (at i) (low j h) below) (law.ascending scores)))

    -- A row with its cell of a column
    pub beside : List (FrameRow n from_iso) → List Value → List (FrameRow n from_iso × Value)
    beside [] vs = []
    beside (r ∷ rows) [] = []
    beside (r ∷ rows) (v ∷ vs) = (r, v) ∷ beside rows vs

    -- What a column holds of the masked rows only.
    abbrev pub masked_cell : Bool → FrameRow n from_iso × Value → Value
    masked_cell has_gates (r, v) = if is_masked n from_iso has_gates r then v else hundredths 0

    any-All :
        (P : ℕ → Type 0) (head : List ℕ) (i : ℕ) → All P head → any head (λ p. p == i) ≡ true → P i
    any-All P [] i ps h = cc
    any-All P (p ∷ head) i (here, ps) h = elim (Bool-cases (p == i)) [
      | inl e ↦ rw (sym ((==_iff p i).0 e)) here
      | inr e ↦ any-All P head i ps (ground (arith, h, e))
    ]

    -- The column that the first `top` of the order get
    pub column_or_zeros : Option (List Value) → List (FrameRow n from_iso) → List Value
    column_or_zeros none rows = map (λ r. hundredths 0) rows
    column_or_zeros (some column) rows = column

    head_column-unmasked :
        (has_gates : Bool) (head : List ℕ) (scores : List (Text × Value)) (bad : ℕ → Bool) (i : ℕ)
        (rows : List (FrameRow n from_iso))
        → All (λ j. bad j ≡ false) head
        → ((d j : ℕ) → j ≡ i + d → item_or false (flags has_gates rows) d ≡ bad j)
        → All
            (λ c. masked_cell has_gates c ≡ hundredths 0)
            (beside rows (
              map
                (λ e.
                  if any head (λ p. p == e.0)
                  then score_of n from_iso scores e.1.features.candidate_id
                  else hundredths 0)
                (enumerate i rows)))
    unfolding beside enumerate item_or
    head_column-unmasked b head scores bad i [] good h = tt
    head_column-unmasked b head scores bad i (r ∷ rows) good h = (
      elim (Bool-cases (any head (λ p. p == i))) [
        | inl e ↦ rw (e, h 0 i (omega arith) ∙ any-All (λ j. bad j ≡ false) head i good e) refl
        | inr e ↦ rw e (if_keeps (λ v. v ≡ hundredths 0) (is_masked n from_iso b r) refl refl)
      ],
      head_column-unmasked b head scores bad (i + 1) rows good (λ d j e. h (suc d) j (omega arith)),
    )

    none_masked :
        (has_gates : Bool) (rows : List (FrameRow n from_iso))
        → All
            (λ c. masked_cell has_gates c ≡ hundredths 0)
            (beside rows (column_or_zeros none rows))
    unfolding beside column_or_zeros
    none_masked b [] = tt
    none_masked b (r ∷ rows) =
        (if_keeps (λ v. v ≡ hundredths 0) (is_masked n from_iso b r) refl refl, none_masked b rows)

    scored_column-unmasked :
        (has_gates : Bool) (head : List ℕ) (bad : ℕ → Bool) (rows : List (FrameRow n from_iso))
        → All (λ j. bad j ≡ false) head
        → ((d j : ℕ) → j ≡ 0 + d → item_or false (flags has_gates rows) d ≡ bad j)
        → (scores : Option (List (Text × Value)))
        → All
            (λ c. masked_cell has_gates c ≡ hundredths 0)
            (beside rows (column_or_zeros (scored_column n from_iso head rows scores) rows))
    unfolding scored_column head_column column_or_zeros
    scored_column-unmasked b head bad rows good h none = none_masked b rows
    scored_column-unmasked b head bad rows good h (some scores) =
        head_column-unmasked b head scores bad 0 rows good h

    smaller : (k m : ℕ) → (if ltb m k then m else k) ≤ m
    smaller k m = ground arith

  -- Whatever the scores of the head are, and whether the stage is on, ends well or raises: where
  -- NumPy's functions do as they say, a stage of the accuracy layer over the first rows of the
  -- provisional order leaves every honeypot and every row that a gate stopped at 0.
  pub head_stage-unmasked :
      (np : Numpy n from_iso)
      → IsNumpy np
      → (df : Frame n from_iso) (enabled : Bool) (top : ℕ)
        (score : List ℕ → Option (List (Text × Value)))
      → All
          (λ c. masked_cell np df.columns.gate_passed c ≡ hundredths 0)
          (beside np df.rows (
            column_or_zeros np
              (head_stage n from_iso enabled top score (provisional_order n from_iso np df) df.rows)
              df.rows))
  unfolding head_stage
  head_stage-unmasked np law df enabled top score =
      let (order, valid) = provisional_order n from_iso np df in
      let k = if ltb valid top then valid else top in
      let bad : ℕ → Bool = item_or false (flags np df.columns.gate_passed df.rows) in
      if_keeps
        (λ column.
          All (λ c. masked_cell np df.columns.gate_passed c ≡ hundredths 0)
            (beside np df.rows (column_or_zeros np column df.rows)))
        (enabled && ltb 1 valid)
        (scored_column-unmasked np df.columns.gate_passed (take k order) bad df.rows
          (All-take_less (λ i. bad i ≡ false) k valid order (smaller np top valid)
            (provisional_order-unmasked np law df))
          (λ d j e. ap bad (sym (e ∙ zero_more np d))) (score (take k order)))
        (none_masked np df.columns.gate_passed df.rows)
