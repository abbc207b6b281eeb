-- ===== src/Precompute/Tests.antt =====
-- The head of precompute.py on two profiles, one of them a honeypot, with 0 as minus infinity.
use provenancerank.Prelude.{
  ℕ, ◌≡◌, refl, Bool, true, false, none, some, Option, List, [], ◌∷◌, length, map, All, All_weaken,
  All-insert_by, insert_by, sort_by, count_by-sort_by, ltb, Bool-cases, inl, inr, arith,
}
use provenancerank.Floats.Sample.{sample}
use provenancerank.Text.{Text, codes}
use provenancerank.Candidates.Sample.{read_ordinal, candidate, trap}
use provenancerank.Features.Signals.{SignalSettings}
use provenancerank.Features.Row.{build_feature_row}
use provenancerank.Frames.{Frame}
use provenancerank.Bm25.{item_or, indices_from}
use provenancerank.Precompute.{Numpy, provisional_order, head_stage}
use provenancerank.Precompute.Order.{Ordered}
use provenancerank.Precompute.Head.{
  IsNumpy, masked_cell, beside, column_or_zeros, head_stage-unmasked,
}

-- Sorting by a key
module _ (key : ℕ → ℕ) where
  abbrev InOrder : ℕ → ℕ → Type 0
  InOrder i j = ltb (key j) (key i) ≡ false

  abbrev later : ℕ → ℕ → Bool
  later y x = ltb (key y) (key x)

  asym : (x y : ℕ) → later y x ≡ true → InOrder y x
  asym x y e = ground (arith, e)

  after : (x y z : ℕ) → InOrder x y → InOrder y z → InOrder x z
  after x y z e f = ground (arith, e, f)

  insert_by-Ordered :
      (x : ℕ) (ys : List ℕ) → Ordered InOrder ys → Ordered InOrder (insert_by later x ys)
  unfolding insert_by Ordered
  insert_by-Ordered x [] ps = (tt, tt)
  insert_by-Ordered x (y ∷ ys) (p, ps) = elim (Bool-cases (later y x)) [
    | inl e ↦ rw e (All-insert_by (InOrder y) later x ys (asym x y e) p, insert_by-Ordered x ys ps)
    | inr e ↦ rw e ((e, All_weaken (InOrder y) (InOrder x) ys (λ z. after x y z e) p), (p, ps))
  ]

  sort_by-Ordered : (xs : List ℕ) → Ordered InOrder (sort_by later xs)
  unfolding sort_by Ordered
  sort_by-Ordered [] = tt
  sort_by-Ordered (x ∷ xs) = insert_by-Ordered x (sort_by later xs) (sort_by-Ordered xs)

abbrev numpy : Numpy sample read_ordinal
numpy = record {
  neg_inf = 0;
  is_finite = λ v. ltb 0 v;
  argsort = λ scores. sort_by (later (item_or 0 scores)) (indices_from 0 (length scores));
}

numpy-IsNumpy : IsNumpy sample read_ordinal numpy
numpy-IsNumpy = record {
  indices =
      λ scores p. count_by-sort_by p (later (item_or 0 scores)) (indices_from 0 (length scores));
  ascending = λ scores. sort_by-Ordered (item_or 0 scores) (indices_from 0 (length scores));
  not_finite = refl;
  lowest = λ v h. h;
}

abbrev settings : SignalSettings sample
settings = record {
  recency_half_life_days = 9000;
  availability_weight = 40;
  engagement_weight = 30;
  trust_weight = 20;
  github_weight = 10;
}

abbrev frame : Frame sample read_ordinal
frame = record {
  columns = record {
    rerank_score = false;
    tournament_score = false;
    llm_fit_score = false;
    evidence_confidence_bonus = true;
    gate_passed = true;
  };
  has_retrieval_score = true;
  rows =
      map
        (λ c. record {
          features = build_feature_row sample read_ordinal settings c;
          retrieval_score = 50;
          rerank_score = none;
          tournament_score = none;
          llm_fit_score = none;
          gate_passed = true;
        })
        (candidate ∷ trap ∷ candidate ∷ []);
}

abbrev scores : List ℕ → Option (List (Text × ℕ))
scores head = some ((codes "CAND_0000001", 90) ∷ [])

head_stage-unmasked_example :
    All
      (λ c. masked_cell sample read_ordinal numpy true c ≡ 0)
      (beside sample read_ordinal numpy frame.rows (
        column_or_zeros sample read_ordinal numpy
          (head_stage sample read_ordinal true 300 scores
            (provisional_order sample read_ordinal numpy frame)
            frame.rows)
          frame.rows))
head_stage-unmasked_example =
    head_stage-unmasked sample read_ordinal numpy numpy-IsNumpy frame true 300 scores
