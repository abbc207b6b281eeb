-- ===== src/Scoring/Final.antt =====
-- What `merge_final_scores` of pipeline/scorer.py promises.
use provenancerank.Prelude.{
  ◌≡◌, refl, inl, inr, ◌||◌, Bool, true, false, not, ◌&&◌, Option, [], if◌then◌else◌, arith,
  Bool-cases,
}
use provenancerank.Floats.{Float, clip}
use provenancerank.Scoring.{
  Weights, Columns, Cells, filled, unit_clip, item, present, scaled, merge_final_scores,
}

-- What Python's `<` says of 0 and 1.
pub record OrdersUnit (n : Float) : Type 0 where
  pub zero_zero : n.less (n.hundredths 0) (n.hundredths 0) ≡ false
  pub one_zero : n.less (n.hundredths 100) (n.hundredths 0) ≡ false
  pub one_one : n.less (n.hundredths 100) (n.hundredths 100) ≡ false

module _ (n : Float) where
  open n use {Value, less, same, hundredths, plus}

  clip-bounds :
      OrdersUnit n
      → (x : Value)
      → (less (unit_clip n x) (hundredths 0) ≡ false)
        × (less (hundredths 100) (unit_clip n x) ≡ false)
  unfolding clip
  clip-bounds h x = ground (arith, h.zero_zero, h.one_zero, h.one_one)

  clip-zero : OrdersUnit n → unit_clip n (hundredths 0) ≡ hundredths 0
  unfolding clip
  clip-zero h = rw (h.zero_zero, h.one_zero) refl

  -- Where `<` says of 0 and 1 what it should, no score is below 0 or above 1, and a candidate that a gate dropped, or that is flagged as a
  -- honeypot, has the score 0, whatever the weights and the other columns are.
  pub merge_final_scores-bounds :
      (s : Weights n) (columns : Columns n) (row : Cells n)
      → OrdersUnit n
      → (less (merge_final_scores n s columns row) (hundredths 0) ≡ false)
        × (less (hundredths 100) (merge_final_scores n s columns row) ≡ false)
        × ((if (columns.gate_passed && not row.gate_passed) || same row.is_honeypot (hundredths 100)
              then merge_final_scores n s columns row
              else hundredths 0)
            ≡ hundredths 0)
  unfolding merge_final_scores
  merge_final_scores-bounds s columns row h =
      let (low, high) = clip-bounds h _ in
      (
        low,
        high,
        elim (Bool-cases (same row.is_honeypot (hundredths 100))) [
          | inl trap ↦ rw (trap, clip-zero h) (ground arith)
          | inr real ↦ elim (Bool-cases (columns.gate_passed && not row.gate_passed)) [
            | inl dropped ↦ rw (real, dropped) (clip-zero h)
            | inr kept ↦ rw (real, kept) refl
          ]
        ],
      )

  item-off :
      (there : Bool) (w : Value) (cell : Option Value)
      → (there && less (hundredths 0) w) ≡ false
      → item n there w cell ≡ []
  unfolding item
  item-off there w cell h = rw h refl

  -- The frame without the columns of the add-ons.
  abbrev pub plain : Columns n → Columns n
  plain columns = record columns {
    rerank_score = false;
    tournament_score = false;
    llm_fit_score = false;
    evidence_confidence_bonus = false;
  }

  -- Each of the three head columns is absent, or has no positive weight.
  pub record HeadOff (s : Weights n) (columns : Columns n) : Type 0 where
    pub rerank_off : (columns.rerank_score && less (hundredths 0) s.rerank) ≡ false
    pub tournament_off : (columns.tournament_score && less (hundredths 0) s.tournament) ≡ false
    pub llm_off : (columns.llm_fit_score && less (hundredths 0) s.llm_score) ≡ false

  present-off :
      (s : Weights n) (columns : Columns n) (row : Cells n)
      → HeadOff s columns
      → present n s columns row ≡ []
  unfolding present
  present-off s columns row off =
      rw
        (
          item-off columns.rerank_score s.rerank row.rerank_score off.rerank_off,
          item-off columns.tournament_score s.tournament row.tournament_score off.tournament_off,
          item-off columns.llm_fit_score s.llm_score row.llm_fit_score off.llm_off,
        )
        refl

  scaled-plain :
      (s : Weights n) (columns : Columns n) (row : Cells n)
      → HeadOff s columns
      → scaled n s columns row ≡ scaled n s (plain columns) row
  unfolding scaled
  scaled-plain s columns row off =
      let gone : HeadOff s (plain columns) = record {
        rerank_off = refl;
        tournament_off = refl;
        llm_off = refl;
      } in
      rw (present-off s columns row off, scaled)
        (rw (present-off s (plain columns) row gone, scaled) refl)

  no_bonus :
      (there : Bool) (x y : Value) (cell : Option Value)
      → ((z : Value) → plus z (hundredths 0) ≡ z)
      → filled n cell ≡ hundredths 0
      → x ≡ y
      → (if there then plus x (filled n cell) else x) ≡ y
  no_bonus true x y cell neutral h e = rw (h, neutral x) e
  no_bonus false x y cell neutral h e = e

  -- The add-ons that are off do not show: where each head column is absent or has no positive weight,
  -- and the candidate's evidence bonus is 0 or missing, the score is that of the frame without any of
  -- those columns, if adding 0 changes no float.
  merge_final_scores-plain :
      (s : Weights n) (columns : Columns n) (row : Cells n)
      → ((x : Value) → plus x (hundredths 0) ≡ x)
      → HeadOff s columns
      → filled n row.evidence_confidence_bonus ≡ hundredths 0
      → merge_final_scores n s columns row ≡ merge_final_scores n s (plain columns) row
  unfolding merge_final_scores
  merge_final_scores-plain s columns row neutral off zero_bonus =
      rw
        (no_bonus columns.evidence_confidence_bonus (scaled n s columns row)
          (scaled n s (plain columns) row) row.evidence_confidence_bonus neutral zero_bonus
          (scaled-plain s columns row off))
        refl
