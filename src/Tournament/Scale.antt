-- ===== src/Tournament/Scale.antt =====
-- What the order of the cells decides in pipeline/tournament.py.
use std.Path.{fun_ext}
use mathlib.Core.List.{map-map}
use provenancerank.Prelude.{
  ℕ, ◌+◌, ◌≡◌, refl, sym, ap, ◌∙◌, List, [], ◌∷◌, map, ◌==◌, if◌then◌else◌, length-map,
}
use provenancerank.Floats.{Float}
use provenancerank.Text.{Text}
use provenancerank.Retrieval.{enumerate}
use provenancerank.Tournament.{
  Contender, Head, share, soft_outcomes, pull, bradley_terry, spread_out, zip_ids, present_criteria,
  strengths_of, run_tournament,
}

enumerate-map {ℓ κ} :
    {A : Type ℓ} {B : Type κ} (f : A → B) (i : ℕ) (xs : List A)
    → enumerate i (map f xs) ≡ map (λ e. (e.0, f e.1)) (enumerate i xs)
unfolding enumerate
enumerate-map f i [] = refl
enumerate-map f i (x ∷ xs) = ap (λ rest. (i, f x) ∷ rest) (enumerate-map f (i + 1) xs)

module _ (n : Float) (f : Text → n.Value → n.Value) where
  open n use {Value, less, same, hundredths, total, over}

  -- Each column goes through its own function.
  abbrev pub rescaled_row : Contender n → Contender n
  rescaled_row r = record r { cell = λ c. f c (r.cell c) }

  abbrev pub rescaled : Head n → Head n
  rescaled df = record df { rows = map rescaled_row df.rows }

  abbrev row : List (Text × Value) → Contender n → List Value
  row cols r = map (λ c. r.cell c.0) cols

  -- The outcomes, of whatever two contenders' matches give
  grid : (Contender n → Contender n → Value) → List (Contender n) → List (List Value)
  grid match rows =
      map (λ a. map (λ b. if a.0 == b.0 then hundredths 0 else match a.1 b.1) (enumerate 0 rows))
        (enumerate 0 rows)

  soft_outcomes-grid :
      (g : Contender n → List Value) (weights : List Value) (rows : List (Contender n))
      → soft_outcomes n (map g rows) weights
        ≡ grid (λ a b. share n weights (g a) (g b) (hundredths 0)) rows
  unfolding soft_outcomes grid
  soft_outcomes-grid g weights rows =
      rw (enumerate-map g 0 rows)
        (map-map _ _ _ ∙ ap (λ h. map h (enumerate 0 rows)) (fun_ext (λ a. map-map _ _ _)))

  zip_ids-rescaled :
      (rows : List (Contender n)) (vs : List Value)
      → zip_ids n (map rescaled_row rows) vs ≡ zip_ids n rows vs
  unfolding zip_ids
  zip_ids-rescaled [] vs = refl
  zip_ids-rescaled (r ∷ rows) [] = refl
  zip_ids-rescaled (r ∷ rows) (v ∷ vs) =
      ap (λ rest. (r.candidate_id, v) ∷ rest) (zip_ids-rescaled rows vs)

  module _ (keeps_less : (c : Text) (x y : Value) → less (f c x) (f c y) ≡ less x y)
      (keeps_same : (c : Text) (x y : Value) → same (f c x) (f c y) ≡ same x y) where
    share-rescaled :
        (cols : List (Text × Value)) (weights : List Value) (r s : Contender n) (won : Value)
        → share n weights (row cols (rescaled_row r)) (row cols (rescaled_row s)) won
          ≡ share n weights (row cols r) (row cols s) won
    unfolding share
    share-rescaled cols [] r s won = refl
    share-rescaled [] (w ∷ weights) r s won = refl
    share-rescaled (c ∷ cols) (w ∷ weights) r s won =
        rw (keeps_less c.0 (s.cell c.0) (r.cell c.0), keeps_same c.0 (r.cell c.0) (s.cell c.0))
          (share-rescaled cols weights r s _)

    soft_outcomes-rescaled :
        (cols : List (Text × Value)) (weights : List Value) (rows : List (Contender n))
        → soft_outcomes n (map (row cols) (map rescaled_row rows)) weights
          ≡ soft_outcomes n (map (row cols) rows) weights
    soft_outcomes-rescaled cols weights rows =
        ap (λ values. soft_outcomes n values weights) (map-map (row cols) rescaled_row rows)
        ∙ soft_outcomes-grid (λ r. row cols (rescaled_row r)) weights rows
        ∙ ap (λ match. grid match rows)
            (fun_ext (λ a. fun_ext (λ b. share-rescaled cols weights a b (hundredths 0))))
        ∙ sym (soft_outcomes-grid (row cols) weights rows)

    strengths_of-rescaled :
        (cols : List (Text × Value)) (weights : List Value) (rows : List (Contender n))
        → strengths_of n (map (row cols) (map rescaled_row rows)) weights
          ≡ strengths_of n (map (row cols) rows) weights
    unfolding strengths_of
    strengths_of-rescaled cols weights rows =
        ap (λ wins. spread_out n (bradley_terry n (pull n wins)))
          (soft_outcomes-rescaled cols (map (λ w. over w (total weights)) weights) rows)

  -- The tournament is blind to the scales of the columns: when each column goes through a function of
  -- its own that keeps which of two cells is less and which are the same, every candidate has the
  -- strength that it had, and the candidates stand in the order in which they stood.
  pub run_tournament-rescaled :
      ((c : Text) (x y : Value) → less (f c x) (f c y) ≡ less x y)
      → ((c : Text) (x y : Value) → same (f c x) (f c y) ≡ same x y)
      → (df_head : Head n) → run_tournament n (rescaled df_head) ≡ run_tournament n df_head
  unfolding run_tournament
  run_tournament-rescaled hl hs df =
      let cols = present_criteria n df.columns in
      rw
        (
          length-map rescaled_row df.rows,
          map-map {C = Text × Value} (λ (r : Contender n). (r.candidate_id, hundredths 0))
              rescaled_row df.rows,
          strengths_of-rescaled hl hs cols (map (λ c. c.1) cols) df.rows,
          zip_ids-rescaled df.rows (strengths_of n (map (row cols) df.rows) (map (λ c. c.1) cols)),
        )
        refl
