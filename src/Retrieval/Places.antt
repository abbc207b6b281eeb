-- ===== src/Retrieval/Places.antt =====
-- What `_ranks` of pipeline/retrieval.py gives.
use provenancerank.Prelude.{
  ℕ, ◌≡◌, refl, ◌∙◌, not, ◌&&◌, ◌||◌, List, [], ◌∷◌, map, All, All_weaken, All_both, map-All,
  All-sort_by_back, count_by, count_by-sort_by, ltb, arith,
}
use provenancerank.Floats.{Float}
use provenancerank.Retrieval.{enumerate, place_of, descending, ranks}
use provenancerank.Retrieval.Order.{
  OrdersScores, Entry, beaten, Better, Ordered, sorted, enumerate-From, sorted-Ordered,
}

module _ (n : Float) where
  open n use {Value, less}

  -- How many of the scores are greater, or as great and earlier.
  abbrev pub better_count : List Value → Entry n → ℕ
  better_count scores e =
      count_by (λ f. less e.1 f.1 || (not (less f.1 e.1) && ltb f.0 e.0)) (enumerate 0 scores)

  -- The place is the number of the entries that beat this one.
  Placed : List (Entry n) → Entry n → Type 0
  Placed es e = place_of e.0 (map (λ f. f.0) es) ≡ count_by (beaten n e) es

  none_beats :
      (x : Entry n) (ys : List (Entry n)) → All (Better n x) ys → count_by (beaten n x) ys ≡ 0
  none_beats x [] h = refl
  none_beats x (y ∷ ys) (b, h) = ground (arith, b, none_beats x ys h)

  place_head :
      OrdersScores n → (x : Entry n) (ys : List (Entry n)) → All (Better n x) ys → Placed (x ∷ ys) x
  unfolding place_of Placed
  place_head o x ys h = ground (arith, o.asym x.1 x.1, none_beats x ys h)

  place_tail :
      (x e : Entry n) (ys : List (Entry n)) → Better n x e → Placed ys e → Placed (x ∷ ys) e
  unfolding place_of Placed
  place_tail x e ys b h = ground (arith, b, h)

  place_all : OrdersScores n → (es : List (Entry n)) → Ordered n es → All (Placed es) es
  place_all o [] h = tt
  place_all o (x ∷ ys) (best, h) = (
    place_head o x ys best,
    All_both (Placed (x ∷ ys)) ys (λ e b p. place_tail x e ys b p) best (place_all o ys h),
  )

  -- The fast ranking is the naive one: where `<` orders the scores, the rank that the sort gives each
  -- candidate is the number of the candidates with a greater score, or as great a score and an earlier
  -- place in the array.
  pub ranks-better_count :
      (scores : List Value)
      → OrdersScores n
      → ranks n scores ≡ map (better_count scores) (enumerate 0 scores)
  unfolding ranks descending Placed
  ranks-better_count scores o =
      let entries = enumerate 0 scores in
      let placed =
        place_all o (sorted n entries) (sorted-Ordered n o 0 entries (enumerate-From n 0 scores)) in
      map-All _ _ entries (
        All_weaken _ _ entries (λ e p. p ∙ count_by-sort_by (beaten n e) _ entries)
          (All-sort_by_back _ _ entries placed))
