-- ===== src/Submission/Sorted.antt =====
-- The order and the distinctness of what output/submission_writer.py sorts.
use provenancerank.Prelude.{
  ℕ, zero, suc, ◌≡◌, true, false, List, [], ◌∷◌, take, All, arith, insert_by, sort_by,
  All-insert_by, All-sort_by, All-take, length-sort_by, length, Bool-cases, inl, inr,
}
use provenancerank.Text.{Text, text_eqb}
use provenancerank.Text.Order.{text_ltb_asym, text_eqb_sym}
use provenancerank.Submission.{Work, before, sort_values}

-- No neighbour on the right should stand before its neighbour on the left.
abbrev pub InOrder : Work → List Work → Type 0
InOrder x [] = Unit
InOrder x (y ∷ ys) = (before y x ≡ false) × InOrder y ys

abbrev pub Sorted : List Work → Type 0
Sorted [] = Unit
Sorted (x ∷ xs) = InOrder x xs

before_asym : (x y : Work) → before x y ≡ true → before y x ≡ false
unfolding before
before_asym x y h = ground (arith, text_ltb_asym x.candidate_id y.candidate_id)

insert-InOrder :
    (p x : Work) (ys : List Work)
    → before x p ≡ false
    → InOrder p ys
    → InOrder p (insert_by before x ys)
unfolding insert_by
insert-InOrder p x [] h all = (h, tt)
insert-InOrder p x (y ∷ ys) h (step, rest) = elim (Bool-cases (before y x)) [
  | inl first ↦ rw first (step, insert-InOrder y x ys (before_asym y x first) rest)
  | inr later ↦ rw later (h, (later, rest))
]

insert-Sorted : (x : Work) (ys : List Work) → Sorted ys → Sorted (insert_by before x ys)
unfolding insert_by
insert-Sorted x [] h = tt
insert-Sorted x (y ∷ ys) h = elim (Bool-cases (before y x)) [
  | inl first ↦ rw first (insert-InOrder y x ys (before_asym y x first) h)
  | inr later ↦ rw later (later, h)
]

pub sort_values-Sorted : (xs : List Work) → Sorted (sort_values xs)
unfolding sort_values sort_by
sort_values-Sorted [] = tt
sort_values-Sorted (x ∷ xs) = insert-Sorted x (sort_values xs) (sort_values-Sorted xs)

take-InOrder : (n : ℕ) (x : Work) (xs : List Work) → InOrder x xs → InOrder x (take n xs)
take-InOrder zero x xs h = tt
take-InOrder (suc n) x [] h = tt
take-InOrder (suc n) x (y ∷ ys) (step, rest) = (step, take-InOrder n y ys rest)

pub take-Sorted : (n : ℕ) (xs : List Work) → Sorted xs → Sorted (take n xs)
take-Sorted zero xs h = tt
take-Sorted (suc n) [] h = tt
take-Sorted (suc n) (x ∷ xs) h = take-InOrder n x xs h

-- The row's id is none of those.
abbrev pub Other : Text → Work → Type 0
Other s y = text_eqb s y.candidate_id ≡ false

-- No id stands twice.
abbrev pub Distinct : List Work → Type 0
Distinct [] = Unit
Distinct (x ∷ xs) = All (Other x.candidate_id) xs × Distinct xs

pub sort_values-All : (Q : Work → Type 0) (xs : List Work) → All Q xs → All Q (sort_values xs)
unfolding sort_values sort_by
sort_values-All Q xs all = All-sort_by Q before xs all

insert-Distinct :
    (x : Work) (ys : List Work)
    → All (Other x.candidate_id) ys
    → Distinct ys
    → Distinct (insert_by before x ys)
unfolding insert_by
insert-Distinct x [] h all = (tt, tt)
insert-Distinct x (y ∷ ys) (other, h) (apart, all) = elim (Bool-cases (before y x)) [
  | inl first ↦ rw first (
    All-insert_by (Other y.candidate_id) before x ys
        (rw (text_eqb_sym y.candidate_id x.candidate_id) other) apart,
    insert-Distinct x ys h all,
  )
  | inr later ↦ rw later ((other, h), (apart, all))
]

pub sort_values-Distinct : (xs : List Work) → Distinct xs → Distinct (sort_values xs)
unfolding sort_values sort_by
sort_values-Distinct [] h = tt
sort_values-Distinct (x ∷ xs) (apart, h) =
    insert-Distinct x (sort_values xs) (sort_values-All (Other x.candidate_id) xs apart)
      (sort_values-Distinct xs h)

pub take-Distinct : (n : ℕ) (xs : List Work) → Distinct xs → Distinct (take n xs)
take-Distinct zero xs h = tt
take-Distinct (suc n) [] h = tt
take-Distinct (suc n) (x ∷ xs) (apart, h) =
    (All-take (Other x.candidate_id) n xs apart, take-Distinct n xs h)

pub length-sort_values : (xs : List Work) → length (sort_values xs) ≡ length xs
unfolding sort_values
length-sort_values xs = length-sort_by before xs
