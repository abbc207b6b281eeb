-- ===== src/Reasoning/Dedup.antt =====
-- What the last pass of output/reasoning_generator.py leaves at each place.
use provenancerank.Prelude.{
  ap, ◌∙◌, ℕ, suc, ◌+◌, ◌≡◌, refl, Bool, true, false, ◌||◌, List, [], ◌∷◌, ◌++◌, length, arith,
  if◌then◌else◌,
}
use provenancerank.Floats.{Float}
use provenancerank.Text.{Text, text_eqb, member_text}
use provenancerank.Reasoning.{
  Printer, Row, generate_reasoning, generate_from, marked, mark_repeats, generate_all,
}

module _ (n : Float) (p : Printer n) where
  -- The list has this element after as many as that list has.
  abbrev pub IsAt {ℓ κ} : {A : Type ℓ} {B : Type κ} → A → List B → List A → Type ℓ
  IsAt x before xs =
      (front : _) × (back : _) × (xs ≡ front ++ x ∷ back) × (length front ≡ length before)

  IsAt-cons :
      {A B : Type 0} (b : B) (x : A) (before : List B) (y : A) (xs : List A)
      → IsAt x before xs
      → IsAt x (b ∷ before) (y ∷ xs)
  IsAt-cons b x before y xs (front, back, eq, same) =
      (y ∷ front, back, ap (λ rest. y ∷ rest) eq, ap suc same)

  IsAt-same :
      {A B : Type 0} {x y : A} (before : List B) (xs : List A)
      → x ≡ y
      → IsAt x before xs
      → IsAt y before xs
  IsAt-same before xs e (front, back, eq, same) =
      (front, back, eq ∙ ap (λ z. front ++ z ∷ back) e, same)

  or_false : (a : Bool) → (a || false) ≡ a
  or_false a = ground arith

  -- The sentence of a row, after these texts.
  settled : Bool → Text → Text → Text
  settled repeated text cid = if repeated then marked n p text cid else text

  regroup : (a b c : Bool) → (b || (if a then true else c)) ≡ ((if a then true else b) || c)
  regroup a b c = ground arith

  at_start : (k rank : ℕ) → k ≡ rank + 0 → k ≡ rank
  at_start k rank h = omega (arith, h)

  mark_repeats-IsAt :
      (seen : List Text) (rank k : ℕ) (before : List (Row n p)) (r : Row n p)
      (after : List (Row n p))
      → k ≡ rank + length before
      → let text = generate_reasoning n p r k in
        IsAt
          (settled
            (member_text text (generate_from n p rank before) || member_text text seen)
            text
            r.candidate_id)
          before
          (mark_repeats n p seen
            (before ++ r ∷ after)
            (generate_from n p rank (before ++ r ∷ after)))
  unfolding mark_repeats generate_from member_text settled
  mark_repeats-IsAt seen rank k [] r after h = rw (at_start k rank h) ([], _, refl, refl)
  mark_repeats-IsAt seen rank k (b ∷ before) r after h =
      let text = generate_reasoning n p r k in
      let first = generate_reasoning n p b rank in
      IsAt-cons b _ before (settled (member_text first seen) first b.candidate_id) _ (
        IsAt-same before _
          (ap (λ repeated. settled repeated text r.candidate_id)
            (regroup (text_eqb text first) _ _))
          (mark_repeats-IsAt (first ∷ seen) (rank + 1) k before r after (omega (arith, h))))

  -- What the duplicates get: in the list of all sentences the one of a row stands at the row's place,
  -- and it is the row's own sentence for its rank, unless the row of a better rank has the same one; in
  -- that case its last character gives way to the last four characters of the candidate's id, in
  -- brackets.
  pub generate_all-IsAt :
      (before : List (Row n p)) (r : Row n p) (after : List (Row n p))
      → let text = generate_reasoning n p r (1 + length before) in
        IsAt
          (if member_text text (generate_from n p 1 before)
            then marked n p text r.candidate_id
            else text)
          before
          (generate_all n p (before ++ r ∷ after))
  unfolding generate_all settled member_text
  generate_all-IsAt before r after =
      let text = generate_reasoning n p r (1 + length before) in
      IsAt-same before _
        (ap (λ repeated. settled repeated text r.candidate_id)
          (or_false (member_text text (generate_from n p 1 before))))
        (mark_repeats-IsAt [] 1 (1 + length before) before r after refl)
