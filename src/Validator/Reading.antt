-- ===== src/Validator/Reading.antt =====
-- What validate_submission.py reads in single cells.
use provenancerank.Prelude.{
  ℕ, ◌+◌, ◌≤◌, ◌≡◌, refl, ap, true, false, some, [], ◌∷◌, ◌==◌, All, All-append, arith, inl, inr,
  Option-cases,
}
use provenancerank.Text.{Text, codes, is_space, strip, after_prefix, decimal}
use provenancerank.Text.Spaces.{
  IsSolid, strip_solid, decimal-All, decimal-IsSolid, after_prefix-eq, all_digits-IsSolid,
}
use provenancerank.Text.Order.{text_eqb_iff}
use provenancerank.Text.Decimal.{read_digits-decimal}
use provenancerank.Validator.{
  pos, is_candidate_id, is_empty, parse_nat, minus_of, nonneg_of, parse_int,
}

parse_nat-decimal : (n : ℕ) → parse_nat (decimal n) ≡ some n
unfolding parse_nat
parse_nat-decimal n =
    rw (read_digits-decimal n) (rw ((text_eqb_iff (decimal n) (decimal n)).1 refl) refl)

parse_int-pos :
    (s : Text) (n : ℕ)
    → All (λ c. (c == b'-') ≡ false) s
    → parse_nat s ≡ some n
    → parse_int s ≡ some (pos n)
unfolding parse_int parse_nat minus_of nonneg_of
parse_int-pos [] n all h = cc
parse_int-pos (c ∷ s) n (digit, all) h = rw digit (ap nonneg_of h)

digit_ne_sign : (d : ℕ) → d ≤ 9 → (b'0' + d == b'-') ≡ false
digit_ne_sign d h = ground arith

-- The rank that `str` prints is read back as the same number.
pub parse_int-decimal : (n : ℕ) → parse_int (strip (decimal n)) ≡ some (pos n)
parse_int-decimal n = rw (strip_solid (decimal n) (decimal-IsSolid n)) (
    parse_int-pos (decimal n) n (decimal-All (λ c. (c == b'-') ≡ false) n digit_ne_sign)
      (parse_nat-decimal n))

-- An id of the required form has no white space.
pub is_candidate_id-IsSolid : (s : Text) → is_candidate_id s ≡ true → IsSolid s
unfolding is_candidate_id is_space
is_candidate_id-IsSolid s h = elim (Option-cases (after_prefix (codes "CAND_") s)) [
  | inl e ↦ absurd (ground arith)
  | inr (rest, e) ↦ rw (after_prefix-eq (codes "CAND_") s rest e) (
      All-append (λ c. is_space c ≡ false) (codes "CAND_") rest
        (refl, (refl, (refl, (refl, (refl, tt))))) (all_digits-IsSolid rest (ground arith)))
]

pub is_candidate_id-ne-nil : (s : Text) → is_candidate_id s ≡ true → is_empty s ≡ false
unfolding is_candidate_id
is_candidate_id-ne-nil [] h = ground arith
is_candidate_id-ne-nil (c ∷ s) h = refl
