-- ===== src/Text/Spaces.antt =====
-- `str.strip` on texts with no white space at the ends.
use mathlib.Core.List.{reverse, reverse-reverse, reverse-append}
use provenancerank.Prelude.{
  ℕ, zero, suc, ◌+◌, ◌/◌, ◌%◌, ◌≤◌, inl, inr, Bool-cases, ltb, ◌≡◌, refl, true, false, some, [],
  ◌∷◌, ◌++◌, All, All-append, arith,
}
use provenancerank.Text.{
  Text, is_space, lstrip, strip, decimal, digits_from, format4, all_digits, after_prefix,
}

-- No character is white space.
abbrev pub IsSolid : Text → Type 0
IsSolid = All (λ c. is_space c ≡ false)

lstrip_solid : (s : Text) → IsSolid s → lstrip s ≡ s
unfolding lstrip
lstrip_solid [] h = refl
lstrip_solid (c ∷ s) h = rw h.0

reverse-IsSolid : (s : Text) → IsSolid s → IsSolid (reverse s)
reverse-IsSolid [] h = tt
reverse-IsSolid (c ∷ s) h =
    rw (reverse-append (c ∷ []) s)
      (All-append _ (reverse s) (c ∷ []) (reverse-IsSolid s h.1) (h.0, tt))

pub strip_solid : (s : Text) → IsSolid s → strip s ≡ s
unfolding strip
strip_solid s h =
    rw (lstrip_solid s h) (rw (lstrip_solid (reverse s) (reverse-IsSolid s h)) (reverse-reverse s))

digit-IsSolid : (d : ℕ) → d ≤ 9 → is_space (b'0' + d) ≡ false
unfolding is_space
digit-IsSolid d h = ground arith

digit-IsSolid_point : is_space b'.' ≡ false
unfolding is_space
digit-IsSolid_point = refl

digits_from-All :
    (Q : ℕ → Type 0) (f n : ℕ) → ((d : ℕ) → d ≤ 9 → Q (b'0' + d)) → All Q (digits_from f n)
unfolding digits_from
digits_from-All Q zero n digit = tt
digits_from-All Q (suc f) n digit = elim (Bool-cases (ltb n 10)) [
  | inl small ↦ rw small (digit n (ground arith), tt)
  | inr large ↦ rw large (
      All-append Q (digits_from f (n / 10)) ((b'0' + n % 10) ∷ [])
        (digits_from-All Q f (n / 10) digit) (digit (n % 10) (omega arith), tt))
]

-- What holds of the ten digits holds of every character that `str` prints for a number.
pub decimal-All : (Q : ℕ → Type 0) (n : ℕ) → ((d : ℕ) → d ≤ 9 → Q (b'0' + d)) → All Q (decimal n)
unfolding decimal
decimal-All Q n digit = digits_from-All Q (suc n) n digit

pub decimal-IsSolid : (n : ℕ) → IsSolid (decimal n)
decimal-IsSolid n = decimal-All (λ c. is_space c ≡ false) n digit-IsSolid

pub format4-IsSolid : (u : ℕ) → IsSolid (format4 u)
unfolding format4
format4-IsSolid u =
    All-append (λ c. is_space c ≡ false) (decimal (u / 10000)) _ (decimal-IsSolid (u / 10000))
      (
        digit-IsSolid_point,
        (
          digit-IsSolid ((u / 1000) % 10) (omega arith),
          (
            digit-IsSolid ((u / 100) % 10) (omega arith),
            (
              digit-IsSolid ((u / 10) % 10) (omega arith),
              (digit-IsSolid (u % 10) (omega arith), tt),
            ),
          ),
        ),
      )

pub all_digits-IsSolid : (s : Text) → all_digits s ≡ true → IsSolid s
unfolding all_digits is_space
all_digits-IsSolid [] h = tt
all_digits-IsSolid (c ∷ s) h = (ground arith, all_digits-IsSolid s (ground arith))

pub after_prefix-eq : (p s rest : Text) → after_prefix p s ≡ some rest → s ≡ p ++ rest
unfolding after_prefix
after_prefix-eq [] s rest h = ground arith
after_prefix-eq (c ∷ p) [] rest h = ground arith
after_prefix-eq (c ∷ p) (d ∷ s) rest h = ground (arith, after_prefix-eq p s rest)
