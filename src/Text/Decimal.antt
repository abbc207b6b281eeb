-- ===== src/Text/Decimal.antt =====
-- Reading back what `str` and the `.4f` format print.
use provenancerank.Prelude.{
  ℕ, zero, suc, ◌+◌, ◌-◌, ◌*◌, ◌/◌, ◌%◌, ◌≤◌, ◌<◌, ◌≡◌, refl, [], ◌∷◌, ◌++◌, ltb, ◌==◌,
  if◌then◌else◌, arith, inl, inr, Bool-cases,
}
use provenancerank.Text.{Text, digits_from, decimal, format4, read_digits}

read_digits-append :
    (acc : ℕ) (s t : Text) → read_digits acc (s ++ t) ≡ read_digits (read_digits acc s) t
unfolding read_digits
read_digits-append acc [] t = refl
read_digits-append acc (c ∷ s) t =
    read_digits-append (if c == b'.' then acc else acc * 10 + (c - b'0')) s t

read_digit : (acc d : ℕ) → d ≤ 9 → read_digits acc ((b'0' + d) ∷ []) ≡ acc * 10 + d
unfolding read_digits
read_digit acc d h = ground arith

read_digits-digits_from : (f n : ℕ) → n < f → read_digits 0 (digits_from f n) ≡ n
unfolding digits_from
read_digits-digits_from zero n h = absurd (omega arith)
read_digits-digits_from (suc f) n h = elim (Bool-cases (ltb n 10)) [
  | inl small ↦ rw (small, read_digit 0 n (ground arith)) (omega arith)
  | inr large ↦ rw large (
      rw (read_digits-append 0 (digits_from f (n / 10)) ((b'0' + n % 10) ∷ [])) (
        rw (read_digits-digits_from f (n / 10) (ground arith))
          (rw (read_digit (n / 10) (n % 10) (omega arith)) (omega arith))))
]

pub read_digits-decimal : (n : ℕ) → read_digits 0 (decimal n) ≡ n
unfolding decimal
read_digits-decimal n = read_digits-digits_from (suc n) n (omega arith)

read_fraction :
    (acc a b c d : ℕ)
    → a ≤ 9
    → b ≤ 9
    → c ≤ 9
    → d ≤ 9
    → read_digits acc (b'.' ∷ (b'0' + a) ∷ (b'0' + b) ∷ (b'0' + c) ∷ (b'0' + d) ∷ [])
      ≡ (((acc * 10 + a) * 10 + b) * 10 + c) * 10 + d
unfolding read_digits
read_fraction acc a b c d ha hb hc hd = ground arith

pub read_digits-format4 : (u : ℕ) → read_digits 0 (format4 u) ≡ u
unfolding format4
read_digits-format4 u = rw (read_digits-append 0 (decimal (u / 10000)) _) (
    rw (read_digits-decimal (u / 10000)) (
      rw
        (read_fraction (u / 10000) ((u / 1000) % 10) ((u / 100) % 10) ((u / 10) % 10) (u % 10)
          (omega arith) (omega arith) (omega arith) (omega arith))
        (omega arith)))
