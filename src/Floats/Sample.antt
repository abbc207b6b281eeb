-- ===== src/Floats/Sample.antt =====
-- Whole hundredths in place of floats, for concrete runs. A number below 0 is coded as a
-- million and more, which no run compares, and the functions of `math` are crude.
use provenancerank.Prelude.{
  if◌then◌else◌, List, [], ◌∷◌, length, ℕ, ◌+◌, ◌-◌, ◌*◌, ◌/◌, leb, ltb, ◌==◌,
}
use provenancerank.Floats.{Float}

abbrev pub sum : List ℕ → ℕ
sum [] = 0
sum (x ∷ xs) = x + sum xs

abbrev pub sample : Float
sample = record {
  Value = ℕ;
  less = ltb;
  geq = λ a b. leb b a;
  same = λ a b. a == b;
  hundredths = λ h. h;
  plus = λ a b. a + b;
  minus = λ a b. if ltb a b then 1000000 + (b - a) else a - b;
  times = λ a b. (a * b) / 100;
  over = λ a b. (100 * a) / b;
  of_nat = λ k. 100 * k;
  ratio = λ a b. (100 * a) / b;
  of_difference = λ a b. 100 * (a - b);
  mean = λ xs. sum xs / length xs;
  round3 = λ x. x;
  total = λ xs. sum xs;
  whole = λ v. v / 100;
  single = λ x. x;
  absolute = λ x. if ltb x 1000000 then x else x - 1000000;
  sqrt = λ x. x;
  exp = λ x. 100;
  power_of_two = λ x. 100;
  log1p = λ x. x;
  tanh = λ x. x;
}
