-- ===== src/Results.antt =====
-- Errors as values: what a function of the program returns, or the exception that it raises.
use provenancerank.Prelude.{◌≡◌, refl, Option, none, some}

pub data Result (E A : Type 0) : Type 0 where
  ok : A → Result E A
  error : E → Result E A

infixl 5 ◌>>=◌
abbrev pub ◌>>=◌ : {E A B : Type 0} → Result E A → (A → Result E B) → Result E B
ok a >>= f = f a
error e >>= f = error e

unfoldable pub or_error : {E A : Type 0} → E → Option A → Result E A
or_error e none = error e
or_error e (some a) = ok a

-- Inversion of a successful bind.
pub >>=-ok :
    {E A B : Type 0} (m : Result E A) (f : A → Result E B) {b : B}
    → (m >>= f) ≡ ok b
    → (a : A) × (m ≡ ok a) × (f a ≡ ok b)
>>=-ok (ok a) f h = (a, refl, h)
>>=-ok (error e) f h = cc

pub ok_injective : {E A : Type 0} {a b : A} → Path (Result E A) (ok a) (ok b) → a ≡ b
ok_injective h = cc
