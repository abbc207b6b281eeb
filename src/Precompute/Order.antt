-- ===== src/Precompute/Order.antt =====
-- Lists in an order, for the provisional order of precompute.py: how they are reversed, counted and
-- cut.
use mathlib.Core.List.{reverse, reverse-cons}
use provenancerank.Prelude.{
  ℕ, zero, suc, ◌+◌, ◌≤◌, ◌<◌, ◌≡◌, refl, Bool, true, false, List, [], ◌∷◌, ◌++◌, length, take,
  count_by, All, All-append, All_weaken, if◌then◌else◌, Bool-cases, inl, inr, arith,
}
use provenancerank.Bm25.{item_or, indices_from}

module _ {ℓ} {A : Type ℓ} where
  count_by-append :
      (p : A → Bool) (xs ys : List A) → count_by p (xs ++ ys) ≡ count_by p xs + count_by p ys
  count_by-append p [] ys = omega arith
  count_by-append p (x ∷ xs) ys = omega (arith, count_by-append p xs ys)

  pub count_by-reverse : (p : A → Bool) (xs : List A) → count_by p (reverse xs) ≡ count_by p xs
  count_by-reverse p [] = refl
  count_by-reverse p (x ∷ xs) =
      rw (reverse-cons x xs)
        (omega (arith, count_by-append p (reverse xs) (x ∷ []), count_by-reverse p xs))

  count_by_none : (p : A → Bool) (xs : List A) → All (λ x. p x ≡ false) xs → count_by p xs ≡ 0
  count_by_none p [] h = refl
  count_by_none p (x ∷ xs) (e, h) = rw (e, count_by_none p xs h) refl

  -- Each element stands in the relation to all that follow it.
  unfoldable pub Ordered {κ} : (A → A → Type κ) → List A → Type (ℓ ⊔ κ)
  Ordered R [] = Unit
  Ordered R (x ∷ xs) = All (R x) xs × Ordered R xs

  All-reverse {κ} : (P : A → Type κ) (xs : List A) → All P xs → All P (reverse xs)
  All-reverse P [] ps = tt
  All-reverse P (x ∷ xs) (p, ps) =
      rw (reverse-cons x xs) (All-append P (reverse xs) (x ∷ []) (All-reverse P xs ps) (p, tt))

  Ordered-append_one {κ} :
      (R : A → A → Type κ) (xs : List A) (y : A)
      → Ordered R xs
      → All (λ x. R x y) xs
      → Ordered R (xs ++ y ∷ [])
  unfolding Ordered
  Ordered-append_one R [] y ps qs = (tt, tt)
  Ordered-append_one R (x ∷ xs) y (p, ps) (q, qs) =
      (All-append (R x) xs (y ∷ []) p (q, tt), Ordered-append_one R xs y ps qs)

  pub Ordered-reverse {κ} :
      (R S : A → A → Type κ) (xs : List A)
      → ((x y : A) → R x y → S y x)
      → Ordered R xs
      → Ordered S (reverse xs)
  unfolding Ordered
  Ordered-reverse R S [] h ps = tt
  Ordered-reverse R S (x ∷ xs) h (p, ps) = rw (reverse-cons x xs) (
      Ordered-append_one S (reverse xs) x (Ordered-reverse R S xs h ps)
        (All-reverse (λ y. S y x) xs (All_weaken (R x) (λ y. S y x) xs (h x) p)))

  pub All-take_less {κ} :
      (P : A → Type κ) (k m : ℕ) (xs : List A) → k ≤ m → All P (take m xs) → All P (take k xs)
  All-take_less P zero m xs h ps = tt
  All-take_less P (suc k) m [] h ps = tt
  All-take_less P (suc k) zero (x ∷ xs) h ps = absurd (omega arith)
  All-take_less P (suc k) (suc m) (x ∷ xs) h (p, ps) = (p, All-take_less P k m xs (omega arith) ps)

  -- In a list where nothing finite follows what is bad, the first elements, as many as the finite
  -- ones are, are not bad.
  pub first_good :
      (bad finite : A → Bool) (xs : List A)
      → ((x : A) → bad x ≡ true → finite x ≡ false)
      → Ordered (λ x y. bad x ≡ true → finite y ≡ false) xs
      → All (λ x. bad x ≡ false) (take (count_by finite xs) xs)
  unfolding Ordered
  first_good bad finite [] h ps = tt
  first_good bad finite (x ∷ xs) h (p, ps) = elim (Bool-cases (bad x)) [
    | inl e ↦ rw (h x e, count_by_none finite xs (All_weaken _ _ xs (λ y q. q e) p)) tt
    | inr e ↦
        All-take_less _ _ (suc (count_by finite xs)) (x ∷ xs) (more (finite x) (count_by finite xs))
          (e, first_good bad finite xs h ps)
  ]
    where
      more : (b : Bool) (k : ℕ) → (if b then 1 else 0) + k ≤ suc k
      more b k = ground arith

pub count_by-indices_from {ℓ} :
    {A : Type ℓ} (p : A → Bool) (f : ℕ → Bool) (other : A) (i : ℕ) (xs : List A)
    → ((d j : ℕ) → j ≡ i + d → d < length xs → f j ≡ p (item_or other xs d))
    → count_by f (indices_from i (length xs)) ≡ count_by p xs
unfolding indices_from item_or
count_by-indices_from p f other i [] h = refl
count_by-indices_from p f other i (x ∷ xs) h =
    rw
      (
        h 0 i (omega arith) (omega arith),
        count_by-indices_from p f other (i + 1) xs
            (λ d j e below. h (suc d) j (omega arith) (omega arith)),
      )
      refl
