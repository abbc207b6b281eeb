-- ===== src/Prelude/Lists.antt =====
-- Lists measured by native numbers, under the library's names, and predicates on lists.
use Prim.Native.Nat.{ℕ, zero, suc, ◌+◌, min, ◌≤◌}
use mathlib.Core.Path.{◌≡◌, refl, ap, ◌∙◌}
use mathlib.Core.Logic.{◌⊎◌, ◌↔◌, inl, inr}
use mathlib.Core.Bool.{Bool, true, false, ◌||◌}
use mathlib.Core.List.{List, [], ◌∷◌, ◌++◌, map}
use native.Mathlib.Omega.{arith}
use provenancerank.Prelude.Tests.{if◌then◌else◌, if_keeps, Bool-cases}

module _ {ℓ} {A : Type ℓ} where
  abbrev pub length : List A → ℕ
  length [] = 0
  length (x ∷ xs) = suc (length xs)

  abbrev pub take : ℕ → List A → List A
  take zero xs = []
  take (suc n) [] = []
  take (suc n) (x ∷ xs) = x ∷ take n xs

  abbrev pub replicate : ℕ → A → List A
  replicate zero a = []
  replicate (suc n) a = a ∷ replicate n a

  abbrev pub drop : ℕ → List A → List A
  drop zero xs = xs
  drop (suc n) [] = []
  drop (suc n) (x ∷ xs) = drop n xs

  -- The elements that pass a Boolean test, in order.
  abbrev pub select : (A → Bool) → List A → List A
  select p [] = []
  select p (x ∷ xs) = if p x then x ∷ select p xs else select p xs

  -- How many elements pass a Boolean test.
  abbrev pub count_by : (A → Bool) → List A → ℕ
  count_by p [] = 0
  count_by p (x ∷ xs) = (if p x then 1 else 0) + count_by p xs

  abbrev pub any : List A → (A → Bool) → Bool
  any [] p = false
  any (x ∷ xs) p = p x || any xs p

  -- `sorted`, by a test that says when the second argument goes before the first one's place: equal
  -- elements keep their order.
  unfoldable pub insert_by : (A → A → Bool) → A → List A → List A
  insert_by before x [] = x ∷ []
  insert_by before x (y ∷ ys) =
      let rest = insert_by before x ys in if before y x then y ∷ rest else x ∷ y ∷ ys

  unfoldable pub sort_by : (A → A → Bool) → List A → List A
  unfolding insert_by
  sort_by before [] = []
  sort_by before (x ∷ xs) = insert_by before x (sort_by before xs)

  abbrev pub All {κ} : (A → Type κ) → List A → Type κ
  All P [] = Unit
  All P (x ∷ xs) = P x × All P xs

module _ {ℓ} {A : Type ℓ} where
  pub length-append : (xs ys : List A) → length (xs ++ ys) ≡ length xs + length ys
  length-append [] ys = omega arith
  length-append (x ∷ xs) ys = omega (arith, length-append xs ys)

  pub length-take : (n : ℕ) (xs : List A) → length (take n xs) ≡ min n (length xs)
  length-take zero xs = omega arith
  length-take (suc n) [] = omega arith
  length-take (suc n) (x ∷ xs) = omega (arith, length-take n xs)

  pub length-take_le : (n : ℕ) (xs : List A) → length (take n xs) ≤ n
  length-take_le n xs = omega (arith, length-take n xs)

  pub length-select : (p : A → Bool) (xs : List A) → length (select p xs) ≡ count_by p xs
  length-select p [] = refl
  length-select p (x ∷ xs) = ground (arith, length-select p xs)

  pub drop_none : (m : ℕ) (xs : List A) → m ≡ 0 → drop m xs ≡ xs
  drop_none m xs h = rw h

  pub drop_nil : (m : ℕ) → drop {A = A} m [] ≡ []
  drop_nil zero = refl
  drop_nil (suc m) = refl

  pub drop_front : (m n : ℕ) (x : A) (xs : List A) → m ≡ suc n → drop m (x ∷ xs) ≡ drop n xs
  drop_front m n x xs h = rw h

  -- To split on a computed list and keep the equation.
  pub List-cases : (xs : List A) → (xs ≡ []) ⊎ ((x : A) × (rest : List A) × (xs ≡ x ∷ rest))
  List-cases [] = inl refl
  List-cases (x ∷ xs) = inr (x, xs, refl)

  -- Sorting changes no count.
  count_by-insert_by :
      (p : A → Bool) (before : A → A → Bool) (x : A) (xs : List A)
      → count_by p (insert_by before x xs) ≡ count_by p (x ∷ xs)
  unfolding insert_by
  count_by-insert_by p before x [] = refl
  count_by-insert_by p before x (y ∷ ys) = ground (arith, count_by-insert_by p before x ys)

  pub count_by-sort_by :
      (p : A → Bool) (before : A → A → Bool) (xs : List A)
      → count_by p (sort_by before xs) ≡ count_by p xs
  unfolding sort_by
  count_by-sort_by p before [] = refl
  count_by-sort_by p before (x ∷ xs) =
      count_by-insert_by p before x (sort_by before xs)
      ∙ ap (λ k. (if p x then 1 else 0) + k) (count_by-sort_by p before xs)

  length-insert_by :
      (before : A → A → Bool) (x : A) (xs : List A)
      → length (insert_by before x xs) ≡ suc (length xs)
  unfolding insert_by
  length-insert_by before x [] = refl
  length-insert_by before x (y ∷ ys) = ground (arith, length-insert_by before x ys)

  pub length-sort_by :
      (before : A → A → Bool) (xs : List A) → length (sort_by before xs) ≡ length xs
  unfolding sort_by
  length-sort_by before [] = refl
  length-sort_by before (x ∷ xs) =
      length-insert_by before x (sort_by before xs) ∙ ap suc (length-sort_by before xs)

module _ {ℓ κ} {A : Type ℓ} (P : A → Type κ) where
  pub All-insert_by :
      (before : A → A → Bool) (x : A) (xs : List A) → P x → All P xs → All P (insert_by before x xs)
  unfolding insert_by
  All-insert_by before x [] p ps = (p, tt)
  All-insert_by before x (y ∷ ys) p (q, qs) =
      if_keeps (All P) (before y x) (q, All-insert_by before x ys p qs) (p, (q, qs))

  pub All-sort_by : (before : A → A → Bool) (xs : List A) → All P xs → All P (sort_by before xs)
  unfolding sort_by
  All-sort_by before [] ps = tt
  All-sort_by before (x ∷ xs) (p, ps) =
      All-insert_by before x (sort_by before xs) p (All-sort_by before xs ps)

  pub All-take : (k : ℕ) (xs : List A) → All P xs → All P (take k xs)
  All-take zero xs ps = tt
  All-take (suc k) [] ps = tt
  All-take (suc k) (x ∷ xs) (p, ps) = (p, All-take k xs ps)

  pub All-append : (xs ys : List A) → All P xs → All P ys → All P (xs ++ ys)
  All-append [] ys h k = k
  All-append (x ∷ xs) ys (px, h) k = (px, All-append xs ys h k)

  pub All-append_split : (xs ys : List A) → All P (xs ++ ys) → All P xs × All P ys
  All-append_split [] ys h = (tt, h)
  All-append_split (x ∷ xs) ys (px, h) =
      let (left, right) = All-append_split xs ys h in ((px, left), right)

pub All_iff {ℓ κ μ} :
    {A : Type ℓ} {P : A → Type κ} {Q : A → Type μ} (xs : List A)
    → ((x : A) → P x ↔ Q x)
    → All P xs ↔ All Q xs
All_iff [] h = (λ _. tt, λ _. tt)
All_iff (x ∷ xs) h =
    let rest = All_iff xs h in
    (λ (p, ps). ((h x).0 p, rest.0 ps), λ (q, qs). ((h x).1 q, rest.1 qs))

pub append-nil_iff {ℓ} : {A : Type ℓ} (xs ys : List A) → (xs ++ ys ≡ []) ↔ (xs ≡ []) × (ys ≡ [])
append-nil_iff [] ys = (λ e. (refl, e), λ (_, e). e)
append-nil_iff (x ∷ xs) ys = (λ e. cc, λ (e, _). cc)

pub length-map {ℓ κ} :
    {A : Type ℓ} {B : Type κ} (f : A → B) (xs : List A) → length (map f xs) ≡ length xs
length-map f [] = refl
length-map f (x ∷ xs) = ap suc (length-map f xs)

pub All-map {ℓ κ μ} :
    {A : Type ℓ} {B : Type κ} (P : B → Type μ) (f : A → B) (xs : List A)
    → All (λ x. P (f x)) xs
    → All P (map f xs)
All-map P f [] ps = tt
All-map P f (x ∷ xs) (p, ps) = (p, All-map P f xs ps)

-- What is selected passes the test.
pub All-select {ℓ κ} :
    {A : Type ℓ} (P : A → Type κ) (p : A → Bool) (xs : List A)
    → All P xs
    → All (λ x. P x × (p x ≡ true)) (select p xs)
All-select P p [] ps = tt
All-select P p (x ∷ xs) (px, ps) = elim (Bool-cases (p x)) [
  | inl e ↦ rw e ((px, e), All-select P p xs ps)
  | inr e ↦ rw e (All-select P p xs ps)
]

-- To weaken what holds of all.
pub All_weaken {ℓ κ μ} :
    {A : Type ℓ} (P : A → Type κ) (Q : A → Type μ) (xs : List A)
    → ((x : A) → P x → Q x)
    → All P xs
    → All Q xs
All_weaken P Q [] h ps = tt
All_weaken P Q (x ∷ xs) h (p, ps) = (h x p, All_weaken P Q xs h ps)

pub All_both {ℓ κ μ ν} :
    {A : Type ℓ} {P : A → Type κ} {Q : A → Type μ} (R : A → Type ν) (xs : List A)
    → ((x : A) → P x → Q x → R x)
    → All P xs
    → All Q xs
    → All R xs
All_both R [] h ps qs = tt
All_both R (x ∷ xs) h (p, ps) (q, qs) = (h x p q, All_both R xs h ps qs)

-- Functions that agree on the elements map to the same list.
pub map-All {ℓ κ} :
    {A : Type ℓ} {B : Type κ} (f g : A → B) (xs : List A)
    → All (λ x. f x ≡ g x) xs
    → map f xs ≡ map g xs
map-All f g [] h = refl
map-All f g (x ∷ xs) (e, h) = rw (e, map-All f g xs h) refl

module _ {ℓ κ} {A : Type ℓ} (P : A → Type κ) (before : A → A → Bool) where
  back_true : (b : Bool) (xs ys : List A) → b ≡ true → All P (if b then xs else ys) → All P xs
  back_true true xs ys e ps = ps
  back_true false xs ys e ps = cc

  back_false : (b : Bool) (xs ys : List A) → b ≡ false → All P (if b then xs else ys) → All P ys
  back_false true xs ys e ps = cc
  back_false false xs ys e ps = ps

  All-insert_by_back : (x : A) (xs : List A) → All P (insert_by before x xs) → P x × All P xs
  unfolding insert_by
  All-insert_by_back x [] (p, ps) = (p, tt)
  All-insert_by_back x (y ∷ ys) ps = elim (Bool-cases (before y x)) [
    | inl e ↦
        let (q, rest) = back_true (before y x) _ _ e ps in
        let (p, qs) = All-insert_by_back x ys rest in (p, (q, qs))
    | inr e ↦ let (p, (q, qs)) = back_false (before y x) _ _ e ps in (p, (q, qs))
  ]

  -- What holds of the sorted elements holds of the elements.
  pub All-sort_by_back : (xs : List A) → All P (sort_by before xs) → All P xs
  unfolding sort_by
  All-sort_by_back [] ps = tt
  All-sort_by_back (x ∷ xs) ps =
      let (p, rest) = All-insert_by_back x (sort_by before xs) ps in (p, All-sort_by_back xs rest)
