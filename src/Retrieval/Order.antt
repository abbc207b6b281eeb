-- ===== src/Retrieval/Order.antt =====
-- The stable sort behind `_ranks` of pipeline/retrieval.py puts the entries in a strict order.
use provenancerank.Prelude.{
  ℕ, ◌+◌, ◌≤◌, ◌<◌, ◌≡◌, ◌⊎◌, inl, inr, Bool, true, false, not, ◌&&◌, ◌||◌, List, [], ◌∷◌, All,
  All-insert_by, All-sort_by, insert_by, sort_by, ltb, ◌==◌, arith, Bool-cases,
}
use provenancerank.Floats.{Float}
use provenancerank.Retrieval.{enumerate}

-- What `<` says of scores without NaN.
pub record OrdersScores (n : Float) : Type 0 where
  pub asym : (x y : n.Value) → n.less x y ≡ true → n.less y x ≡ false
  pub between : (x y z : n.Value) → n.less x z ≡ true → (n.less x y ≡ true) ⊎ (n.less y z ≡ true)

module _ (n : Float) where
  open n use {Value, less}

  abbrev pub Entry : Type 0
  Entry = ℕ × Value

  -- The second entry is the better one: its score is greater, or as great with a smaller index.
  abbrev pub beaten : Entry → Entry → Bool
  beaten e f = less e.1 f.1 || (not (less f.1 e.1) && ltb f.0 e.0)

  -- The first entry is strictly better than the second, which is another one.
  abbrev pub Better : Entry → Entry → Type 0
  Better x y = (beaten y x ≡ true) × (beaten x y ≡ false) × ((y.0 == x.0) ≡ false)

  abbrev pub Ordered : List Entry → Type 0
  Ordered [] = Unit
  Ordered (x ∷ xs) = All (Better x) xs × Ordered xs

  abbrev pub sorted : List Entry → List Entry
  sorted = sort_by (λ y x. less x.1 y.1)

  abbrev Later : Entry → Entry → Type 0
  Later x y = x.0 < y.0

  -- An earlier entry that does not lose to the head is better than all that follow it.
  Better-than_rest :
      OrdersScores n → (x y z : Entry) → less x.1 y.1 ≡ false → Later x z → Better y z → Better x z
  Better-than_rest o x y z keeps later better = elim (Bool-cases (less x.1 z.1)) [
    | inl worse ↦ elim (o.between x.1 y.1 z.1 worse) [
      | inl lost ↦ absurd (ground (arith, keeps, lost))
      | inr over ↦ absurd (ground (arith, better, over, o.asym y.1 z.1 over))
    ]
    | inr fine ↦ ground (arith, fine, later)
  ]

  -- An entry that loses to the head is beaten by it.
  Better-head : OrdersScores n → (x y : Entry) → less x.1 y.1 ≡ true → Later x y → Better y x
  Better-head o x y lost later = ground (arith, lost, later, o.asym x.1 y.1 lost)

  Better-kept : (x y : Entry) → less x.1 y.1 ≡ false → Later x y → Better x y
  Better-kept x y kept later = ground (arith, kept, later)

  Better-all :
      OrdersScores n
      → (x y : Entry) (zs : List Entry) → less x.1 y.1 ≡ false
      → All (Later x) zs
      → All (Better y) zs
      → All (Better x) zs
  Better-all o x y [] keeps later better = tt
  Better-all o x y (z ∷ zs) keeps (l, later) (b, better) =
      (Better-than_rest o x y z keeps l b, Better-all o x y zs keeps later better)

  insert-Ordered :
      OrdersScores n
      → (x : Entry) (ys : List Entry) → All (Later x) ys
      → Ordered ys
      → Ordered (insert_by (λ y x. less x.1 y.1) x ys)
  unfolding insert_by
  insert-Ordered o x [] later h = (tt, tt)
  insert-Ordered o x (y ∷ ys) (here, later) (best, h) = elim (Bool-cases (less x.1 y.1)) [
    | inl lost ↦ rw lost (
      All-insert_by (Better y) (λ y x. less x.1 y.1) x ys (Better-head o x y lost here) best,
      insert-Ordered o x ys later h,
    )
    | inr kept ↦
        rw kept ((Better-kept x y kept here, Better-all o x y ys kept later best), (best, h))
  ]

  -- The indices are at least this one and grow.
  abbrev pub From : ℕ → List Entry → Type 0
  From i [] = Unit
  From i (e ∷ es) = (i ≤ e.0) × All (Later e) es × From i es

  From-up : (i : ℕ) (es : List Entry) → From (i + 1) es → All (λ e. i < e.0) es
  From-up i [] h = tt
  From-up i (e ∷ es) (low, later, h) = (ground (arith, low), From-up i es h)

  From-down : (i : ℕ) (es : List Entry) → From (i + 1) es → From i es
  From-down i [] h = tt
  From-down i (e ∷ es) (low, later, h) = (ground (arith, low), later, From-down i es h)

  pub enumerate-From : (i : ℕ) (xs : List Value) → From i (enumerate i xs)
  unfolding enumerate
  enumerate-From i [] = tt
  enumerate-From i (x ∷ xs) =
      let rest = enumerate-From (i + 1) xs in
      (omega arith, From-up i (enumerate (i + 1) xs) rest, From-down i (enumerate (i + 1) xs) rest)

  pub sorted-Ordered : OrdersScores n → (i : ℕ) (es : List Entry) → From i es → Ordered (sorted es)
  unfolding sort_by
  sorted-Ordered o i [] h = tt
  sorted-Ordered o i (e ∷ es) (low, later, h) =
      insert-Ordered o e (sorted es) (All-sort_by (Later e) _ es later) (sorted-Ordered o i es h)
