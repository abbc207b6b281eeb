-- ===== src/Retrieval/Lengths.antt =====
-- The fusion of pipeline/retrieval.py has one score for each candidate.
use provenancerank.Prelude.{
  ℕ, suc, ◌+◌, ◌≡◌, refl, ap, sym, ◌∙◌, ==_iff, Bool, true, false, some, List, [], ◌∷◌, map, length,
  length-map, arith, if◌then◌else◌,
}
use provenancerank.Floats.{Float}
use provenancerank.Retrieval.{
  least_of, greatest_of, tiny, enumerate, ranks, minmax, contributions, add_arrays, fuse_rrf,
}

length-enumerate : {A : Type 0} (i : ℕ) (xs : List A) → length (enumerate i xs) ≡ length xs
unfolding enumerate
length-enumerate i [] = refl
length-enumerate i (x ∷ xs) = ap suc (length-enumerate (i + 1) xs)

module _ (n : Float) where
  open n use {Value, less, hundredths, minus, over, single}

  length_if_map :
      (b : Bool) (f g : Value → Value) (xs : List Value)
      → length (if b then map f xs else map g xs) ≡ length xs
  length_if_map true f g xs = length-map f xs
  length_if_map false f g xs = length-map g xs

  pub length-minmax : (vs : List Value) → length (minmax n vs) ≡ length vs
  unfolding minmax
  length-minmax [] = refl
  length-minmax (v ∷ vs) =
      let lo = least_of n v vs in
      let hi = greatest_of n v vs in
      length_if_map (less (minus hi lo) (tiny n)) (λ x. hundredths 0)
        (λ x. over (minus x lo) (minus hi lo)) (v ∷ vs)

  length-contributions :
      (k : ℕ) (vs : List Value) (rs : List ℕ)
      → length vs ≡ length rs
      → length (contributions n k vs rs) ≡ length vs
  unfolding contributions
  length-contributions k [] rs h = refl
  length-contributions k (v ∷ vs) [] h = absurd (omega (arith, h))
  length-contributions k (v ∷ vs) (r ∷ rs) h =
      ap suc (length-contributions k vs rs (omega (arith, h)))

  length-add_arrays :
      (xs ys : List Value) → length xs ≡ length ys → length (add_arrays n xs ys) ≡ length xs
  unfolding add_arrays
  length-add_arrays [] ys h = refl
  length-add_arrays (x ∷ xs) [] h = absurd (omega (arith, h))
  length-add_arrays (x ∷ xs) (y ∷ ys) h = ap suc (length-add_arrays xs ys (omega (arith, h)))

  length-ranks : (vs : List Value) → length (ranks n vs) ≡ length vs
  unfolding ranks
  length-ranks vs = length-map _ (enumerate 0 vs) ∙ length-enumerate 0 vs

  pub fuse_rrf-some :
      (k : ℕ) (bm25 cosine : List Value)
      → length bm25 ≡ length cosine
      → (full : List Value) × (fuse_rrf n k bm25 cosine ≡ some full) × (length full ≡ length bm25)
  unfolding fuse_rrf
  fuse_rrf-some k [] cosine h = ([], refl, refl)
  fuse_rrf-some k (b ∷ bm25) cosine h =
      let left =
        length-contributions k (b ∷ bm25) (ranks n (b ∷ bm25)) (sym (length-ranks (b ∷ bm25))) in
      let right = length-contributions k cosine (ranks n cosine) (sym (length-ranks cosine)) in
      let added = length-add_arrays _ _ (left ∙ h ∙ sym right) ∙ left in
      rw ((==_iff (length (b ∷ bm25)) (length cosine)).1 h)
        (_, refl, length-map single _ ∙ length-minmax _ ∙ added)
