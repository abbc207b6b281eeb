-- ===== src/Dict/Laws.antt =====
-- The laws of the ordered dictionaries.
use mathlib.Core.List.{lookup}
use mathlib.Core.Logic.{ite}
use provenancerank.Prelude.{
  suc, ◌≡◌, ◌≢◌, refl, ◌⊎◌, Bool, true, false, if◌then◌else◌, inl, inr, none, some, List, [], ◌∷◌,
  ◌++◌, arith, length, length-append, select, Option-cases,
}
use provenancerank.Dict.{has_key, assign, remove, move_to_end, Distinct}

module _ {ℓ} {K V : Type ℓ} (dec : Discrete K) where
  pub lookup-assign_self :
      (k : K) (v : V) (d : List (K × V)) → lookup dec k (assign dec k v d) ≡ some v
  unfolding lookup assign
  lookup-assign_self k v [] = ground arith
  lookup-assign_self k v ((j, w) ∷ d) = ground (arith, lookup-assign_self k v d)

  pub lookup-assign_ne :
      (q k : K) (v : V) (d : List (K × V))
      → q ≢ k
      → lookup dec q (assign dec k v d) ≡ lookup dec q d
  unfolding lookup assign
  lookup-assign_ne q k v [] h = ground arith
  lookup-assign_ne q k v ((j, w) ∷ d) h = ground (arith, lookup-assign_ne q k v d h)

  pub lookup-remove_ne :
      (q k : K) (d : List (K × V)) → q ≢ k → lookup dec q (remove dec k d) ≡ lookup dec q d
  unfolding lookup remove
  lookup-remove_ne q k [] h = refl
  lookup-remove_ne q k ((j, w) ∷ d) h = ground (arith, lookup-remove_ne q k d h)

  pub lookup-remove_self :
      (k : K) (d : List (K × V)) → Distinct dec d → lookup dec k (remove dec k d) ≡ none
  unfolding lookup remove
  lookup-remove_self k [] h = refl
  lookup-remove_self k ((j, w) ∷ d) h = ground (arith, lookup-remove_self k d h.1)

  pub remove_absent : (k : K) (d : List (K × V)) → lookup dec k d ≡ none → remove dec k d ≡ d
  unfolding lookup remove
  remove_absent k [] h = refl
  remove_absent k ((j, w) ∷ d) h = ground (arith, remove_absent k d)

  pub assign_absent :
      (k : K) (v : V) (d : List (K × V))
      → lookup dec k d ≡ none
      → assign dec k v d ≡ d ++ (k, v) ∷ []
  unfolding lookup assign
  assign_absent k v [] h = refl
  assign_absent k v ((j, w) ∷ d) h = ground (arith, assign_absent k v d)

  lookup-none-remove :
      (q k : K) (d : List (K × V)) → lookup dec q d ≡ none → lookup dec q (remove dec k d) ≡ none
  unfolding lookup remove
  lookup-none-remove q k [] h = refl
  lookup-none-remove q k ((j, w) ∷ d) h = ground (arith, lookup-none-remove q k d)

  pub remove-Distinct : (k : K) (d : List (K × V)) → Distinct dec d → Distinct dec (remove dec k d)
  unfolding lookup remove
  remove-Distinct k [] h = tt
  remove-Distinct k ((j, w) ∷ d) h =
      ground (arith, remove-Distinct k d h.1, lookup-none-remove j k d h.0)

  pub assign-Distinct :
      (k : K) (v : V) (d : List (K × V)) → Distinct dec d → Distinct dec (assign dec k v d)
  unfolding lookup assign
  assign-Distinct k v [] h = (refl, tt)
  assign-Distinct k v ((j, w) ∷ d) h =
      ground (arith, assign-Distinct k v d h.1, lookup-assign_ne j k v d)

  pub lookup-append :
      (q : K) (d e : List (K × V))
      → lookup dec q (d ++ e) ≡ elim (lookup dec q d) [ none ↦ lookup dec q e | some v ↦ some v ]
  unfolding lookup
  lookup-append q [] e = refl
  lookup-append q ((j, w) ∷ d) e = ground (arith, lookup-append q d e)

  pub append-Distinct :
      (k : K) (v : V) (d : List (K × V))
      → Distinct dec d
      → lookup dec k d ≡ none
      → Distinct dec (d ++ (k, v) ∷ [])
  unfolding lookup
  append-Distinct k v [] h a = (refl, tt)
  append-Distinct k v ((j, w) ∷ d) h a =
      ground (arith, append-Distinct k v d h.1, lookup-append j d ((k, v) ∷ []))

  pub move_to_end-Distinct :
      (k : K) (d : List (K × V)) → Distinct dec d → Distinct dec (move_to_end dec k d)
  unfolding move_to_end
  move_to_end-Distinct k d h = elim (Option-cases (lookup dec k d)) [
    | inl e ↦ rw (e, move_to_end) h
    | inr (v, e) ↦
        rw (e, move_to_end)
          (append-Distinct k v (remove dec k d) (remove-Distinct k d h) (lookup-remove_self k d h))
  ]

  -- Moving a key to the end changes no reading.
  pub lookup-move_to_end :
      (q k : K) (d : List (K × V))
      → Distinct dec d
      → lookup dec q (move_to_end dec k d) ≡ lookup dec q d
  unfolding lookup move_to_end
  lookup-move_to_end q k d h = elim (Option-cases (lookup dec k d)) [
    | inl e ↦ rw (e, move_to_end)
    | inr (v, e) ↦
        rw (e, move_to_end)
          (ground (
            arith,
            lookup-append q (remove dec k d) ((k, v) ∷ []),
            lookup-remove_ne q k d,
            lookup-remove_self k d h,
          ))
  ]

  pub length-assign_absent :
      (k : K) (v : V) (d : List (K × V))
      → lookup dec k d ≡ none
      → length (assign dec k v d) ≡ suc (length d)
  unfolding lookup assign
  length-assign_absent k v [] h = refl
  length-assign_absent k v ((j, w) ∷ d) h = ground (arith, length-assign_absent k v d)

  pub length-assign_present :
      (k : K) (v w : V) (d : List (K × V))
      → lookup dec k d ≡ some w
      → length (assign dec k v d) ≡ length d
  unfolding lookup assign
  length-assign_present k v w [] h = cc
  length-assign_present k v w ((j, u) ∷ d) h = ground (arith, length-assign_present k v w d)

  pub length-remove_present :
      (k : K) (w : V) (d : List (K × V))
      → lookup dec k d ≡ some w
      → suc (length (remove dec k d)) ≡ length d
  unfolding lookup remove
  length-remove_present k w [] h = cc
  length-remove_present k w ((j, u) ∷ d) h = ground (arith, length-remove_present k w d)

  pub length-move_to_end : (k : K) (d : List (K × V)) → length (move_to_end dec k d) ≡ length d
  unfolding move_to_end
  length-move_to_end k d = elim (Option-cases (lookup dec k d)) [
    | inl e ↦ rw (e, move_to_end)
    | inr (v, e) ↦
        rw (e, move_to_end)
          (omega
            (arith, length-append (remove dec k d) ((k, v) ∷ []), length-remove_present k v d e))
  ]

module _ {ℓ} {K V : Type ℓ} (dec : Discrete K) where
  pub has_key-assign :
      (q k : K) (v : V) (d : List (K × V))
      → has_key dec q (assign dec k v d) ≡ ite (dec q k) true (has_key dec q d)
  unfolding has_key
  has_key-assign q k v d =
      ground (arith, lookup-assign_self dec k v d, lookup-assign_ne dec q k v d)

  pub has_key-remove :
      (q k : K) (d : List (K × V))
      → Distinct dec d
      → has_key dec q (remove dec k d) ≡ ite (dec q k) false (has_key dec q d)
  unfolding has_key
  has_key-remove q k d h = ground (arith, lookup-remove_self dec k d h, lookup-remove_ne dec q k d)

  pub has_key-move_to_end :
      (q k : K) (d : List (K × V))
      → Distinct dec d
      → has_key dec q (move_to_end dec k d) ≡ has_key dec q d
  unfolding has_key
  has_key-move_to_end q k d h = rw (lookup-move_to_end dec q k d h, has_key)

  pub has_key_cases :
      (k : K) (d : List (K × V))
      → (lookup dec k d ≡ none) × (has_key dec k d ≡ false)
        ⊎ ((v : V) × (lookup dec k d ≡ some v) × (has_key dec k d ≡ true))
  unfolding has_key
  has_key_cases k d = ground arith

  pub length-remove_found :
      (k : K) (d : List (K × V)) → has_key dec k d ≡ true → suc (length (remove dec k d)) ≡ length d
  length-remove_found k d h = elim (has_key_cases k d) [
    | inl (_, e) ↦ cc
    | inr (v, e, _) ↦ length-remove_present dec k v d e
  ]

  -- Assigning to the last key replaces its value in place.
  pub assign-append_last :
      (k : K) (v w : V) (d : List (K × V))
      → lookup dec k d ≡ none
      → assign dec k v (d ++ (k, w) ∷ []) ≡ d ++ (k, v) ∷ []
  unfolding lookup assign
  assign-append_last k v w [] h = ground arith
  assign-append_last k v w ((j, u) ∷ d) h = ground (arith, assign-append_last k v w d)

  pub remove-append_last :
      (k : K) (v : V) (d : List (K × V))
      → lookup dec k d ≡ none
      → remove dec k (d ++ (k, v) ∷ []) ≡ d
  unfolding lookup remove
  remove-append_last k v [] h = ground arith
  remove-append_last k v ((j, u) ∷ d) h = ground (arith, remove-append_last k v d)

  pub moved-Distinct :
      (b : Bool) (k : K) (d : List (K × V))
      → Distinct dec d
      → Distinct dec (if b then move_to_end dec k d else d)
  moved-Distinct true k d h = move_to_end-Distinct dec k d h
  moved-Distinct false k d h = h

  pub has_key-moved :
      (b : Bool) (q k : K) (d : List (K × V))
      → Distinct dec d
      → has_key dec q (if b then move_to_end dec k d else d) ≡ has_key dec q d
  has_key-moved true q k d h = has_key-move_to_end q k d h
  has_key-moved false q k d h = refl

  pub length-moved :
      (b : Bool) (k : K) (d : List (K × V))
      → length (if b then move_to_end dec k d else d) ≡ length d
  length-moved true k d = length-move_to_end dec k d
  length-moved false k d = refl

  lookup-select-none :
      (p : K × V → Bool) (k : K) (d : List (K × V))
      → lookup dec k d ≡ none
      → lookup dec k (select p d) ≡ none
  unfolding lookup
  lookup-select-none p k [] h = refl
  lookup-select-none p k ((j, w) ∷ d) h = ground (arith, lookup-select-none p k d)

  -- A new key at the end is kept or not by the test alone.
  pub has_key-select_last :
      (p : K × V → Bool) (k : K) (v : V) (d : List (K × V))
      → lookup dec k d ≡ none
      → has_key dec k (select p (d ++ (k, v) ∷ [])) ≡ p (k, v)
  unfolding lookup has_key
  has_key-select_last p k v [] h = ground arith
  has_key-select_last p k v ((j, w) ∷ d) h =
      ground (arith, has_key-select_last p k v d, lookup-select-none p k d)
