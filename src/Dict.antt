-- ===== src/Dict.antt =====
-- Python's insertion-ordered `dict` and `OrderedDict`, as services/cache.py and services/queue.py
-- use them: an association list, oldest key first. `dict.get` is the library's `lookup`.
use mathlib.Core.List.{lookup}
use mathlib.Core.Logic.{ite}
use mathlib.Core.Option.{get_or}
use provenancerank.Prelude.{ℕ, Bool, true, false, Option, none, some, List, [], ◌∷◌, ◌++◌, ◌≡◌, ltb}
pub mod Laws

module _ {ℓ} {K V : Type ℓ} (dec : Discrete K) where
  -- `key in d`
  unfoldable pub has_key : K → List (K × V) → Bool
  has_key k d = elim (lookup dec k d) [ none ↦ false | some _ ↦ true ]

  -- `d[key] = value`: in place for a key that is there, at the end for a new one
  unfoldable pub assign : K → V → List (K × V) → List (K × V)
  assign k v [] = (k, v) ∷ []
  assign k v ((j, w) ∷ d) = ite (dec k j) ((k, v) ∷ d) ((j, w) ∷ assign k v d)

  -- `d.pop(key, None)`
  unfoldable pub remove : K → List (K × V) → List (K × V)
  remove k [] = []
  remove k ((j, w) ∷ d) = ite (dec k j) d ((j, w) ∷ remove k d)

  -- `d.move_to_end(key)`; the source calls it for a key that is there
  unfoldable pub move_to_end : K → List (K × V) → List (K × V)
  unfolding remove
  move_to_end k d = elim (lookup dec k d) [ none ↦ d | some v ↦ remove k d ++ (k, v) ∷ [] ]

  -- No key stands twice.
  abbrev pub Distinct : List (K × V) → Type ℓ
  Distinct [] = Unit
  Distinct ((k, v) ∷ d) = (lookup dec k d ≡ none) × Distinct d
