-- ===== src/Jd/RoundTrip.antt =====
-- The JSON of a job's specification, written and read back.
use provenancerank.Prelude.{◌≡◌, refl, List, [], ◌∷◌, map}
use provenancerank.Results.{Result, ok}
use provenancerank.Text.{text_eqb, member_text}
use provenancerank.Json.{Json, array, items_of, elements-items_of, get_field, get_or}
use provenancerank.Jd.{
  Gate, WeightedReq, JobSpec, ReadError, gate_json, requirement_json, to_json, has_only, required,
  only, gate_from, requirement_from, each, each_of, from_json,
}

gate_from-gate_json : (g : Gate) → gate_from (gate_json g) ≡ ok g
unfolding gate_from gate_json only has_only required get_field member_text text_eqb
gate_from-gate_json g = refl

requirement_from-requirement_json : (w : WeightedReq) → requirement_from (requirement_json w) ≡ ok w
unfolding requirement_from requirement_json only has_only required get_field member_text text_eqb
requirement_from-requirement_json w = refl

module _ {A : Type 0} (read : Json → Result ReadError A) (write : A → Json) where
  each-map : ((x : A) → read (write x) ≡ ok x) → (xs : List A) → each read (map write xs) ≡ ok xs
  unfolding each
  each-map h [] = refl
  each-map h (x ∷ xs) = rw (h x, each-map h xs) refl

  each_of-array :
      ((x : A) → read (write x) ≡ ok x)
      → (xs : List A) → each_of read (array (items_of (map write xs))) ≡ ok xs
  unfolding each_of
  each_of-array h xs = rw (elements-items_of (map write xs)) (each-map h xs)

-- Reading the JSON of a specification gives the specification back, whatever JSON its fields hold.
pub from_json-to_json : (s : JobSpec) → from_json (to_json s) ≡ ok s
unfolding from_json to_json get_or get_field text_eqb
from_json-to_json s =
    rw
      (
        each_of-array gate_from gate_json gate_from-gate_json s.hard_gates,
        each_of-array requirement_from requirement_json requirement_from-requirement_json
            s.weighted_requirements,
      )
      refl
