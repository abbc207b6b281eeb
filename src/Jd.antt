-- ===== src/Jd.antt =====
-- pipeline/jd_deconstructor.py: the specification of a job, its JSON and where it comes from. A field
-- holds any JSON, as a Python field does. `complete_json` of core/llm.py is the parameter `reply`.
use provenancerank.Prelude.{
  ℕ, Bool, true, false, ◌&&◌, Option, none, some, List, [], ◌∷◌, map, if◌then◌else◌,
}
use provenancerank.Results.{Result, ok, error, ◌>>=◌}
use provenancerank.Text.{Text, codes, text_eqb, member_text}
use provenancerank.Json.{
  Json, Fields, null, boolean, number, string, array, object, nil, item, end, field, elements,
  items_of, get_field, get_or, is_truthy,
}
pub mod RoundTrip
pub mod Fallback
pub mod Reply
pub mod Sound
mod Tests

pub record Gate : Type 0 where
  pub description : Json
  pub feature_key : Json
  pub operator : Json
  pub value : Json

pub record WeightedReq : Type 0 where
  pub description : Json
  pub weight : Json
  pub skill_tags : Json

pub record JobSpec : Type 0 where
  pub hard_gates : List Gate
  pub weighted_requirements : List WeightedReq
  pub latent_requirements : Json
  pub jd_core_skills : Json
  pub anti_patterns : Json
  pub boilerplate_removed : Json
  pub source : Json

-- What reading a JSON value raises.
pub data ReadError : Type 0 where
  type_error attribute_error : ReadError

-- `asdict`
unfoldable pub gate_json : Gate → Json
gate_json g = object (
    field (codes "description") g.description (
      field (codes "feature_key") g.feature_key
        (field (codes "operator") g.operator (field (codes "value") g.value end))))

unfoldable pub requirement_json : WeightedReq → Json
requirement_json w = object (
    field (codes "description") w.description
      (field (codes "weight") w.weight (field (codes "skill_tags") w.skill_tags end)))

-- `to_json`
unfoldable pub to_json : JobSpec → Json
to_json s = object (
    field (codes "hard_gates") (array (items_of (map gate_json s.hard_gates))) (
      field (codes "weighted_requirements")
        (array (items_of (map requirement_json s.weighted_requirements)))
        (field (codes "latent_requirements") s.latent_requirements (
          field (codes "jd_core_skills") s.jd_core_skills (
            field (codes "anti_patterns") s.anti_patterns (
              field (codes "boilerplate_removed") s.boilerplate_removed
                (field (codes "source") s.source end)))))))

-- Whether the keys are all among these
unfoldable pub has_only : List Text → Fields → Bool
has_only names end = true
has_only names (field k j rest) = member_text k names && has_only names rest

-- A keyword argument
unfoldable pub required : Text → Fields → Result ReadError Json
required key fields = elim (get_field key fields) [ none ↦ error type_error | some j ↦ ok j ]

unfoldable pub only : List Text → Fields → Result ReadError Fields
only names fields = if has_only names fields then ok fields else error type_error

-- `Gate(**g)`
unfoldable pub gate_from : Json → Result ReadError Gate
gate_from (object fields) = do
  known ←
      only (codes "description" ∷ codes "feature_key" ∷ codes "operator" ∷ codes "value" ∷ [])
        fields
  description ← required (codes "description") fields
  feature_key ← required (codes "feature_key") fields
  operator ← required (codes "operator") fields
  value ← required (codes "value") fields
  ok (record {
    description = description;
    feature_key = feature_key;
    operator = operator;
    value = value;
  })
gate_from _ = error type_error

-- `WeightedReq(**w)`
unfoldable pub requirement_from : Json → Result ReadError WeightedReq
requirement_from (object fields) = do
  known ← only (codes "description" ∷ codes "weight" ∷ codes "skill_tags" ∷ []) fields
  description ← required (codes "description") fields
  weight ← required (codes "weight") fields
  skill_tags ← required (codes "skill_tags") fields
  ok (record { description = description; weight = weight; skill_tags = skill_tags })
requirement_from _ = error type_error

-- A list comprehension whose body may raise
unfoldable pub each :
    {A : Type 0} → (Json → Result ReadError A) → List Json → Result ReadError (List A)
each read [] = ok []
each read (j ∷ js) = do x ← read j; xs ← each read js; ok (x ∷ xs)

-- The comprehension over a JSON value: the characters of a string and the keys of an object are
-- strings, which the readers refuse
unfoldable pub each_of :
    {A : Type 0} → (Json → Result ReadError A) → Json → Result ReadError (List A)
each_of read (array items) = each read (elements items)
each_of read (string []) = ok []
each_of read (object end) = ok []
each_of read _ = error type_error

-- `from_json`
unfoldable pub from_json : Json → Result ReadError JobSpec
from_json (object data') = do
  hard_gates ← each_of gate_from (get_or (array nil) (codes "hard_gates") data')
  weighted_requirements ←
      each_of requirement_from (get_or (array nil) (codes "weighted_requirements") data')
  ok (record {
    hard_gates = hard_gates;
    weighted_requirements = weighted_requirements;
    latent_requirements = get_or (array nil) (codes "latent_requirements") data';
    jd_core_skills = get_or (array nil) (codes "jd_core_skills") data';
    anti_patterns = get_or (array nil) (codes "anti_patterns") data';
    boilerplate_removed = get_or (array nil) (codes "boilerplate_removed") data';
    source = get_or (string (codes "fallback")) (codes "source") data';
  })
from_json _ = error attribute_error
