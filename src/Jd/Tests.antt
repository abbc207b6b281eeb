-- ===== src/Jd/Tests.antt =====
-- The specification of pipeline/jd_deconstructor.py on concrete replies.
use provenancerank.Prelude.{◌≡◌, refl, Option, some, [], ◌∷◌}
use provenancerank.Results.{ok, error}
use provenancerank.Text.{Text, codes, text_eqb}
use provenancerank.Json.{Json, string, array, object, nil, item, end, field, is_truthy, get_field}
use provenancerank.Jd.{to_json, from_json, attribute_error}
use provenancerank.Jd.Fallback.{strings, fallback_job_spec}
use provenancerank.Jd.Reply.{
  array_or, merge_llm_into_fallback, from_llm, from_reply, deconstruct_jd,
}
use provenancerank.Jd.RoundTrip.{from_json-to_json}
use provenancerank.Jd.Sound.{reply_to, Deconstructed, deconstruct_jd-Deconstructed}

-- A model that finds one anti-pattern, and one that replies with a list
abbrev helpful : Text → Option Json
helpful prompt = some (
    object (
      field (codes "anti_patterns") (strings (codes "Title-chaser" ∷ []))
        (field (codes "hard_gates") (array nil) end)))

abbrev unhelpful : Text → Option Json
unhelpful prompt = some (array (item (string (codes "sorry")) nil))

enriched :
    deconstruct_jd helpful (some (codes "Search engineer"))
    ≡ ok (record fallback_job_spec {
      anti_patterns = strings (codes "Title-chaser" ∷ []);
      source = string (codes "llm");
    })
unfolding deconstruct_jd from_reply is_truthy from_llm merge_llm_into_fallback array_or get_field
    text_eqb
enriched = refl

refused : deconstruct_jd unhelpful (some (codes "Search engineer")) ≡ error attribute_error
unfolding deconstruct_jd from_reply is_truthy from_llm merge_llm_into_fallback
refused = refl

from_json-to_json_example : from_json (to_json fallback_job_spec) ≡ ok fallback_job_spec
from_json-to_json_example = from_json-to_json fallback_job_spec

deconstruct_jd-Deconstructed_example :
    Deconstructed
      (reply_to unhelpful (some (codes "Search engineer")))
      (deconstruct_jd unhelpful (some (codes "Search engineer")))
deconstruct_jd-Deconstructed_example =
    deconstruct_jd-Deconstructed unhelpful (some (codes "Search engineer"))
