-- ===== src/Jd/Reply.antt =====
-- Where the specification of pipeline/jd_deconstructor.py comes from: a language model's reply or the
-- fallback.
use provenancerank.Prelude.{Option, none, some, [], ◌∷◌, ◌++◌, if◌then◌else◌}
use provenancerank.Results.{Result, ok, error}
use provenancerank.Text.{Text, codes}
use provenancerank.Json.{Json, Fields, string, array, object, get_field, is_truthy}
use provenancerank.Jd.{JobSpec, ReadError, attribute_error}
use provenancerank.Jd.Fallback.{fallback_job_spec}

-- `_build_prompt`
unfoldable pub build_prompt : Text → Text
build_prompt jd_text =
    codes "You are parsing a job description into a strict JSON JobSpec. "
    ++ (codes "Return ONLY JSON with keys: latent_requirements (array of strings), "
        ++ (codes "anti_patterns (array of strings), boilerplate_removed (array of strings). "
            ++ (codes "Focus on the gap between what the JD says and what it means."
                ++ (10 ∷ 10 ∷ codes "JD:" ++ 10 ∷ jd_text))))

-- The field's array, or what is there
unfoldable pub array_or : Json → Text → Fields → Json
array_or old key fields = elim (get_field key fields) [ some (array items) ↦ array items | _ ↦ old ]

-- `_merge_llm_into_fallback`
unfoldable pub merge_llm_into_fallback : Json → Result ReadError JobSpec
unfolding array_or
merge_llm_into_fallback (object fields) =
    let spec = fallback_job_spec in
    ok (record spec {
      latent_requirements = array_or spec.latent_requirements (codes "latent_requirements") fields;
      anti_patterns = array_or spec.anti_patterns (codes "anti_patterns") fields;
      boilerplate_removed = array_or spec.boilerplate_removed (codes "boilerplate_removed") fields;
    })
merge_llm_into_fallback _ = error attribute_error

unfoldable pub from_llm : Result ReadError JobSpec → Result ReadError JobSpec
from_llm (ok spec) = ok (record spec { source = string (codes "llm") })
from_llm (error e) = error e

-- What `complete_json` returned for the prompt; `none` where it returned None or raised
unfoldable pub from_reply : Option Json → Result ReadError JobSpec
unfolding merge_llm_into_fallback from_llm is_truthy
from_reply none = ok fallback_job_spec
from_reply (some data') =
    if is_truthy data' then from_llm (merge_llm_into_fallback data') else ok fallback_job_spec

-- `deconstruct_jd`
unfoldable pub deconstruct_jd : (Text → Option Json) → Option Text → Result ReadError JobSpec
unfolding from_reply build_prompt
deconstruct_jd complete_json none = ok fallback_job_spec
deconstruct_jd complete_json (some []) = ok fallback_job_spec
deconstruct_jd complete_json (some (c ∷ jd)) = from_reply (complete_json (build_prompt (c ∷ jd)))
