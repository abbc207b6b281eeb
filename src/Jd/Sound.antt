-- ===== src/Jd/Sound.antt =====
-- What a language model can change of a job's specification.
use provenancerank.Prelude.{
  ◌≡◌, refl, ap, Bool, true, false, not, ◌==◌, Option, none, some, [], ◌∷◌, Bool-cases, inl, inr,
}
use provenancerank.Results.{Result, ok, error}
use provenancerank.Text.{Text}
use provenancerank.Json.{
  Json, null, boolean, number, string, array, object, nil, item, end, field, is_truthy,
}
use provenancerank.Jd.{JobSpec, ReadError}
use provenancerank.Jd.Fallback.{fallback_job_spec}
use provenancerank.Jd.Reply.{
  build_prompt, merge_llm_into_fallback, from_llm, from_reply, deconstruct_jd,
}

-- The reply is missing, empty or an object.
abbrev pub is_usable : Option Json → Bool
is_usable none = true
is_usable (some (object fields)) = true
is_usable (some j) = not (is_truthy j)

-- What the model replies, if it is asked.
abbrev pub reply_to : (Text → Option Json) → Option Text → Option Json
reply_to complete_json none = none
reply_to complete_json (some []) = none
reply_to complete_json (some (c ∷ jd)) = complete_json (build_prompt (c ∷ jd))

-- The specification has the fallback's gates, requirements and skills where the reply is usable, and
-- there is none where it is not.
pub Deconstructed : Option Json → Result ReadError JobSpec → Type 0
Deconstructed reply (ok spec) =
    (is_usable reply ≡ true)
    × (spec.hard_gates ≡ fallback_job_spec.hard_gates)
    × (spec.weighted_requirements ≡ fallback_job_spec.weighted_requirements)
    × (spec.jd_core_skills ≡ fallback_job_spec.jd_core_skills)
Deconstructed reply (error e) = is_usable reply ≡ false

from_reply-Deconstructed : (reply : Option Json) → Deconstructed reply (from_reply reply)
unfolding from_reply merge_llm_into_fallback from_llm is_truthy Deconstructed
from_reply-Deconstructed none = (refl, refl, refl, refl)
from_reply-Deconstructed (some null) = (refl, refl, refl, refl)
from_reply-Deconstructed (some (boolean true)) = refl
from_reply-Deconstructed (some (boolean false)) = (refl, refl, refl, refl)
from_reply-Deconstructed (some (string [])) = (refl, refl, refl, refl)
from_reply-Deconstructed (some (string (c ∷ s))) = refl
from_reply-Deconstructed (some (array nil)) = (refl, refl, refl, refl)
from_reply-Deconstructed (some (array (item j rest))) = refl
from_reply-Deconstructed (some (object end)) = (refl, refl, refl, refl)
from_reply-Deconstructed (some (object (field k j rest))) = (refl, refl, refl, refl)
from_reply-Deconstructed (some (number k)) = elim (Bool-cases (k == 0)) [
  | inl e ↦ rw e (ap (λ b. not (not b)) e, refl, refl, refl)
  | inr e ↦ rw e (ap (λ b. not (not b)) e)
]

-- Whatever the job's text and the model's reply are: the specification has the gates, the weighted
-- requirements and the core skills of the fallback, unless the reply is a JSON value that is neither
-- empty nor an object; for such a reply, and for no other, there is an error and no specification.
pub deconstruct_jd-Deconstructed :
    (complete_json : Text → Option Json) (jd_text : Option Text)
    → Deconstructed (reply_to complete_json jd_text) (deconstruct_jd complete_json jd_text)
unfolding deconstruct_jd
deconstruct_jd-Deconstructed complete_json none = from_reply-Deconstructed none
deconstruct_jd-Deconstructed complete_json (some []) = from_reply-Deconstructed none
deconstruct_jd-Deconstructed complete_json (some (c ∷ jd)) =
    from_reply-Deconstructed (complete_json (build_prompt (c ∷ jd)))
