-- ===== src/Skills/Tests.antt =====
-- Names and texts through intelligence/skill_extractor.py, the sets in the order of their tables.
use mathlib.Core.List.{map-id}
use provenancerank.Prelude.{
  ◌≡◌, refl, false, ◌&&◌, any, sort_by, insert_by, some, List, [], ◌∷◌, All,
}
use provenancerank.Text.{
  Text, codes, strip, lstrip, is_space, lower, starts_with, contains, text_eqb, text_ltb,
  member_text,
}
use provenancerank.Text.Order.{All-member_text}
use provenancerank.Skills.{
  is_key, set_defaults, first_alias, canonicalise_in, aliases, canonicalise, distinct, sorted_set,
  found_names, mentions, extract_from_list, extract_skills,
}
use provenancerank.Skills.Members.{is_found}
use provenancerank.Skills.Canonical.{HasOnly, IsCanonical, extract_skills-IsCanonical}

abbrev set_of : List Text → List Text
set_of xs = xs

-- `es` is an alias of one skill and part of another word.
databases : canonicalise set_of (codes " Databases") ≡ some (codes "elasticsearch")
unfolding canonicalise aliases set_defaults canonicalise_in is_key first_alias strip lstrip is_space
    lower contains starts_with member_text text_eqb
databases = refl

set_of-HasOnly : HasOnly set_of
unfolding HasOnly
set_of-HasOnly xs = rw (map-id xs) at (All-member_text (λ s. s) xs)

-- A key that is an alias of another skill is a skill of its own.
two_loras :
    extract_from_list set_of (codes "LoRA" ∷ codes "LoRA tuning" ∷ [])
    ≡ codes "fine-tuning llms" ∷ codes "lora" ∷ []
unfolding extract_from_list sorted_set distinct found_names sort_by insert_by text_ltb canonicalise
    aliases set_defaults canonicalise_in is_key first_alias strip lstrip is_space lower contains
    starts_with member_text text_eqb
two_loras = refl

extract_skills-IsCanonical_example :
    All (IsCanonical (aliases set_of)) (extract_skills set_of (codes "Tuned FAISS on k8s"))
    × All (IsCanonical (aliases set_of)) (extract_from_list set_of (codes "K8s" ∷ codes "?" ∷ []))
    × (member_text (codes "faiss") (extract_skills set_of (codes "Tuned FAISS on k8s"))
        ≡ any (aliases set_of) (λ e.
          text_eqb (codes "faiss") e.0
          && any e.1 (λ a. mentions false a (lower (codes "Tuned FAISS on k8s")))))
    × (member_text (codes "faiss") (extract_from_list set_of (codes "K8s" ∷ codes "?" ∷ []))
        ≡ any
            (codes "K8s" ∷ codes "?" ∷ [])
            (λ name. is_found (codes "faiss") (canonicalise set_of name)))
extract_skills-IsCanonical_example =
    extract_skills-IsCanonical set_of set_of-HasOnly (codes "Tuned FAISS on k8s")
      (codes "K8s" ∷ codes "?" ∷ []) (codes "faiss")
