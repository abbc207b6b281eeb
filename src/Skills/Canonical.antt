-- ===== src/Skills/Canonical.antt =====
-- The names that intelligence/skill_extractor.py gives are canonical.
use provenancerank.Prelude.{
  ◌≡◌, refl, ◌∙◌, Bool, true, false, ◌&&◌, Option, none, some, List, [], ◌∷◌, ◌++◌, map, any, All,
  All-append, All-map, All-sort_by, All_weaken, All_both, All-select, if◌then◌else◌, if_keeps,
  Bool-cases, inl, inr, arith,
}
use provenancerank.Text.{Text, strip, lstrip, is_space, lower, contains, text_eqb, member_text}
use provenancerank.Text.Order.{text_eqb_iff, All-member_text}
use provenancerank.Constants.{retrieval_skills, llm_skills, core_ml_skills}
use provenancerank.Skills.{
  general_aliases, is_key, set_defaults, first_alias, canonicalise_in, distinct, sorted_set,
  found_names, aliases, canonicalise, mentions, extract_from_list, extract_skills,
}
use provenancerank.Skills.Members.{
  is_found, member_text-sorted_set, member_text-keys, member_text-found_names,
}

-- A set has only the elements of the list that it is made of.
unfoldable pub HasOnly : (List Text → List Text) → Type 0
HasOnly set_of = (xs : List Text) → All (λ s. member_text s xs ≡ true) (set_of xs)

fixed : Text → Bool
fixed s = text_eqb (lower (strip s)) s

every {ℓ} : {A : Type ℓ} → (A → Bool) → List A → Bool
every p [] = true
every p (x ∷ xs) = p x && every p xs

every-All {ℓ} :
    {A : Type ℓ} (p : A → Bool) (xs : List A) → every p xs ≡ true → All (λ x. p x ≡ true) xs
unfolding every
every-All p [] h = tt
every-All p (x ∷ xs) h = (ground (arith, h), every-All p xs (ground (arith, h)))

member_text-All :
    (P : Text → Type 0) (s : Text) (ts : List Text) → All P ts → member_text s ts ≡ true → P s
unfolding member_text
member_text-All P s [] ps h = cc
member_text-All P s (t ∷ ts) (p, ps) h = elim (Bool-cases (text_eqb s t)) [
  | inl e ↦ rw ((text_eqb_iff s t).0 e) p
  | inr e ↦ member_text-All P s ts ps (rw e at h)
]

abbrev jd_names : List Text
jd_names = retrieval_skills ++ (llm_skills ++ core_ml_skills)

jd_names-fixed : All (λ s. fixed s ≡ true) jd_names
unfolding every fixed lower strip lstrip is_space text_eqb
jd_names-fixed = every-All fixed jd_names refl

IsFixed : List (Text × List Text) → Type 0
IsFixed table = All (λ e. fixed e.0 ≡ true) table

general_aliases-IsFixed : IsFixed general_aliases
unfolding IsFixed every fixed lower strip lstrip is_space text_eqb
general_aliases-IsFixed = every-All (λ (e : Text × List Text). fixed e.0) general_aliases refl

set_defaults-IsFixed :
    (names : List Text) (table : List (Text × List Text))
    → All (λ s. fixed s ≡ true) names
    → IsFixed table
    → IsFixed (set_defaults names table)
unfolding set_defaults IsFixed
set_defaults-IsFixed [] table hs ps = ps
set_defaults-IsFixed (s ∷ names) table (h, hs) ps =
    set_defaults-IsFixed names (if is_key s table then table else table ++ (s, s ∷ []) ∷ []) hs
      (if_keeps IsFixed (is_key s table) ps (All-append _ table ((s, s ∷ []) ∷ []) ps (h, tt)))

module _ (table : List (Text × List Text)) where
  -- A key of the taxonomy, which stands for itself.
  pub IsCanonical : Text → Type 0
  IsCanonical s = (is_key s table ≡ true) × (canonicalise_in table s ≡ some s)

  Kept : Option Text → Type 0
  Kept none = Unit
  Kept (some s) = IsCanonical s

  key-IsCanonical : (s : Text) → is_key s table ≡ true → fixed s ≡ true → IsCanonical s
  unfolding canonicalise_in fixed IsCanonical
  key-IsCanonical s there h = (there, rw ((text_eqb_iff (lower (strip s)) s).0 h, there) refl)

  keys-IsCanonical : IsFixed table → All (λ e. IsCanonical e.0) table
  unfolding IsFixed is_key
  keys-IsCanonical h =
      All_both _ table (λ e there f. key-IsCanonical e.0 there f)
        (All-member_text (λ (e : Text × List Text). e.0) table) h

  first_alias-Kept :
      (n : Text) (rest : List (Text × List Text))
      → All (λ e. IsCanonical e.0) rest
      → Kept (first_alias n rest)
  unfolding first_alias Kept
  first_alias-Kept n [] hs = tt
  first_alias-Kept n ((c, as') ∷ rest) (h, hs) =
      if_keeps Kept (any as' (λ a. contains a n)) h (first_alias-Kept n rest hs)

  canonicalise_in-Kept : IsFixed table → (name : Text) → Kept (canonicalise_in table name)
  unfolding canonicalise_in Kept is_key
  canonicalise_in-Kept h name =
      let keys = keys-IsCanonical h in
      let n = lower (strip name) in
      elim (Bool-cases (is_key n table)) [
        | inl e ↦ rw e (keyed n keys e)
        | inr e ↦ rw e (first_alias-Kept n table keys)
      ]
    where
      keyed : (n : Text) → All (λ e. IsCanonical e.0) table → is_key n table ≡ true → IsCanonical n
      keyed n keys e =
          member_text-All IsCanonical n (map (λ e. e.0) table)
            (All-map IsCanonical (λ e. e.0) table keys) e

  distinct-IsCanonical :
      (names : List Text) → All IsCanonical names → All IsCanonical (distinct names)
  unfolding distinct
  distinct-IsCanonical [] hs = tt
  distinct-IsCanonical (s ∷ names) (h, hs) =
      if_keeps (All IsCanonical) (member_text s names) (distinct-IsCanonical names hs)
        (h, distinct-IsCanonical names hs)

  sorted_set-IsCanonical :
      (names : List Text) → All IsCanonical names → All IsCanonical (sorted_set names)
  unfolding sorted_set
  sorted_set-IsCanonical names hs =
      All-sort_by IsCanonical _ (distinct names) (distinct-IsCanonical names hs)

  found_names-IsCanonical :
      (found : List (Option Text)) → All Kept found → All IsCanonical (found_names found)
  unfolding found_names Kept
  found_names-IsCanonical [] hs = tt
  found_names-IsCanonical (none ∷ found) (h, hs) = found_names-IsCanonical found hs
  found_names-IsCanonical (some [] ∷ found) (h, hs) = found_names-IsCanonical found hs
  found_names-IsCanonical (some (c ∷ s) ∷ found) (h, hs) = (h, found_names-IsCanonical found hs)

  all-Kept : IsFixed table → (names : List Text) → All Kept (map (canonicalise_in table) names)
  all-Kept h [] = tt
  all-Kept h (s ∷ names) = (canonicalise_in-Kept h s, all-Kept h names)

module _ (set_of : List Text → List Text) where
  aliases-IsFixed : HasOnly set_of → IsFixed (aliases set_of)
  unfolding aliases HasOnly
  aliases-IsFixed h =
      set_defaults-IsFixed (set_of jd_names) general_aliases
        (All_weaken _ _ (set_of jd_names)
          (λ s there. member_text-All (λ t. fixed t ≡ true) s jd_names jd_names-fixed there)
          (h jd_names))
        general_aliases-IsFixed

  -- In whatever order Python runs through the sets: each skill that is found, in a text or for a list
  -- of names, is a key of the taxonomy that `canonicalise` gives back as it is. For a text the skills
  -- are exactly the keys with an alias that stands in it with no letter or digit before it, and for a
  -- list of names exactly what is not empty of what `canonicalise` gives for one of the names.
  pub extract_skills-IsCanonical :
      HasOnly set_of
      → (text : Text) (names : List Text) (s : Text)
      → All (IsCanonical (aliases set_of)) (extract_skills set_of text)
        × All (IsCanonical (aliases set_of)) (extract_from_list set_of names)
        × (member_text s (extract_skills set_of text)
            ≡ any
                (aliases set_of)
                (λ e. text_eqb s e.0 && any e.1 (λ a. mentions false a (lower text))))
        × (member_text s (extract_from_list set_of names)
            ≡ any names (λ name. is_found s (canonicalise set_of name)))
  unfolding extract_skills extract_from_list canonicalise
  extract_skills-IsCanonical h text names s =
      let table = aliases set_of in
      let fix = aliases-IsFixed h in
      (
        sorted_set-IsCanonical table _ (
            All-map (IsCanonical table) (λ e. e.0) _
              (All_weaken _ _ _ (λ e p. p.0)
                (All-select (λ (e : Text × List Text). IsCanonical table e.0) _ table
                  (keys-IsCanonical table fix)))),
        sorted_set-IsCanonical table _ (
            found_names-IsCanonical table (map (canonicalise_in table) names)
              (all-Kept table fix names)),
        member_text-sorted_set s _ ∙ member_text-keys s _ table,
        member_text-sorted_set s (found_names (map (canonicalise_in table) names))
            ∙ member_text-found_names s (canonicalise_in table) names,
      )
