-- ===== src/Features/Own.antt =====
-- The skills that a row of pipeline/feature_engineering.py shows.
use provenancerank.Prelude.{
  ℕ, ◌≤◌, ◌≡◌, true, Option, List, map, length, select, All, All-map, All-select, All-sort_by,
  All-take, length-take_le,
}
use provenancerank.Floats.{Float}
use provenancerank.Text.{Text, lower, member_text}
use provenancerank.Text.Order.{All-member_text}
use provenancerank.Constants.{jd_core_skills, retrieval_skills}
use provenancerank.Candidates.{Skill, Candidate}
use provenancerank.Features.Skills.{
  is_among, top_jd_skills, top_retrieval_skills, compute_skill_features,
}
use provenancerank.Features.Signals.{SignalSettings}
use provenancerank.Features.Row.{build_feature_row}

-- The candidate has a skill of this name, and its lower-case name is in the vocabulary.
abbrev pub OwnIn : List Text → List Skill → Text → Type 0
OwnIn vocabulary skills name =
    (member_text name (map (λ s. s.name) skills) ≡ true)
    × (member_text (lower name) vocabulary ≡ true)

matched-OwnIn :
    (vocabulary : List Text) (skills : List Skill)
    → All (λ s. OwnIn vocabulary skills s.name) (select (is_among vocabulary) skills)
unfolding is_among
matched-OwnIn vocabulary skills =
    All-select (λ s. member_text s.name (map (λ s. s.name) skills) ≡ true) (is_among vocabulary)
      skills (All-member_text (λ s. s.name) skills)

module _ (n : Float) (from_iso : Text → Option ℕ) where
  -- A row shows at most three skills for the job and at most three retrieval skills, and each is the
  -- name of a skill of the profile that is in the vocabulary: no skill is made up.
  build_feature_row-own :
      (s : SignalSettings n) (c : Candidate n)
      → let row = build_feature_row n from_iso s c in
        All (OwnIn jd_core_skills c.skills) row.top_jd_skills
        × All (OwnIn retrieval_skills c.skills) row.top_retrieval_skills
        × (length row.top_jd_skills ≤ 3)
        × (length row.top_retrieval_skills ≤ 3)
  unfolding build_feature_row compute_skill_features top_jd_skills top_retrieval_skills
  build_feature_row-own s c = (
    All-take _ 3 _ (All-map _ _ _ (All-sort_by _ _ _ (matched-OwnIn jd_core_skills c.skills))),
    All-take _ 3 _ (All-map _ _ _ (matched-OwnIn retrieval_skills c.skills)),
    length-take_le 3 _,
    length-take_le 3 _,
  )
