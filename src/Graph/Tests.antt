-- ===== src/Graph/Tests.antt =====
-- The store of graph/schema.py with two developers, one of them with two pieces of hard work.
use provenancerank.Prelude.{
  ℕ, ◌≤◌, ◌≡◌, refl, Bool, true, Option, none, some, List, [], ◌∷◌, ◌||◌, length, map, any, sort_by,
  insert_by, All, All_weaken, arith,
}
use provenancerank.Floats.{min_of}
use provenancerank.Floats.Sample.{sample}
use provenancerank.Text.{Text, codes, text_eqb, text_ltb, member_text}
use provenancerank.Text.Order.{text_eqb_iff}
use provenancerank.Graph.{
  Artifact, Evidence, Row, Store, is_pair, update_developer, updated, default_skill, put_artifact,
  put_edge, is_between, later_seen, add_pair, get_developer, get_artifact, username_of, name_of,
  artifacts_in, by_date, or_empty, skill_row, evidence_for, upsert_developer,
  upsert_skill_with_evidence, find_by_skill,
}
use provenancerank.Graph.Debuggers.{
  is_hard_work, debugger_row, add_to_group, grouped, confidence_of, find_production_debuggers,
}
use provenancerank.Graph.Valid.{
  Upsert, developer, evidence, upsert_all, IsValid, upsert_all-IsValid,
}
use provenancerank.Graph.Backed.{GivesMembers, IsBacked, Shows, find_production_debuggers-IsBacked}

abbrev artifact : Text → Text → ℕ → Text → Artifact
artifact id source complexity dev = record {
  id = id;
  source_type = source;
  summary = [];
  complexity = complexity;
  production_signal = true;
  url = [];
  date = some (codes "2026-01-02");
  developer_id = dev;
}

abbrev shows : Text → Artifact → Evidence
shows skill a = record { skill_name = skill; skill_category = codes "backend"; artifact = a }

abbrev empty : Store sample (λ x. x)
empty = record {
  developers = [];
  skills = [];
  artifacts = [];
  has_skill = [];
  produced = [];
  demonstrates = [];
}

abbrev calls : List (Upsert sample (λ x. x))
calls =
    developer (codes "ann") (some (codes "ann-dev")) none
    ∷ evidence (shows (codes "rust") (artifact (codes "c1") (codes "commit_diff") 5 (codes "ann")))
        60
    ∷ evidence (shows (codes "rust") (artifact (codes "c2") (codes "pr_review") 4 (codes "ann"))) 70
    ∷ evidence (shows (codes "rust") (artifact (codes "r1") (codes "repo") 5 (codes "bob"))) 40
    ∷ []

abbrev two_developers : Store sample (λ x. x)
two_developers = upsert_all sample (λ x. x) calls empty

upsert_all-IsValid_example : IsValid sample (λ x. x) (upsert_all sample (λ x. x) calls empty)
upsert_all-IsValid_example =
    upsert_all-IsValid sample (λ x. x) refl calls empty
      (record { edges = tt; owners = tt; made = tt; shown = tt })

self_member : (p : Text × Text) (pairs : List (Text × Text)) → any (p ∷ pairs) (is_pair p) ≡ true
unfolding is_pair
self_member (a, b) pairs = rw ((text_eqb_iff a a).1 refl, (text_eqb_iff b b).1 refl) refl

or_true : (a b : Bool) → b ≡ true → (a || b) ≡ true
or_true a b e = ground (arith, e)

members : GivesMembers (λ pairs. pairs)
unfolding GivesMembers
members [] = tt
members (p ∷ pairs) = (
  self_member p pairs,
  All_weaken _ _ pairs (λ q in_tail. or_true (is_pair q p) (any pairs (is_pair q)) in_tail)
      (members pairs),
)

capped_rows :
    map {B = Text × ℕ × ℕ}
      (λ (r : Row sample (λ x. x)). (r.developer_id, r.confidence, r.evidence_count))
      (find_by_skill sample (λ x. x) (λ pairs. pairs) (codes "rust") 30 10 two_developers)
    ≡ (codes "ann", 100, 2) ∷ (codes "bob", 40, 1) ∷ []
unfolding upsert_all find_by_skill skill_row evidence_for upsert_skill_with_evidence
    upsert_developer update_developer updated default_skill put_artifact put_edge is_between
    later_seen add_pair is_pair get_developer get_artifact username_of name_of artifacts_in by_date
    or_empty text_eqb text_ltb member_text sort_by insert_by min_of
capped_rows = refl

debuggers :
    map {B = Option Text × List Text}
      (λ (r : Row sample (λ x. x)). (r.github_username, map (λ (a : Artifact). a.id) r.evidence))
      (find_production_debuggers sample
        (λ x. x)
        (λ pairs. pairs)
        (codes "rust")
        4
        10
        two_developers)
    ≡ (some (codes "ann-dev"), codes "c1" ∷ codes "c2" ∷ []) ∷ []
unfolding upsert_all find_production_debuggers debugger_row is_hard_work add_to_group grouped
    confidence_of upsert_skill_with_evidence upsert_developer update_developer updated default_skill
    put_artifact put_edge is_between later_seen add_pair is_pair get_developer get_artifact
    username_of name_of artifacts_in by_date or_empty text_eqb text_ltb member_text sort_by
    insert_by min_of
debuggers = refl

find_production_debuggers-IsBacked_example :
    let rows =
      find_production_debuggers sample
        (λ x. x)
        (λ pairs. pairs)
        (codes "rust")
        4
        10
        two_developers in
    All
      (IsBacked sample
        (λ x. x)
        (λ pairs. pairs)
        (Shows (codes "rust") (is_hard_work 4) two_developers.demonstrates))
      rows
    × (length rows ≤ 10)
find_production_debuggers-IsBacked_example =
    find_production_debuggers-IsBacked sample (λ x. x) (λ pairs. pairs) members (codes "rust") 4 10
      two_developers
