-- ===== src/Graph.antt =====
-- The in-memory store of graph/schema.py. Its dictionaries are lists with one entry for each key, in the
-- order of insertion; `pairs_of` gives the pairs of a set in the order in which Python runs through
-- them. A date is its ISO text, and `round4` is `round(x, 4)`.
use provenancerank.Prelude.{
  ℕ, ◌+◌, Bool, true, false, not, ◌&&◌, ◌||◌, Option, none, some, List, [], ◌∷◌, ◌++◌, map, any,
  select, length, take, sort_by, leb, ltb, ◌==◌, if◌then◌else◌,
}
use provenancerank.Floats.{Float, min_of}
use provenancerank.Text.{Text, codes, text_eqb, text_ltb, member_text}
use provenancerank.Loader.{is_full}
pub mod Debuggers
pub mod Backed
pub mod Tables
pub mod Valid
mod Tests

-- `WORK_SOURCES`
abbrev pub work_sources : List Text
work_sources = codes "commit_diff" ∷ codes "pr_review" ∷ codes "issue_thread" ∷ []

pub record Developer : Type 0 where
  pub id : Text
  pub github_username : Option Text
  pub display_name : Option Text

pub record Artifact : Type 0 where
  pub id : Text
  pub source_type : Text
  pub summary : Text
  pub complexity : ℕ
  pub production_signal : Bool
  pub url : Text
  pub date : Option Text
  pub developer_id : Text

-- The arguments of `upsert_skill_with_evidence` beside the confidence.
pub record Evidence : Type 0 where
  pub skill_name : Text
  pub skill_category : Text
  pub artifact : Artifact

-- `if name: d[...] = name`
unfoldable pub updated : Option Text → Option Text → Option Text
updated old none = old
updated old (some []) = old
updated old (some (c ∷ s)) = some (c ∷ s)

-- `setdefault` and the updates, for the developer with this id
unfoldable pub update_developer : Text → Option Text → Option Text → List Developer → List Developer
unfolding text_eqb updated
update_developer id username name [] =
    record { id = id; github_username = updated none username; display_name = updated none name }
    ∷ []
update_developer id username name (d ∷ ds) =
    let rest = update_developer id username name ds in
    if text_eqb d.id id
    then record d {
      github_username = updated d.github_username username;
      display_name = updated d.display_name name;
    }
      ∷ ds
    else d ∷ rest

unfoldable pub default_skill : Text → Text → List (Text × Text) → List (Text × Text)
default_skill name category [] = (name, category) ∷ []
default_skill name category ((s, c) ∷ skills) =
    let rest = default_skill name category skills in
    if text_eqb s name then (s, c) ∷ skills else (s, c) ∷ rest

-- `self.artifacts[artifact_id] = …`
unfoldable pub put_artifact : Artifact → List Artifact → List Artifact
put_artifact a [] = a ∷ []
put_artifact a (b ∷ artifacts) =
    let rest = put_artifact a artifacts in if text_eqb b.id a.id then a ∷ artifacts else b ∷ rest

-- `self.artifacts.get(art_id)`
unfoldable pub get_artifact : Text → List Artifact → Option Artifact
get_artifact id [] = none
get_artifact id (a ∷ artifacts) =
    let rest = get_artifact id artifacts in if text_eqb a.id id then some a else rest

unfoldable pub get_developer : Text → List Developer → Option Developer
get_developer id [] = none
get_developer id (d ∷ ds) =
    let rest = get_developer id ds in if text_eqb d.id id then some d else rest

unfoldable pub is_pair : Text × Text → Text × Text → Bool
is_pair p q = text_eqb p.0 q.0 && text_eqb p.1 q.1

-- `set.add`
unfoldable pub add_pair : Text × Text → List (Text × Text) → List (Text × Text)
unfolding is_pair
add_pair p pairs = if any pairs (is_pair p) then pairs else pairs ++ p ∷ []

unfoldable pub or_empty : Option Text → Text
or_empty none = []
or_empty (some s) = s

-- The greater of two dates, where a missing one is never greater
unfoldable pub later_seen : Option Text → Option Text → Option Text
later_seen last none = last
later_seen last (some []) = last
later_seen none (some (c ∷ s)) = some (c ∷ s)
later_seen (some last) (some (c ∷ s)) = if text_ltb last (c ∷ s) then some (c ∷ s) else some last

-- The latest first, as `sorted(…, reverse=True)` orders them
unfoldable pub by_date : List Artifact → List Artifact
by_date = sort_by (λ y x. text_ltb (or_empty x.date) (or_empty y.date))

module _ (n : Float) (round4 : n.Value → n.Value) where
  open n use {Value, less, same, hundredths, plus}

  -- An edge `HAS_SKILL`, with its key.
  pub record Edge : Type 0 where
    pub developer_id : Text
    pub skill_name : Text
    pub confidence : Value
    pub evidence_count : ℕ
    pub last_seen : Option Text

  pub record Store : Type 0 where
    pub developers : List Developer
    pub skills : List (Text × Text)
    pub artifacts : List Artifact
    pub has_skill : List Edge
    pub produced : List (Text × Text)
    pub demonstrates : List (Text × Text)

  unfoldable pub is_between : Text → Text → Edge → Bool
  is_between developer_id skill_name e =
      text_eqb e.developer_id developer_id && text_eqb e.skill_name skill_name

  -- The new edge, or the update of the one that is there
  unfoldable pub put_edge : Text → Text → Value → Option Text → List Edge → List Edge
  unfolding is_between later_seen
  put_edge developer_id skill_name confidence date [] =
      record {
        developer_id = developer_id;
        skill_name = skill_name;
        confidence = min_of n confidence (hundredths 100);
        evidence_count = 1;
        last_seen = date;
      }
      ∷ []
  put_edge developer_id skill_name confidence date (e ∷ es) =
      let rest = put_edge developer_id skill_name confidence date es in
      if is_between developer_id skill_name e
      then record e {
        confidence = min_of n (plus e.confidence confidence) (hundredths 100);
        evidence_count = e.evidence_count + 1;
        last_seen = later_seen e.last_seen date;
      }
        ∷ es
      else e ∷ rest

  -- `upsert_developer`
  unfoldable pub upsert_developer : Text → Option Text → Option Text → Store → Store
  upsert_developer id username name s = record s {
    developers = update_developer id username name s.developers;
  }

  -- `upsert_skill_with_evidence`
  unfoldable pub upsert_skill_with_evidence : Evidence → Value → Store → Store
  upsert_skill_with_evidence ev confidence s =
      let a = ev.artifact in
      let s' = upsert_developer a.developer_id none none s in
      record s' {
        skills = default_skill ev.skill_name ev.skill_category s'.skills;
        artifacts = put_artifact a s'.artifacts;
        has_skill = put_edge a.developer_id ev.skill_name confidence a.date s'.has_skill;
        produced = add_pair (a.developer_id, a.id) s'.produced;
        demonstrates = add_pair (a.id, ev.skill_name) s'.demonstrates;
      }

  -- A row of an answer.
  pub record Row : Type 0 where
    pub developer_id : Text
    pub github_username : Option Text
    pub display_name : Option Text
    pub confidence : Value
    pub evidence_count : ℕ
    pub evidence : List Artifact

  unfoldable pub username_of : Option Developer → Option Text
  username_of none = none
  username_of (some d) = d.github_username

  unfoldable pub name_of : Option Developer → Option Text
  name_of none = none
  name_of (some d) = d.display_name

  module _ (pairs_of : List (Text × Text) → List (Text × Text)) where
    -- The artifacts of the pairs with the skill that pass the test
    unfoldable pub artifacts_in :
        Text → (Artifact → Bool) → List Artifact → List (Text × Text) → List Artifact
    unfolding get_artifact
    artifacts_in skill_name test artifacts [] = []
    artifacts_in skill_name test artifacts ((art_id, sk) ∷ pairs) =
        let rest = artifacts_in skill_name test artifacts pairs in
        if text_eqb sk skill_name
        then elim (get_artifact art_id artifacts) [
          | none ↦ rest
          | some a ↦ if test a then a ∷ rest else rest
        ]
        else rest

    -- `_evidence_for`
    unfoldable pub evidence_for : Text → Text → Store → List Artifact
    evidence_for developer_id skill_name s = by_date (
        artifacts_in skill_name (λ a. text_eqb a.developer_id developer_id) s.artifacts
          (pairs_of s.demonstrates))

    unfoldable pub skill_row : Text → Store → Edge → Row
    skill_row skill_name s e =
        let dev = get_developer e.developer_id s.developers in
        record {
          developer_id = e.developer_id;
          github_username = username_of dev;
          display_name = name_of dev;
          confidence = round4 e.confidence;
          evidence_count = e.evidence_count;
          evidence = take 3 (evidence_for e.developer_id skill_name s);
        }

    -- `find_by_skill`
    unfoldable pub find_by_skill : Text → Value → ℕ → Store → List Row
    find_by_skill skill_name min_confidence limit s =
        let wanted =
          select (λ e. text_eqb e.skill_name skill_name && not (less e.confidence min_confidence))
            s.has_skill in
        take limit (
          sort_by
            (λ y x.
              less x.confidence y.confidence
              || (same x.confidence y.confidence && ltb x.evidence_count y.evidence_count))
            (map (skill_row skill_name s) wanted))
