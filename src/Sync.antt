-- ===== src/Sync.antt =====
-- ingestion/sync.py over the tables of db/repositories.py: what a developer's fetched signals add to
-- the evidence and the skills. The fetch and the summary (a language model, or the heuristic in its
-- place) are the parameters; ids are numbers, given out in order; the clock is read once for each
-- artifact. A graph write that fails is passed over, so the graph is left out, as is a skill's
-- category.
use provenancerank.Prelude.{
  ℕ, ◌+◌, Bool, true, false, not, ◌&&◌, Option, none, some, List, [], ◌∷◌, ◌++◌, take, any, ltb,
  if◌then◌else◌,
}
use provenancerank.Floats.{Float, min_of}
use provenancerank.Text.{Text, strip, text_eqb}
use provenancerank.Loader.{is_full}
use provenancerank.Sync.Signals.{DeveloperSignals, Item, iter_artifacts, total_artifacts}
use provenancerank.Summaries.{SummaryResult}
use provenancerank.Confidence.{compute_confidence, half_life_days, default_normaliser}
pub mod Signals
pub mod Twice
mod Tests

pub record Artifact : Type 0 where
  pub id : ℕ
  pub developer_id : Text
  pub source_type : Text
  pub source_url : Text
  pub content_hash : Text
  pub raw_content : Text
  pub summary : SummaryResult
  pub artifact_date : Option ℕ

pub data SyncStatus : Type 0 where
  pending syncing done : SyncStatus

-- `EvidenceRepository.exists`
unfoldable pub exists : Text → List Artifact → Bool
exists content_hash artifacts = any artifacts (λ a. text_eqb a.content_hash content_hash)

-- `_now` is later than the date that is there
unfoldable pub later_date : Option ℕ → ℕ → Option ℕ
later_date none d = some d
later_date (some last) d = if ltb last d then some d else some last

-- `artifact_date or dt.datetime.now(dt.timezone.utc)`
unfoldable pub date_or_now : Option ℕ → ℕ → ℕ
date_or_now none now = now
date_or_now (some d) now = d

module _ (n : Float) where
  open n use {Value, hundredths, plus}

  pub record SkillRecord : Type 0 where
    pub id : ℕ
    pub developer_id : Text
    pub skill_name : Text
    pub confidence_score : Value
    pub evidence_count : ℕ
    pub last_seen_at : Option ℕ

  -- The tables, with the next id, and a developer's status.
  pub record Db : Type 0 where
    pub artifacts : List Artifact
    pub skills : List SkillRecord
    -- Pairs of a skill and an artifact
    pub links : List (ℕ × ℕ)
    pub next_id : ℕ
    pub status : Text → SyncStatus

  unfoldable pub is_of : Text → Text → SkillRecord → Bool
  is_of developer_id skill_name r =
      text_eqb r.developer_id developer_id && text_eqb r.skill_name skill_name

  -- The update of a record that is there, by this contribution and date
  unfoldable pub grow : Value → ℕ → SkillRecord → SkillRecord
  grow confidence date r = record r {
    confidence_score = min_of n (plus r.confidence_score confidence) (hundredths 100);
    evidence_count = r.evidence_count + 1;
    last_seen_at = later_date r.last_seen_at date;
  }

  -- The record of a skill, and the first place where it stands or the end
  unfoldable pub upsert_in : Text → Text → Value → ℕ → ℕ → List SkillRecord → List SkillRecord × ℕ
  upsert_in developer_id skill_name confidence date id [] = (
    record {
      id = id;
      developer_id = developer_id;
      skill_name = skill_name;
      confidence_score = min_of n confidence (hundredths 100);
      evidence_count = 1;
      last_seen_at = some date;
    }
        ∷ [],
    id,
  )
  upsert_in developer_id skill_name confidence date id (r ∷ rs) =
      let (rest, found) = upsert_in developer_id skill_name confidence date id rs in
      if is_of developer_id skill_name r
      then (grow confidence date r ∷ rs, r.id)
      else (r ∷ rest, found)

  module _ (summarise_artifact : Text → Text → SummaryResult) where
    -- `SkillRepository.upsert` and `link_evidence`, for one skill of an artifact
    unfoldable pub add_skill : Text → Item → ℕ → SummaryResult → ℕ → Text → Db → Db
    add_skill developer_id item now summary artifact_id skill db =
        let when = date_or_now item.date now in
        let contribution =
          compute_confidence n (half_life_days n) (default_normaliser n)
            (record {
              source_type = item.artifact_type;
              skill_name = skill;
              artifact_date = when;
              complexity_score = summary.complexity;
            }
              ∷ [])
            skill now in
        let (skills, id) = upsert_in developer_id skill contribution when db.next_id db.skills in
        record db {
          skills = skills;
          links = db.links ++ (id, artifact_id) ∷ [];
          next_id = db.next_id + 1;
        }

    -- The loop over the skills
    unfoldable pub add_skills : Text → Item → ℕ → SummaryResult → ℕ → List Text → Db → Db
    add_skills developer_id item now summary artifact_id [] db = db
    add_skills developer_id item now summary artifact_id (s ∷ ss) db =
        add_skills developer_id item now summary artifact_id ss
          (add_skill developer_id item now summary artifact_id s db)

    -- `summarise_and_index`, with whether it indexed
    unfoldable pub summarise_and_index : Text → Item → ℕ → Db → Db × Bool
    summarise_and_index developer_id item now db =
        let summary = summarise_artifact item.artifact_type item.raw_content in
        let artifact : Artifact = record {
          id = db.next_id;
          developer_id = developer_id;
          source_type = item.artifact_type;
          source_url = item.url;
          content_hash = item.content_hash;
          raw_content = take 8000 item.raw_content;
          summary = summary;
          artifact_date = item.date;
        } in
        let created = record db {
          artifacts = db.artifacts ++ artifact ∷ [];
          next_id = db.next_id + 1;
        } in
        if exists item.content_hash db.artifacts then (db, false) else (
          add_skills developer_id item now summary artifact.id summary.skills_demonstrated created,
          true,
        )

    -- The loop of `sync_developer` over the artifacts with the counts so far; the clock reads `now i` for
    -- the i-th of them
    unfoldable pub index_all : Text → (ℕ → ℕ) → ℕ → List Item → ℕ → ℕ → Db → Db × ℕ × ℕ
    index_all developer_id now i [] indexed skipped db = (db, indexed, skipped)
    index_all developer_id now i (item ∷ items) indexed skipped db =
        let (db', did) = summarise_and_index developer_id item (now i) db in
        let passed = index_all developer_id now (i + 1) items indexed skipped db in
        let new = index_all developer_id now (i + 1) items (indexed + 1) skipped db' in
        let old = index_all developer_id now (i + 1) items indexed (skipped + 1) db' in
        if not (is_full (strip item.raw_content)) then passed else if did then new else old

    -- The counts that `sync_developer` returns.
    pub record Counts : Type 0 where
      pub indexed : ℕ
      pub skipped : ℕ
      pub fetched : ℕ

    -- `DeveloperRepository.set_status` and `mark_synced`
    unfoldable pub set_status : Text → SyncStatus → Db → Db
    set_status developer_id status db = record db {
      status = λ d. if text_eqb d developer_id then status else db.status d;
    }

    -- `sync_developer`, with what the client fetched
    unfoldable pub sync_developer : Text → DeveloperSignals → (ℕ → ℕ) → Db → Db × Counts
    sync_developer developer_id signals now db =
        let (db', indexed, skipped) =
          index_all developer_id now 0 (iter_artifacts signals) 0 0
            (set_status developer_id syncing db) in
        (
          set_status developer_id done db',
          record { indexed = indexed; skipped = skipped; fetched = total_artifacts signals },
        )
