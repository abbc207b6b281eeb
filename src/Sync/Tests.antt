-- ===== src/Sync/Tests.antt =====
-- Two runs of ingestion/sync.py over the signals of one developer.
use provenancerank.Prelude.{ℕ, ◌≡◌, ◌+◌, true, false, none, some, [], ◌∷◌, count_by}
use provenancerank.Floats.Sample.{sample}
use provenancerank.Text.{Text, codes}
use provenancerank.Sync.Signals.{DeveloperSignals, iter_artifacts}
use provenancerank.Summaries.{SummaryResult}
use provenancerank.Sync.{Db, pending, sync_developer}
use provenancerank.Sync.Twice.{has_content, sync_developer_twice}

abbrev developer : Text
developer = codes "ada"

-- Every artifact shows one skill.
abbrev summarise_artifact : Text → Text → SummaryResult
summarise_artifact artifact_type content = record {
  what_was_done = content;
  skills_demonstrated = codes "python" ∷ [];
  complexity = 3;
  problem_category = codes "backend";
  production_signal = true;
  collaboration_signal = false;
  content_hash = [];
  raw_chars = 0;
  source = codes "llm";
}

-- A commit, a pull request with the same content hash and an issue without text
abbrev signals : DeveloperSignals
signals = record {
  commits =
      record {
        repo = codes "search";
        message = codes "Add ranking";
        additions = 40;
        deletions = 2;
        authored_at = some 9;
        url = codes "u";
        content_hash = codes "a1";
      }
      ∷ [];
  pull_requests =
      record {
        title = codes "Ranking";
        body = [];
        url = codes "v";
        created_at = none;
        replies = [];
        content_hash = codes "a1";
      }
      ∷ [];
  issues =
      record {
        title = [];
        body = [];
        url = codes "w";
        created_at = none;
        replies = [];
        content_hash = codes "b2";
      }
      ∷ [];
}

abbrev db : Db sample
db = record { artifacts = []; skills = []; links = []; next_id = 1; status = λ _. pending }

abbrev first : ℕ → ℕ
first i = 100 + i

abbrev later : ℕ → ℕ
later i = 900 + i

sync_developer_twice_example :
    let (db', counts) = sync_developer sample summarise_artifact developer signals first db in
    let (again, counts') = sync_developer sample summarise_artifact developer signals later db' in
    (again.artifacts ≡ db'.artifacts)
    × (again.skills ≡ db'.skills)
    × (again.links ≡ db'.links)
    × (counts'.indexed ≡ 0)
    × (counts'.skipped ≡ count_by has_content (iter_artifacts signals))
    × (counts.indexed + counts.skipped ≡ count_by has_content (iter_artifacts signals))
sync_developer_twice_example =
    sync_developer_twice sample summarise_artifact developer signals first later db
