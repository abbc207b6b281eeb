-- ===== src/Sync/Signals.antt =====
-- The signals of a developer that ingestion/github_client.py fetches, and the artifacts that
-- ingestion/sync.py makes of them.
use provenancerank.Prelude.{ℕ, ◌+◌, Option, List, [], ◌∷◌, ◌++◌, map, length}
use provenancerank.Text.{Text, codes, strip, join, decimal}

-- The signals of a developer, as the client gives them. A missing body is an empty text.
pub record Commit : Type 0 where
  pub repo : Text
  pub message : Text
  pub additions : ℕ
  pub deletions : ℕ
  pub authored_at : Option ℕ
  pub url : Text
  pub content_hash : Text

pub record Thread : Type 0 where
  pub title : Text
  pub body : Text
  pub url : Text
  pub created_at : Option ℕ
  -- `reviews` of a pull request, `comments` of an issue
  pub replies : List Text
  pub content_hash : Text

pub record DeveloperSignals : Type 0 where
  pub commits : List Commit
  pub pull_requests : List Thread
  pub issues : List Thread

-- What `_iter_artifacts` yields.
pub record Item : Type 0 where
  pub artifact_type : Text
  pub raw_content : Text
  pub content_hash : Text
  pub url : Text
  pub date : Option ℕ

-- `_commit_content`
unfoldable pub commit_content : Commit → Text
commit_content c =
    c.message
    ++ (10 ∷ codes "(+"
        ++ (decimal c.additions
            ++ (codes " -" ++ (decimal c.deletions ++ (codes " in " ++ (c.repo ++ codes ")"))))))

-- `_pr_content` and `_issue_content`
unfoldable pub thread_content : Thread → Text
thread_content t = strip (join (10 ∷ []) (t.title ∷ t.body ∷ t.replies))

unfoldable pub commit_item : Commit → Item
commit_item c = record {
  artifact_type = codes "commit_diff";
  raw_content = commit_content c;
  content_hash = c.content_hash;
  url = c.url;
  date = c.authored_at;
}

unfoldable pub thread_item : Text → Thread → Item
thread_item artifact_type t = record {
  artifact_type = artifact_type;
  raw_content = thread_content t;
  content_hash = t.content_hash;
  url = t.url;
  date = t.created_at;
}

-- `_iter_artifacts`
unfoldable pub iter_artifacts : DeveloperSignals → List Item
iter_artifacts sig =
    map commit_item sig.commits
    ++ (map (thread_item (codes "pr_review")) sig.pull_requests
        ++ map (thread_item (codes "issue_thread")) sig.issues)

-- `total_artifacts`
unfoldable pub total_artifacts : DeveloperSignals → ℕ
total_artifacts sig = length sig.commits + length sig.pull_requests + length sig.issues
