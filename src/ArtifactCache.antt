-- ===== src/ArtifactCache.antt =====
-- core/artifact_cache.py: artifacts with the keys of their inputs beside them, over a store of files,
-- and the stages of precompute.py that use it. `load` and `save` stand for `load_npy` and `save_npy`,
-- and for `load_json` and `save_json`; what was saved is what a readable file gives back.
use provenancerank.Prelude.{Bool, true, false, ◌&&◌, Option, none, some, if◌then◌else◌}
use provenancerank.Text.{Text, strip, text_eqb}
pub mod Honest
mod Tests

-- A file of an artifact that can be read, or not
pub data Content (A : Type 0) : Type 0 where
  good : A → Content A
  unreadable : Content A

-- The files, by the artifact's path: the artifact and its sidecar
pub record Store (A : Type 0) : Type 0 where
  pub artifacts : Text → Option (Content A)
  pub keys : Text → Option Text

-- A file that is written
unfoldable pub written : {B : Type 0} → Text → B → (Text → Option B) → Text → Option B
written path b files p = if text_eqb p path then some b else files p

-- `kp.exists() and kp.read_text().strip() == key`
unfoldable pub is_stamped : Text → Option Text → Bool
unfolding strip
is_stamped key none = false
is_stamped key (some text) = text_eqb (strip text) key

module _ {A : Type 0} where
  unfoldable pub exists : Option (Content A) → Bool
  exists none = false
  exists (some content) = true

  -- `is_fresh`
  unfoldable pub is_fresh : Text → Text → Store A → Bool
  is_fresh artifact key s = exists (s.artifacts artifact) && is_stamped key (s.keys artifact)

  -- `stamp`
  unfoldable pub stamp : Text → Text → Store A → Store A
  stamp artifact key s = record s { keys = written artifact key s.keys }

  unfoldable pub readable : Option (Content A) → Option A
  readable none = none
  readable (some unreadable) = none
  readable (some (good a)) = some a

  -- `load_npy` and `load_json`
  unfoldable pub load : Text → Text → Store A → Option A
  load artifact key s = if is_fresh artifact key s then readable (s.artifacts artifact) else none

  -- `np.save`, before the stamp
  unfoldable pub write : Text → A → Store A → Store A
  write artifact a s = record s { artifacts = written artifact (good a) s.artifacts }

  -- `save_npy` and `save_json`
  unfoldable pub save : Text → Text → A → Store A → Store A
  save artifact key a s = stamp artifact key (write artifact a s)

  unfoldable pub or_compute : Text → Text → A → Store A → Option A → Store A × A
  or_compute artifact key computed s none = (save artifact key computed s, computed)
  or_compute artifact key computed s (some a) = (s, a)

  -- A stage of precompute.py, with whether it resumes: `computed` is what it gives when it runs
  unfoldable pub cached_stage : Bool → Text → Text → A → Store A → Store A × A
  cached_stage resume artifact key computed s =
      or_compute artifact key computed s (if resume then load artifact key s else none)
