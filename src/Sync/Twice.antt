-- ===== src/Sync/Twice.antt =====
-- Running ingestion/sync.py again.
use provenancerank.Prelude.{
  ℕ, ◌+◌, ◌≡◌, refl, ap, ◌∙◌, Bool, true, false, ◌||◌, List, [], ◌∷◌, ◌++◌, All, count_by, arith,
  if_keeps, Bool-cases, inl, inr,
}
use provenancerank.Floats.{Float}
use provenancerank.Text.{Text, strip, text_eqb}
use provenancerank.Text.Order.{text_eqb_iff}
use provenancerank.Loader.{is_full}
use provenancerank.Sync.Signals.{Item, DeveloperSignals, iter_artifacts}
use provenancerank.Summaries.{SummaryResult}
use provenancerank.Sync.{
  Artifact, exists, Db, add_skill, add_skills, summarise_and_index, index_all, syncing, done,
  set_status, sync_developer,
}

exists-append :
    (h : Text) (arts : List Artifact) (a : Artifact)
    → exists h (arts ++ a ∷ []) ≡ (exists h arts || text_eqb a.content_hash h)
unfolding exists
exists-append h [] a = ground arith
exists-append h (b ∷ arts) a = ground (arith, exists-append h arts a)

-- The item has some content.
abbrev pub has_content : Item → Bool
has_content item = is_full (strip item.raw_content)

module _ (n : Float) (summarise_artifact : Text → Text → SummaryResult) (developer_id : Text) where
  abbrev index : Item → ℕ → Db n → Db n × Bool
  index = summarise_and_index n summarise_artifact developer_id

  add_skills-artifacts :
      (item : Item) (now : ℕ) (summary : SummaryResult) (id : ℕ) (ss : List Text) (db : Db n)
      → (add_skills n summarise_artifact developer_id item now summary id ss db).artifacts
        ≡ db.artifacts
  unfolding add_skills add_skill
  add_skills-artifacts item now summary id [] db = refl
  add_skills-artifacts item now summary id (s ∷ ss) db =
      add_skills-artifacts item now summary id ss
        (add_skill n summarise_artifact developer_id item now summary id s db)

  or_more : (a b : Bool) → a ≡ true → (a || b) ≡ true
  or_more a b h = ground arith

  or_last : (a b : Bool) → b ≡ true → (a || b) ≡ true
  or_last a b h = ground arith

  -- What was there is there after an artifact.
  index-keeps :
      (item : Item) (now : ℕ) (db : Db n) (h : Text)
      → exists h db.artifacts ≡ true
      → exists h (index item now db).0.artifacts ≡ true
  unfolding summarise_and_index
  index-keeps item now db h e = elim (Bool-cases (exists item.content_hash db.artifacts)) [
    | inl there ↦ rw there e
    | inr new ↦
        rw (new, add_skills-artifacts item now _ _ _ _, exists-append h db.artifacts _)
          (or_more _ _ e)
  ]

  -- The artifact is there after it.
  index-adds :
      (item : Item) (now : ℕ) (db : Db n)
      → exists item.content_hash (index item now db).0.artifacts ≡ true
  unfolding summarise_and_index
  index-adds item now db = elim (Bool-cases (exists item.content_hash db.artifacts)) [
    | inl there ↦ rw there there
    | inr new ↦
        rw
          (
            new,
            add_skills-artifacts item now _ _ _ _,
            exists-append item.content_hash db.artifacts _,
          )
          (or_last _ _ ((text_eqb_iff item.content_hash item.content_hash).1 refl))
  ]

  index-old :
      (item : Item) (now : ℕ) (db : Db n)
      → exists item.content_hash db.artifacts ≡ true
      → index item now db ≡ (db, false)
  unfolding summarise_and_index
  index-old item now db e = rw e refl

  -- Every item with content is in the table.
  Known : Db n → List Item → Type 0
  Known db = All (λ item. has_content item ≡ true → exists item.content_hash db.artifacts ≡ true)

  module _ (now : ℕ → ℕ) where
    abbrev go : ℕ → List Item → ℕ → ℕ → Db n → Db n × ℕ × ℕ
    go = index_all n summarise_artifact developer_id now

    -- What holds of the loop's result whether the first item is blank, indexed or skipped.
    go_cases :
        (P : Db n × ℕ × ℕ → Type 0) (i : ℕ) (item : Item) (items : List Item) (x y : ℕ) (db : Db n)
        → (has_content item ≡ false → P (go (i + 1) items x y db))
        → (has_content item ≡ true → P (go (i + 1) items (x + 1) y (index item (now i) db).0))
        → (has_content item ≡ true → P (go (i + 1) items x (y + 1) (index item (now i) db).0))
        → P (go i (item ∷ items) x y db)
    unfolding index_all
    go_cases P i item items x y db blank new old = elim (Bool-cases (has_content item)) [
      | inr e ↦ rw e (blank e)
      | inl e ↦ rw e (if_keeps P (index item (now i) db).1 (new e) (old e))
    ]

    go_nil : (i x y : ℕ) (db : Db n) → go i [] x y db ≡ (db, x, y)
    unfolding index_all
    go_nil i x y db = refl

    go-keeps :
        (i : ℕ) (items : List Item) (x y : ℕ) (db : Db n) (h : Text)
        → exists h db.artifacts ≡ true
        → exists h (go i items x y db).0.artifacts ≡ true
    go-keeps i [] x y db h e = rw (go_nil i x y db) e
    go-keeps i (item ∷ items) x y db h e =
        let db' = (index item (now i) db).0 in
        let e' = index-keeps item (now i) db h e in
        go_cases (λ r. exists h r.0.artifacts ≡ true) i item items x y db
          (λ _. go-keeps (i + 1) items x y db h e) (λ _. go-keeps (i + 1) items (x + 1) y db' h e')
          (λ _. go-keeps (i + 1) items x (y + 1) db' h e')

    absurd : {A : Type 0} (b : Bool) → b ≡ false → b ≡ true → A
    absurd b e e' = ground arith

    -- After the loop every item with content is in the table.
    go-Known : (i : ℕ) (items : List Item) (x y : ℕ) (db : Db n) → Known (go i items x y db).0 items
    unfolding Known
    go-Known i [] x y db = tt
    go-Known i (item ∷ items) x y db =
        let db' = (index item (now i) db).0 in
        let added = index-adds item (now i) db in
        go_cases (λ r. Known r.0 (item ∷ items)) i item items x y db
          (λ e. (absurd (has_content item) e, go-Known (i + 1) items x y db))
          (λ _. (
            λ _. go-keeps (i + 1) items (x + 1) y db' item.content_hash added,
            go-Known (i + 1) items (x + 1) y db',
          ))
          (λ _. (
            λ _. go-keeps (i + 1) items x (y + 1) db' item.content_hash added,
            go-Known (i + 1) items x (y + 1) db',
          ))

    plus_more : (y k : ℕ) → y + 1 + k ≡ y + (1 + k)
    plus_more y k = omega arith

    none_more : (y k : ℕ) → y + k ≡ y + (0 + k)
    none_more y k = omega arith

    -- The loop over items that are in the table changes nothing.
    go-Known' :
        (i : ℕ) (items : List Item) (x y : ℕ) (db : Db n)
        → Known db items
        → go i items x y db ≡ (db, x, y + count_by has_content items)
    unfolding index_all Known
    go-Known' i [] x y db h = ap (λ k. (db, x, k)) (omega arith)
    go-Known' i (item ∷ items) x y db (here, h) = elim (Bool-cases (has_content item)) [
      | inr blank ↦ rw blank (
          go-Known' (i + 1) items x y db h
          ∙ ap (λ k. (db, x, k)) (none_more y (count_by has_content items)))
      | inl full ↦
          rw (full, index-old item (now i) db (here full), go-Known' (i + 1) items x (y + 1) db h)
            (ap (λ k. (db, x, k)) (plus_more y (count_by has_content items)))
    ]

    go-counts :
        (i : ℕ) (items : List Item) (x y : ℕ) (db : Db n)
        → (go i items x y db).1 + (go i items x y db).2 ≡ x + y + count_by has_content items
    go-counts i [] x y db = rw (go_nil i x y db) (omega arith)
    go-counts i (item ∷ items) x y db =
        let db' = (index item (now i) db).0 in
        go_cases (λ r. r.1 + r.2 ≡ x + y + count_by has_content (item ∷ items)) i item items x y db
          (λ e. rw e (omega (arith, go-counts (i + 1) items x y db)))
          (λ e. rw e (omega (arith, go-counts (i + 1) items (x + 1) y db')))
          (λ e. rw e (omega (arith, go-counts (i + 1) items x (y + 1) db')))

  -- The second of two runs over the same signals, whatever the clock reads, the summaries are and the
  -- tables held at first: it indexes nothing and leaves the evidence, the skills and their links as
  -- they are. Of either run the counts of indexed and skipped artifacts make up the artifacts with some
  -- content.
  pub sync_developer_twice :
      (signals : DeveloperSignals) (now later : ℕ → ℕ) (db : Db n)
      → let (db', counts) = sync_developer n summarise_artifact developer_id signals now db in
        let (again, counts') = sync_developer n summarise_artifact developer_id signals later db' in
        (again.artifacts ≡ db'.artifacts)
        × (again.skills ≡ db'.skills)
        × (again.links ≡ db'.links)
        × (counts'.indexed ≡ 0)
        × (counts'.skipped ≡ count_by has_content (iter_artifacts signals))
        × (counts.indexed + counts.skipped ≡ count_by has_content (iter_artifacts signals))
  unfolding sync_developer set_status Known
  sync_developer_twice signals now later db =
      let items = iter_artifacts signals in
      let db₀ = set_status n summarise_artifact developer_id syncing db in
      let r = go now 0 items 0 0 db₀ in
      let db₁ =
        set_status n summarise_artifact developer_id syncing
          (set_status n summarise_artifact developer_id done r.0) in
      let second : go later 0 items 0 0 db₁ ≡ (db₁, 0, 0 + count_by has_content items) =
        go-Known' later 0 items 0 0 db₁ (go-Known now 0 items 0 0 db₀) in
      (
        ap (λ s. s.0.artifacts) second,
        ap (λ s. s.0.skills) second,
        ap (λ s. s.0.links) second,
        ap (λ s. s.1) second,
        ap (λ s. s.2) second ∙ omega arith,
        go-counts now 0 items 0 0 db₀ ∙ omega arith,
      )
