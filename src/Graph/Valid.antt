-- ===== src/Graph/Valid.antt =====
-- The integrity of the store of graph/schema.py: what its pairs and edges name is there.
use provenancerank.Prelude.{
  ◌≤◌, ◌≡◌, true, false, Option, none, List, [], ◌∷◌, All, All_weaken, if_keeps, arith,
}
use provenancerank.Floats.{Float, min_of}
use provenancerank.Text.{Text}
use provenancerank.Graph.{
  Developer, Artifact, Evidence, Edge, Store, is_between, put_edge, upsert_developer,
  upsert_skill_with_evidence,
}
use provenancerank.Graph.Tables.{
  has_developer, has_skill_named, has_artifact, update_developer-has, update_developer-keeps,
  default_skill-has, default_skill-keeps, put_artifact-has, put_artifact-keeps, All-put_artifact,
  All-add_pair,
}

module _ (n : Float) (round4 : n.Value → n.Value) where
  open n use {Value, less, hundredths, plus}

  -- The confidence is 1 at most and there is evidence, of a developer and a skill of the tables.
  unfoldable pub IsEdge : List Developer → List (Text × Text) → Edge n round4 → Type 0
  IsEdge ds skills e =
      (less (hundredths 100) e.confidence ≡ false)
      × (1 ≤ e.evidence_count)
      × (has_developer ds e.developer_id ≡ true)
      × (has_skill_named skills e.skill_name ≡ true)

  -- What the edges, the artifacts and the pairs name stands in the tables.
  pub record IsValid (s : Store n round4) : Type 0 where
    pub edges : All (IsEdge s.developers s.skills) s.has_skill
    pub owners :
        All (λ (a : Artifact). has_developer s.developers a.developer_id ≡ true) s.artifacts
    pub made :
        All
          (λ (p : Text × Text).
            (has_developer s.developers p.0 ≡ true) × (has_artifact s.artifacts p.1 ≡ true))
          s.produced
    pub shown :
        All
          (λ (p : Text × Text).
            (has_artifact s.artifacts p.0 ≡ true) × (has_skill_named s.skills p.1 ≡ true))
          s.demonstrates

  min_of-one :
      less (hundredths 100) (hundredths 100) ≡ false
      → (x : Value) → less (hundredths 100) (min_of n x (hundredths 100)) ≡ false
  unfolding min_of
  min_of-one h x = ground (arith, h)

  put_edge-IsEdge :
      less (hundredths 100) (hundredths 100) ≡ false
      → (ds : List Developer) (skills : List (Text × Text)) (dev skill : Text) (confidence : Value)
        (date : Option Text) (es : List (Edge n round4))
      → has_developer ds dev ≡ true
      → has_skill_named skills skill ≡ true
      → All (IsEdge ds skills) es
      → All (IsEdge ds skills) (put_edge n round4 dev skill confidence date es)
  unfolding put_edge IsEdge
  put_edge-IsEdge h ds skills dev skill confidence date [] known taught ps =
      ((min_of-one h confidence, omega arith, known, taught), tt)
  put_edge-IsEdge h ds skills dev skill confidence date (e ∷ es) known taught
        ((low, some', owner, of_skill), ps) =
      if_keeps (All (IsEdge ds skills)) (is_between n round4 dev skill e)
        ((min_of-one h (plus e.confidence confidence), omega arith, owner, of_skill), ps)
        (
          (low, some', owner, of_skill),
          put_edge-IsEdge h ds skills dev skill confidence date es known taught ps,
        )

  upsert_developer-IsValid :
      (id : Text) (username name : Option Text) (s : Store n round4)
      → IsValid s
      → IsValid (upsert_developer n round4 id username name s)
  unfolding upsert_developer IsEdge
  upsert_developer-IsValid id username name s v =
      let keeps = update_developer-keeps id username name s.developers in
      record {
        edges =
            All_weaken _ _ s.has_skill
              (λ e (low, count, owner, of_skill).
                (low, count, keeps e.developer_id owner, of_skill))
              v.edges;
        owners = All_weaken _ _ s.artifacts (λ a owner. keeps a.developer_id owner) v.owners;
        made = All_weaken _ _ s.produced (λ p (owner, there). (keeps p.0 owner, there)) v.made;
        shown = v.shown;
      }

  upsert_skill_with_evidence-IsValid :
      less (hundredths 100) (hundredths 100) ≡ false
      → (ev : Evidence) (confidence : Value) (s : Store n round4) → IsValid s
      → IsValid (upsert_skill_with_evidence n round4 ev confidence s)
  unfolding upsert_skill_with_evidence upsert_developer IsEdge
  upsert_skill_with_evidence-IsValid h ev confidence s v =
      let a = ev.artifact in
      let v' = upsert_developer-IsValid a.developer_id none none s v in
      let known = update_developer-has a.developer_id none none s.developers in
      let stored = put_artifact-has a s.artifacts in
      let taught = default_skill-has ev.skill_name ev.skill_category s.skills in
      let still = put_artifact-keeps a s.artifacts in
      let still_taught = default_skill-keeps ev.skill_name ev.skill_category s.skills in
      record {
        edges =
            put_edge-IsEdge h _ _ a.developer_id ev.skill_name confidence a.date s.has_skill known
              taught
              (All_weaken _ _ s.has_skill
                (λ e (low, count, owner, of_skill).
                  (low, count, owner, still_taught e.skill_name of_skill))
                v'.edges);
        owners = All-put_artifact _ a s.artifacts known v'.owners;
        made =
            All-add_pair _ (a.developer_id, a.id) s.produced (known, stored)
              (All_weaken _ _ s.produced (λ p (owner, there). (owner, still p.1 there)) v'.made);
        shown =
            All-add_pair _ (a.id, ev.skill_name) s.demonstrates (stored, taught)
              (All_weaken _ _ s.demonstrates
                (λ p (there, of_skill). (still p.0 there, still_taught p.1 of_skill)) v'.shown);
      }

  -- A call of the store that writes.
  pub data Upsert : Type 0 where
    developer : Text → Option Text → Option Text → Upsert
    evidence : Evidence → Value → Upsert

  unfoldable pub upsert_all : List Upsert → Store n round4 → Store n round4
  upsert_all [] s = s
  upsert_all (developer id username name ∷ calls) s =
      upsert_all calls (upsert_developer n round4 id username name s)
  upsert_all (evidence ev confidence ∷ calls) s =
      upsert_all calls (upsert_skill_with_evidence n round4 ev confidence s)

  -- Where 1 is not less than itself: after any calls, from a store that is valid (the empty one is),
  -- every edge has a confidence that is not above 1 and at least one piece of evidence, each artifact
  -- is a stored developer's, and the edges and the pairs of both sets name only developers, skills and
  -- artifacts that are stored, also where an artifact is stored anew for another developer.
  pub upsert_all-IsValid :
      less (hundredths 100) (hundredths 100) ≡ false
      → (calls : List Upsert) (s : Store n round4) → IsValid s
      → IsValid (upsert_all calls s)
  unfolding upsert_all
  upsert_all-IsValid h [] s v = v
  upsert_all-IsValid h (developer id username name ∷ calls) s v =
      upsert_all-IsValid h calls (upsert_developer n round4 id username name s)
        (upsert_developer-IsValid id username name s v)
  upsert_all-IsValid h (evidence ev confidence ∷ calls) s v =
      upsert_all-IsValid h calls (upsert_skill_with_evidence n round4 ev confidence s)
        (upsert_skill_with_evidence-IsValid h ev confidence s v)
