-- ===== src/Graph/Debuggers.antt =====
-- The traversal of graph/schema.py from a skill over its hard work to the developers, and the view of
-- one developer.
use provenancerank.Prelude.{
  ℕ, Bool, ◌&&◌, ◌||◌, Option, List, [], ◌∷◌, ◌++◌, map, select, length, take, sort_by, leb, ltb,
  ◌==◌, if◌then◌else◌,
}
use provenancerank.Floats.{Float}
use provenancerank.Text.{Text, text_eqb, member_text}
use provenancerank.Graph.{
  work_sources, Developer, Artifact, get_developer, by_date, Edge, Store, is_between, Row,
  username_of, name_of, artifacts_in,
}

-- Work of one of the sources and at least this complexity
unfoldable pub is_hard_work : ℕ → Artifact → Bool
is_hard_work min_complexity a =
    member_text a.source_type work_sources && leb min_complexity a.complexity

-- `by_dev.setdefault(…, []).append(art)`
unfoldable pub add_to_group : Artifact → List (Text × List Artifact) → List (Text × List Artifact)
unfolding text_eqb
add_to_group a [] = (a.developer_id, a ∷ []) ∷ []
add_to_group a ((dev, arts) ∷ groups) =
    let rest = add_to_group a groups in
    if text_eqb dev a.developer_id then (dev, arts ++ a ∷ []) ∷ groups else (dev, arts) ∷ rest

unfoldable pub grouped : List Artifact → List (Text × List Artifact) → List (Text × List Artifact)
unfolding add_to_group
grouped [] groups = groups
grouped (a ∷ arts) groups = grouped arts (add_to_group a groups)

-- `edge.get("confidence", 0.0)` of the edge between the two
unfoldable pub confidence_of :
    (n : Float) (round4 : n.Value → n.Value) → Text → Text → List (Edge n round4) → n.Value
unfolding is_between
confidence_of n round4 developer_id skill_name [] = n.hundredths 0
confidence_of n round4 developer_id skill_name (e ∷ es) =
    let rest = confidence_of n round4 developer_id skill_name es in
    if is_between n round4 developer_id skill_name e then e.confidence else rest

module _ (n : Float) (round4 : n.Value → n.Value) where
  open n use {Value, less, same}

  unfoldable pub debugger_row : Text → Store n round4 → Text × List Artifact → Row n round4
  debugger_row skill_name s (dev_id, arts) =
      let dev = get_developer dev_id s.developers in
      record {
        developer_id = dev_id;
        github_username = username_of n round4 dev;
        display_name = name_of n round4 dev;
        confidence = round4 (confidence_of n round4 dev_id skill_name s.has_skill);
        evidence_count = length arts;
        evidence = take 3 (sort_by (λ y x. ltb x.complexity y.complexity) arts);
      }

  -- `find_production_debuggers`
  unfoldable pub find_production_debuggers :
      (List (Text × Text) → List (Text × Text))
      → Text
      → ℕ
      → ℕ
      → Store n round4
      → List (Row n round4)
  find_production_debuggers pairs_of skill_name min_complexity limit s =
      let hard =
        artifacts_in n round4 pairs_of skill_name (is_hard_work min_complexity) s.artifacts
          (pairs_of s.demonstrates) in
      let groups = select (λ (g : Text × List Artifact). leb 2 (length g.1)) (grouped hard []) in
      take limit (
        sort_by
          (λ y x.
            ltb x.evidence_count y.evidence_count
            || (x.evidence_count == y.evidence_count && less x.confidence y.confidence))
          (map (debugger_row skill_name s) groups))

  -- `developer_subgraph`: the edges and the artifacts of a developer
  unfoldable pub developer_subgraph :
      Text → Store n round4 → Option Developer × List (Edge n round4) × List Artifact
  developer_subgraph developer_id s = (
    get_developer developer_id s.developers,
    sort_by (λ y x. less x.confidence y.confidence)
        (select (λ e. text_eqb e.developer_id developer_id) s.has_skill),
    by_date (select (λ a. text_eqb a.developer_id developer_id) s.artifacts),
  )
