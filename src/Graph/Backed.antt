-- ===== src/Graph/Backed.antt =====
-- The evidence that the queries of graph/schema.py show.
use provenancerank.Prelude.{
  ℕ, ◌≤◌, ◌≡◌, refl, sym, ap, ◌∙◌, Bool, true, Option, none, some, List, [], ◌∷◌, any, length, All,
  All-take, All-sort_by, All-map, All-select, All-append, All_weaken, length-take_le, leb, leb→le,
  if◌then◌else◌, Bool-cases, inl, inr,
}
use provenancerank.Floats.{Float}
use provenancerank.Text.{Text, text_eqb}
use provenancerank.Text.Order.{text_eqb_iff}
use provenancerank.Graph.{Artifact, get_artifact, is_pair, Store, Row, artifacts_in}
use provenancerank.Graph.Debuggers.{
  is_hard_work, add_to_group, grouped, debugger_row, find_production_debuggers,
}

-- A set gives only pairs that are in it.
unfoldable pub GivesMembers : (List (Text × Text) → List (Text × Text)) → Type 0
GivesMembers pairs_of =
    (pairs : List (Text × Text)) → All (λ p. any pairs (is_pair p) ≡ true) (pairs_of pairs)

get_artifact-id_head :
    (id : Text) (artifacts : List Artifact) (a b : Artifact)
    → get_artifact id (b ∷ artifacts) ≡ some a
    → text_eqb b.id id ≡ true
    → a.id ≡ id
unfolding get_artifact
get_artifact-id_head id artifacts a b h e =
    let same_one : b ≡ a = cc in
    ap (λ (x : Artifact). x.id) (sym same_one) ∙ (text_eqb_iff b.id id).0 e

get_artifact-id :
    (id : Text) (artifacts : List Artifact) (a : Artifact)
    → get_artifact id artifacts ≡ some a
    → a.id ≡ id
unfolding get_artifact
get_artifact-id id [] a h = cc
get_artifact-id id (b ∷ artifacts) a h = elim (Bool-cases (text_eqb b.id id)) [
  | inl e ↦ get_artifact-id_head id artifacts a b h e
  | inr e ↦ get_artifact-id id artifacts a (rw e at h)
]

-- The artifact passes the test and demonstrates the skill.
unfoldable pub Shows : Text → (Artifact → Bool) → List (Text × Text) → Artifact → Type 0
Shows skill test pairs a = (test a ≡ true) × (any pairs (is_pair (a.id, skill)) ≡ true)

if_shows :
    (P : Artifact → Type 0) (b : Bool) (a : Artifact) (rest : List Artifact)
    → (b ≡ true → P a)
    → All P rest
    → All P (if b then a ∷ rest else rest)
if_shows P b a rest p ps = elim (Bool-cases b) [ inl e ↦ rw e (p e, ps) | inr e ↦ rw e ps ]

found_shows :
    (P : Artifact → Type 0) (test : Artifact → Bool) (o : Option Artifact) (rest : List Artifact)
    → ((a : Artifact) → o ≡ some a → test a ≡ true → P a)
    → All P rest
    → All P (elim o [ none ↦ rest | some a ↦ if test a then a ∷ rest else rest ])
found_shows P test none rest p ps = ps
found_shows P test (some a) rest p ps = if_shows P (test a) a rest (p a refl) ps

if_then :
    (P : List Artifact → Type 0) (b : Bool) (xs rest : List Artifact)
    → (b ≡ true → P xs)
    → P rest
    → P (if b then xs else rest)
if_then P b xs rest p q = elim (Bool-cases b) [ inl e ↦ rw e (p e) | inr e ↦ rw e q ]

module _ (n : Float) (round4 : n.Value → n.Value)
    (pairs_of : List (Text × Text) → List (Text × Text)) where
  artifacts_in-Shows :
      (skill : Text) (test : Artifact → Bool) (artifacts : List Artifact)
      (stored pairs : List (Text × Text))
      → All (λ p. any stored (is_pair p) ≡ true) pairs
      → All (Shows skill test stored) (artifacts_in n round4 pairs_of skill test artifacts pairs)
  unfolding artifacts_in Shows
  artifacts_in-Shows skill test artifacts stored [] hs = tt
  artifacts_in-Shows skill test artifacts stored ((art_id, sk) ∷ pairs) (h, hs) =
      let rest = artifacts_in n round4 pairs_of skill test artifacts pairs in
      let in_rest : All (Shows skill test stored) rest =
        artifacts_in-Shows skill test artifacts stored pairs hs in
      if_then (All (Shows skill test stored)) (text_eqb sk skill) _ rest
        (λ same_skill.
          found_shows (Shows skill test stored) test (get_artifact art_id artifacts) rest
            (λ a found passes. (
              passes,
              let same_id = get_artifact-id art_id artifacts a found in
                  let same_name = (text_eqb_iff sk skill).0 same_skill in
                  rw (same_id, ← same_name) h,
            ))
            in_rest)
        in_rest

  -- The artifacts of a group are of its developer.
  unfoldable pub IsGroup : (Artifact → Type 0) → Text × List Artifact → Type 0
  IsGroup P g = All (λ (a : Artifact). (a.developer_id ≡ g.0) × P a) g.1

  add_to_group-IsGroup :
      (P : Artifact → Type 0) (a : Artifact) (groups : List (Text × List Artifact))
      → P a
      → All (IsGroup P) groups
      → All (IsGroup P) (add_to_group a groups)
  unfolding add_to_group IsGroup
  add_to_group-IsGroup P a [] p hs = (((refl, p), tt), tt)
  add_to_group-IsGroup P a ((dev, arts) ∷ groups) p (h, hs) =
      elim (Bool-cases (text_eqb dev a.developer_id)) [
        | inl e ↦
            let same_dev = (text_eqb_iff dev a.developer_id).0 e in
            rw e (All-append _ arts (a ∷ []) h ((sym same_dev, p), tt), hs)
        | inr e ↦ rw e (h, add_to_group-IsGroup P a groups p hs)
      ]

  grouped-IsGroup :
      (P : Artifact → Type 0) (arts : List Artifact) (groups : List (Text × List Artifact))
      → All P arts
      → All (IsGroup P) groups
      → All (IsGroup P) (grouped arts groups)
  unfolding grouped
  grouped-IsGroup P [] groups ps hs = hs
  grouped-IsGroup P (a ∷ arts) groups (p, ps) hs =
      grouped-IsGroup P arts (add_to_group a groups) ps (add_to_group-IsGroup P a groups p hs)

  -- A row whose evidence is the developer's and has the property, of at least two pieces in all.
  unfoldable pub IsBacked : (Artifact → Type 0) → Row n round4 → Type 0
  IsBacked P row =
      (2 ≤ row.evidence_count)
      × All (λ (a : Artifact). (a.developer_id ≡ row.developer_id) × P a) row.evidence

  -- When the set gives only pairs that are in it, every developer that the search for debuggers lists has
  -- at least two pieces of evidence, and each artifact shown is the developer's own, is work of one of the
  -- sources and of the complexity asked for, and demonstrates the skill. There are at most `limit` of them.
  pub find_production_debuggers-IsBacked :
      GivesMembers pairs_of
      → (skill : Text) (min_complexity limit : ℕ) (s : Store n round4)
      → let rows = find_production_debuggers n round4 pairs_of skill min_complexity limit s in
        All (IsBacked (Shows skill (is_hard_work min_complexity) s.demonstrates)) rows
        × (length rows ≤ limit)
  unfolding find_production_debuggers IsBacked debugger_row IsGroup GivesMembers
  find_production_debuggers-IsBacked members skill min_complexity limit s =
      let P : Artifact → Type 0 = Shows skill (is_hard_work min_complexity) s.demonstrates in
      let hard =
        artifacts_in n round4 pairs_of skill (is_hard_work min_complexity) s.artifacts
          (pairs_of s.demonstrates) in
      let shown : All P hard =
        artifacts_in-Shows skill (is_hard_work min_complexity) s.artifacts s.demonstrates _
          (members s.demonstrates) in
      let groups = grouped hard [] in
      let in_groups : All (IsGroup P) groups = grouped-IsGroup P hard [] shown tt in
      let kept =
        All-select (IsGroup P) (λ (g : Text × List Artifact). leb 2 (length g.1)) groups
          in_groups in
      let rows = All-map (IsBacked P) (debugger_row n round4 skill s) _ (
        All_weaken _ _ _
          (λ g (of_group, enough).
            (leb→le 2 (length g.1) enough, All-take _ 3 _ (All-sort_by _ _ g.1 of_group)))
          kept) in
      (All-take _ limit _ (All-sort_by _ _ _ rows), length-take_le limit _)
