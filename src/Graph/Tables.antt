-- ===== src/Graph/Tables.antt =====
-- The tables of the store of graph/schema.py: what an upsert puts there and what stays there.
use provenancerank.Prelude.{
  ◌≡◌, refl, ap, Bool, true, Option, List, [], ◌∷◌, any, All, All-append, if_keeps, Bool-cases, inl,
  inr, arith,
}
use provenancerank.Text.{Text, text_eqb}
use provenancerank.Text.Order.{text_eqb_iff}
use provenancerank.Graph.{
  Developer, Artifact, update_developer, default_skill, put_artifact, is_pair, add_pair,
}

unfoldable pub has_developer : List Developer → Text → Bool
has_developer ds id = any ds (λ d. text_eqb d.id id)

unfoldable pub has_skill_named : List (Text × Text) → Text → Bool
has_skill_named skills name = any skills (λ s. text_eqb s.0 name)

unfoldable pub has_artifact : List Artifact → Text → Bool
has_artifact artifacts id = any artifacts (λ a. text_eqb a.id id)

self_eqb : (s : Text) → text_eqb s s ≡ true
self_eqb s = (text_eqb_iff s s).1 refl

pub update_developer-has :
    (id : Text) (username name : Option Text) (ds : List Developer)
    → has_developer (update_developer id username name ds) id ≡ true
unfolding update_developer has_developer
update_developer-has id username name [] = ground (arith, self_eqb id)
update_developer-has id username name (d ∷ ds) =
    ground (arith, update_developer-has id username name ds)

pub update_developer-keeps :
    (id : Text) (username name : Option Text) (ds : List Developer) (other : Text)
    → has_developer ds other ≡ true
    → has_developer (update_developer id username name ds) other ≡ true
unfolding update_developer has_developer
update_developer-keeps id username name [] other h = ground (arith, h)
update_developer-keeps id username name (d ∷ ds) other h =
    ground (arith, h, update_developer-keeps id username name ds other)

pub default_skill-has :
    (name category : Text) (skills : List (Text × Text))
    → has_skill_named (default_skill name category skills) name ≡ true
unfolding default_skill has_skill_named
default_skill-has name category [] = ground (arith, self_eqb name)
default_skill-has name category ((s, c) ∷ skills) =
    ground (arith, default_skill-has name category skills)

pub default_skill-keeps :
    (name category : Text) (skills : List (Text × Text)) (other : Text)
    → has_skill_named skills other ≡ true
    → has_skill_named (default_skill name category skills) other ≡ true
unfolding default_skill has_skill_named
default_skill-keeps name category [] other h = ground (arith, h)
default_skill-keeps name category ((s, c) ∷ skills) other h =
    ground (arith, h, default_skill-keeps name category skills other)

pub put_artifact-has :
    (a : Artifact) (artifacts : List Artifact) → has_artifact (put_artifact a artifacts) a.id ≡ true
unfolding put_artifact has_artifact
put_artifact-has a [] = ground (arith, self_eqb a.id)
put_artifact-has a (b ∷ artifacts) = ground (arith, self_eqb a.id, put_artifact-has a artifacts)

pub put_artifact-keeps :
    (a : Artifact) (artifacts : List Artifact) (other : Text)
    → has_artifact artifacts other ≡ true
    → has_artifact (put_artifact a artifacts) other ≡ true
unfolding put_artifact has_artifact
put_artifact-keeps a [] other h = ground (arith, h)
put_artifact-keeps a (b ∷ artifacts) other h = elim (Bool-cases (text_eqb b.id a.id)) [
  | inl e ↦
      let same_id = ap (λ i. text_eqb i other) ((text_eqb_iff b.id a.id).0 e) in
      rw e (rw (← same_id) h)
  | inr e ↦ rw e (ground (arith, h, put_artifact-keeps a artifacts other))
]

pub All-put_artifact :
    (P : Artifact → Type 0) (a : Artifact) (artifacts : List Artifact)
    → P a
    → All P artifacts
    → All P (put_artifact a artifacts)
unfolding put_artifact
All-put_artifact P a [] p ps = (p, tt)
All-put_artifact P a (b ∷ artifacts) p (q, ps) =
    if_keeps (All P) (text_eqb b.id a.id) (p, ps) (q, All-put_artifact P a artifacts p ps)

pub All-add_pair :
    (P : Text × Text → Type 0) (p : Text × Text) (pairs : List (Text × Text))
    → P p
    → All P pairs
    → All P (add_pair p pairs)
unfolding add_pair
All-add_pair P p pairs h hs =
    if_keeps (All P) (any pairs (is_pair p)) hs (All-append P pairs (p ∷ []) hs (h, tt))
