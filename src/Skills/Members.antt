-- ===== src/Skills/Members.antt =====
-- Which names stand in the sets of intelligence/skill_extractor.py.
use provenancerank.Prelude.{
  ◌≡◌, refl, ap, ◌∙◌, Bool, true, false, ◌||◌, select, sort_by, insert_by, ◌&&◌, Option, none, some,
  List, [], ◌∷◌, map, any, if◌then◌else◌, Bool-cases, inl, inr, arith,
}
use provenancerank.Text.{Text, text_eqb, member_text}
use provenancerank.Text.Order.{text_eqb_iff}
use provenancerank.Skills.{distinct, sorted_set, found_names}

-- What the result of `canonicalise` adds to the skills found
unfoldable pub is_found : Text → Option Text → Bool
is_found s none = false
is_found s (some []) = false
is_found s (some (c ∷ t)) = text_eqb s (c ∷ t)

member_text-insert_by :
    (before : Text → Text → Bool) (s t : Text) (ts : List Text)
    → member_text s (insert_by before t ts) ≡ (text_eqb s t || member_text s ts)
unfolding insert_by member_text
member_text-insert_by before s t [] = ground arith
member_text-insert_by before s t (u ∷ ts) = ground (arith, member_text-insert_by before s t ts)

member_text-sort_by :
    (before : Text → Text → Bool) (s : Text) (ts : List Text)
    → member_text s (sort_by before ts) ≡ member_text s ts
unfolding sort_by member_text
member_text-sort_by before s [] = refl
member_text-sort_by before s (t ∷ ts) =
    member_text-insert_by before s t (sort_by before ts)
    ∙ rw (member_text-sort_by before s ts) (ground arith)

absorbed : (b c : Bool) → (b ≡ true → c ≡ true) → c ≡ (if b then true else c)
absorbed true c h = h refl
absorbed false c h = refl

member_text-distinct : (s : Text) (ts : List Text) → member_text s (distinct ts) ≡ member_text s ts
unfolding distinct member_text
member_text-distinct s [] = refl
member_text-distinct s (t ∷ ts) = elim (Bool-cases (member_text t ts)) [
  | inl there ↦
      let again : text_eqb s t ≡ true → member_text s ts ≡ true =
        λ e. ap (λ u. member_text u ts) ((text_eqb_iff s t).0 e) ∙ there in
      rw there (member_text-distinct s ts ∙ absorbed (text_eqb s t) (member_text s ts) again)
  | inr new ↦ rw new (ground (arith, member_text-distinct s ts))
]

pub member_text-sorted_set :
    (s : Text) (ts : List Text) → member_text s (sorted_set ts) ≡ member_text s ts
unfolding sorted_set
member_text-sorted_set s ts = member_text-sort_by _ s (distinct ts) ∙ member_text-distinct s ts

pub member_text-keys :
    (s : Text) (p : Text × List Text → Bool) (table : List (Text × List Text))
    → member_text s (map (λ e. e.0) (select p table)) ≡ any table (λ e. text_eqb s e.0 && p e)
unfolding member_text
member_text-keys s p [] = refl
member_text-keys s p (e ∷ table) = ground (arith, member_text-keys s p table)

found_cons :
    (s : Text) (o : Option Text) (rest : List (Option Text))
    → member_text s (found_names (o ∷ rest)) ≡ (is_found s o || member_text s (found_names rest))
unfolding found_names is_found member_text
found_cons s none rest = refl
found_cons s (some []) rest = refl
found_cons s (some (c ∷ t)) rest = ground arith

pub member_text-found_names :
    (s : Text) (f : Text → Option Text) (names : List Text)
    → member_text s (found_names (map f names)) ≡ any names (λ name. is_found s (f name))
unfolding found_names is_found member_text
member_text-found_names s f [] = refl
member_text-found_names s f (name ∷ names) =
    found_cons s (f name) (map f names)
    ∙ ap (λ b. is_found s (f name) || b) (member_text-found_names s f names)
