-- ===== src/Bm25/Postings.antt =====
-- The dictionaries that `from_corpus` of pipeline/bm25_indexer.py fills.
use provenancerank.Prelude.{
  ℕ, ◌+◌, ◌≡◌, refl, sym, ap, ◌∙◌, Bool, true, false, List, [], ◌∷◌, ◌++◌, map, count_by, ◌==◌,
  if◌then◌else◌, if_keeps, Bool-cases, inl, inr, arith,
}
use mathlib.Core.List.{append_assoc, append-nil}
use provenancerank.Floats.{Float}
use provenancerank.Text.{Text, text_eqb, member_text}
use provenancerank.Text.Order.{text_eqb_iff, text_eqb_sym}
use provenancerank.Bm25.{
  count_terms, document_frequencies, count_term, term_frequencies, add_postings, postings_from,
}

-- How often a term stands among the tokens.
abbrev pub occurrences : Text → List Text → ℕ
occurrences t toks = count_by (λ u. text_eqb u t) toks

-- In how many documents it stands.
abbrev pub spread : Text → List (List Text) → ℕ
spread t docs = count_by (member_text t) docs

-- A set has each of the elements once.
unfoldable pub IsSetOf : (List Text → List Text) → Type 0
IsSetOf set_of =
    (xs : List Text) (t : Text) → occurrences t (set_of xs) ≡ (if member_text t xs then 1 else 0)

module _ (n : Float) (log : n.Value → n.Value) (set_of : List Text → List Text) where
  open n use {Value, less, geq, same, hundredths, plus, times, of_nat, mean, single}

  count_terms-eq :
      (ts : List Text) (df : Text → ℕ) (u : Text)
      → count_terms n log set_of ts df u ≡ df u + occurrences u ts
  unfolding count_terms
  count_terms-eq [] df u = omega arith
  count_terms-eq (t ∷ ts) df u =
      ground (arith, count_terms-eq ts (λ v. if text_eqb t v then df v + 1 else df v) u)

  pub document_frequencies-eq :
      IsSetOf set_of
      → (docs : List (List Text)) (df : Text → ℕ) (u : Text)
      → document_frequencies n log set_of docs df u ≡ df u + spread u docs
  unfolding document_frequencies IsSetOf
  document_frequencies-eq h [] df u = omega arith
  document_frequencies-eq h (toks ∷ docs) df u = omega (
    arith,
    document_frequencies-eq h docs (count_terms n log set_of (set_of toks) df) u,
    count_terms-eq (set_of toks) df u,
    h toks u,
  )

  -- What stands under a term in `tf`
  values : Text → List (Text × ℕ) → List ℕ
  values s [] = []
  values s ((u, f) ∷ tf) = if text_eqb s u then f ∷ values s tf else values s tf

  unfoldable pub once : ℕ → List ℕ
  once k = if k == 0 then [] else k ∷ []

  same_key : (t u : Text) → text_eqb t u ≡ true → t ≡ u
  same_key t u e = (text_eqb_iff t u).0 e

  values-count_term_other :
      (s t : Text) (tf : List (Text × ℕ))
      → text_eqb s t ≡ false
      → values s (count_term n log set_of t tf) ≡ values s tf
  unfolding values count_term
  values-count_term_other s t [] e = rw e refl
  values-count_term_other s t ((u, f) ∷ tf) e = elim (Bool-cases (text_eqb t u)) [
    | inl eq ↦ rw (eq, ← same_key t u eq, e) refl
    | inr ne ↦ rw (ne, values-count_term_other s t tf e) refl
  ]

  grown : List ℕ → List ℕ
  grown [] = 1 ∷ []
  grown (f ∷ fs) = (f + 1) ∷ fs

  values-count_term :
      (s : Text) (tf : List (Text × ℕ))
      → values s (count_term n log set_of s tf) ≡ grown (values s tf)
  unfolding values count_term grown
  values-count_term s [] = rw ((text_eqb_iff s s).1 refl) refl
  values-count_term s ((u, f) ∷ tf) = elim (Bool-cases (text_eqb s u)) [
    | inl eq ↦ rw (eq, eq) refl
    | inr ne ↦ rw (ne, ne) (values-count_term s tf)
  ]

  grown-once : (k : ℕ) → grown (once k) ≡ once (k + 1)
  unfolding grown once
  grown-once k = elim (Bool-cases (k == 0)) [ inl e ↦ ground arith | inr e ↦ rw e (ground arith) ]

  -- How often a kept term stands among the tokens
  unfoldable pub frequency : (Text → Bool) → Text → List Text → ℕ
  frequency keep t toks = if keep t then occurrences t toks else 0

  counted_same :
      (keep : Text → Bool) (s : Text) (tf : List (Text × ℕ)) (k : ℕ)
      → values s tf ≡ once k
      → values s (if keep s then count_term n log set_of s tf else tf)
        ≡ once (k + (if keep s then 1 else 0))
  counted_same keep s tf k e = elim (Bool-cases (keep s)) [
    | inl kept ↦ rw kept (values-count_term s tf ∙ ap grown e ∙ grown-once k)
    | inr dropped ↦ rw dropped (e ∙ ap once (omega arith))
  ]

  counted_other :
      (keep : Text → Bool) (s t : Text) (tf : List (Text × ℕ))
      → text_eqb s t ≡ false
      → values s (if keep t then count_term n log set_of t tf else tf) ≡ values s tf
  counted_other keep s t tf e =
      if_keeps (λ r. values s r ≡ values s tf) (keep t) (values-count_term_other s t tf e) refl

  values-term_frequencies :
      (keep : Text → Bool) (s : Text) (toks : List Text) (tf : List (Text × ℕ)) (k : ℕ)
      → values s tf ≡ once k
      → values s (term_frequencies n log set_of keep toks tf) ≡ once (k + frequency keep s toks)
  unfolding term_frequencies frequency
  values-term_frequencies keep s [] tf k e = e ∙ ap once (ground arith)
  values-term_frequencies keep s (t ∷ toks) tf k e = elim (Bool-cases (text_eqb s t)) [
    | inl eq ↦ rw (← same_key s t eq) (
        values-term_frequencies keep s toks (if keep s then count_term n log set_of s tf else tf)
          (k + (if keep s then 1 else 0)) (counted_same keep s tf k e)
        ∙ ap once (rw ((text_eqb_iff s s).1 refl) (ground arith)))
    | inr ne ↦
        values-term_frequencies keep s toks (if keep t then count_term n log set_of t tf else tf) k
          (counted_other keep s t tf ne ∙ e)
        ∙ ap once (rw (text_eqb_sym t s ∙ ne) (ground arith))
  ]

  add_postings-eq :
      (i : ℕ) (tf : List (Text × ℕ)) (postings : Text → List (ℕ × ℕ)) (t : Text)
      → add_postings n log set_of i tf postings t ≡ postings t ++ map (λ f. (i, f)) (values t tf)
  unfolding add_postings values
  add_postings-eq i [] postings t = sym (append-nil (postings t))
  add_postings-eq i ((u, f) ∷ tf) postings t = elim (Bool-cases (text_eqb t u)) [
    | inl eq ↦
        add_postings-eq i tf _ t
        ∙ rw (eq, text_eqb_sym u t ∙ eq) (append_assoc (postings t) ((i, f) ∷ []) _)
    | inr ne ↦ add_postings-eq i tf _ t ∙ rw (ne, text_eqb_sym u t ∙ ne) refl
  ]

  values-document :
      (keep : Text → Bool) (t : Text) (toks : List Text)
      → values t (term_frequencies n log set_of keep toks []) ≡ once (frequency keep t toks)
  unfolding values once
  values-document keep t toks =
      values-term_frequencies keep t toks [] 0 refl ∙ ap once (omega arith)

  -- The posting of a term, from document `i` on
  unfoldable pub entries : (Text → Bool) → Text → ℕ → List (List Text) → List (ℕ × ℕ)
  entries keep t i [] = []
  entries keep t i (toks ∷ docs) =
      map (λ f. (i, f)) (once (frequency keep t toks)) ++ entries keep t (i + 1) docs

  pub postings_from-eq :
      (keep : Text → Bool) (i : ℕ) (docs : List (List Text)) (postings : Text → List (ℕ × ℕ))
      (t : Text)
      → postings_from n log set_of keep i docs postings t ≡ postings t ++ entries keep t i docs
  unfolding postings_from entries
  postings_from-eq keep i [] postings t = sym (append-nil (postings t))
  postings_from-eq keep i (toks ∷ docs) postings t =
      let tf = term_frequencies n log set_of keep toks [] in
      postings_from-eq keep (i + 1) docs (add_postings n log set_of i tf postings) t
      ∙ rw (add_postings-eq i tf postings t, values-document keep t toks)
          (append_assoc (postings t) _ _)
