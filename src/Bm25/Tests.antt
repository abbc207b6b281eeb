-- ===== src/Bm25/Tests.antt =====
-- The index of pipeline/bm25_indexer.py over three short texts, in whole hundredths.
use provenancerank.Prelude.{
  ◌≡◌, refl, ◌∙◌, List, [], ◌∷◌, map, if◌then◌else◌, if_keeps, Bool-cases, inl, inr, arith,
}
use provenancerank.Floats.Sample.{sample}
use provenancerank.Text.{Text, codes, is_digit, lower, text_eqb, member_text}
use provenancerank.Text.Order.{text_eqb_iff, text_eqb_sym}
use provenancerank.Bm25.{
  is_token_char, flush, tokens_from, tokenize, Options, tokens_of, from_corpus, get_scores,
  indices_from, item_or, count_terms, document_frequencies, is_kept, count_term, term_frequencies,
  add_postings, postings_from, idf_of, denom_len, term_score, add_posting, add_terms,
}
use provenancerank.Bm25.Postings.{occurrences, spread, IsSetOf}
use provenancerank.Bm25.Inverted.{score_with, get_scores-from_corpus}

-- Each element at its last place
distinct : List Text → List Text
distinct [] = []
distinct (x ∷ xs) = if member_text x xs then distinct xs else x ∷ distinct xs

distinct-IsSetOf : IsSetOf distinct
unfolding IsSetOf distinct member_text
distinct-IsSetOf [] t = refl
distinct-IsSetOf (x ∷ xs) t = elim (Bool-cases (text_eqb t x)) [
  | inl e ↦
      rw ((text_eqb_iff t x).0 e, (text_eqb_iff x x).1 refl)
        (elim (Bool-cases (member_text x xs)) [
          | inl there ↦ rw (there, distinct-IsSetOf xs x, there) refl
          | inr new ↦ rw (new, (text_eqb_iff x x).1 refl, distinct-IsSetOf xs x, new) (omega arith)
        ])
  | inr e ↦ rw e (
      if_keeps (λ ys. occurrences t ys ≡ (if member_text t xs then 1 else 0)) (member_text x xs)
        (distinct-IsSetOf xs t) (rw (text_eqb_sym x t ∙ e, distinct-IsSetOf xs t) (omega arith)))
]

abbrev options : Options sample (λ x. x) distinct
options = record { tok = tokenize; k1 = 150; b = 75; max_df_ratio = 50; max_tokens = 200 }

abbrev corpus : List Text
corpus = codes "Qdrant, FAISS" ∷ codes "search with faiss and C++" ∷ codes "C++ and Go" ∷ []

tokens : tokenize (codes "Go, C++!") ≡ codes "go" ∷ codes "c++" ∷ []
unfolding tokenize tokens_from flush is_token_char is_digit lower
tokens = refl

scores :
    get_scores sample
      (λ x. x)
      distinct
      (from_corpus sample (λ x. x) distinct options corpus)
      (codes "c++" ∷ codes "go" ∷ codes "go" ∷ [])
    ≡ 0 ∷ 0 ∷ 279 ∷ []
unfolding get_scores from_corpus add_terms distinct member_text text_eqb tokens_of tokenize
    tokens_from flush is_token_char is_digit lower count_terms document_frequencies is_kept
    count_term term_frequencies add_postings postings_from idf_of denom_len term_score add_posting
    indices_from item_or
scores = refl

get_scores-from_corpus_example :
    let docs = map (tokens_of sample (λ x. x) distinct options) corpus in
    let query = codes "qdrant" ∷ codes "search" ∷ codes "and" ∷ [] in
    get_scores sample (λ x. x) distinct (from_corpus sample (λ x. x) distinct options corpus) query
    ≡ map (score_with sample (λ x. x) distinct (λ t. spread t docs) options docs query) docs
get_scores-from_corpus_example =
    get_scores-from_corpus sample (λ x. x) distinct distinct-IsSetOf options corpus
      (codes "qdrant" ∷ codes "search" ∷ codes "and" ∷ [])
