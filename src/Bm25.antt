-- ===== src/Bm25.antt =====
-- pipeline/bm25_indexer.py: the tokens of a text, and the inverted index with its scores. The
-- arithmetic of arrays is that of the parameter `n`, `log` is `math.log`, and `set_of` gives the
-- elements of a `set` in the order in which Python runs through it. A `defaultdict` and an array that is
-- added to are functions.
use provenancerank.Prelude.{
  ℕ, zero, suc, ◌+◌, Bool, true, false, ◌&&◌, ◌||◌, List, [], ◌∷◌, ◌++◌, map, length, take, leb,
  ltb, ◌==◌, if◌then◌else◌,
}
use provenancerank.Floats.{Float}
use provenancerank.Text.{Text, is_digit, lower, text_eqb}
pub mod Postings
pub mod Inverted
mod Tests

-- A character of `[a-z0-9+#./-]`
unfoldable pub is_token_char : ℕ → Bool
unfolding is_digit
is_token_char c =
    (leb b'a' c && leb c b'z')
    || is_digit c
    || c == b'+'
    || c == b'#'
    || c == b'.'
    || c == b'/'
    || c == b'-'

unfoldable pub flush : Text → List Text → List Text
flush [] rest = rest
flush (w ∷ word) rest = (w ∷ word) ∷ rest

-- The matches of the pattern, with the match so far
unfoldable pub tokens_from : Text → Text → List Text
unfolding is_token_char flush
tokens_from word [] = flush word []
tokens_from word (c ∷ s) =
    let longer = tokens_from (word ++ c ∷ []) s in
    let next = tokens_from [] s in if is_token_char c then longer else flush word next

-- `tokenize`
unfoldable pub tokenize : Text → List Text
unfolding tokens_from lower
tokenize text = tokens_from [] (lower text)

-- `range(count)`
unfoldable pub indices_from : ℕ → ℕ → List ℕ
indices_from i zero = []
indices_from i (suc count) = i ∷ indices_from (i + 1) count

-- `xs[i]`, of an index that is there
unfoldable pub item_or {ℓ} : {A : Type ℓ} → A → List A → ℕ → A
item_or other [] i = other
item_or other (x ∷ xs) zero = x
item_or other (x ∷ xs) (suc i) = item_or other xs i

module _ (n : Float) (log : n.Value → n.Value) (set_of : List Text → List Text) where
  open n use {Value, geq, same, hundredths, plus, minus, times, over, of_nat, mean, single}

  -- The arguments of `from_corpus` beside the corpus.
  pub record Options : Type 0 where
    pub tok : Text → List Text
    pub k1 : Value
    pub b : Value
    pub max_df_ratio : Value
    pub max_tokens : ℕ

  pub record InvertedBm25 : Type 0 where
    pub k1 : Value
    pub b : Value
    pub n_docs : ℕ
    pub doc_len : List Value
    pub avgdl : Value
    pub postings : Text → List (ℕ × ℕ)
    pub idf : Text → Value

  -- `tok(text)[:max_tokens] if max_tokens else tok(text)`
  unfoldable pub tokens_of : Options → Text → List Text
  tokens_of o text = if o.max_tokens == 0 then o.tok text else take o.max_tokens (o.tok text)

  -- `df[t] += 1` for the terms
  unfoldable pub count_terms : List Text → (Text → ℕ) → Text → ℕ
  count_terms [] df = df
  count_terms (t ∷ ts) df = count_terms ts (λ u. if text_eqb t u then df u + 1 else df u)

  -- The first pass
  unfoldable pub document_frequencies : List (List Text) → (Text → ℕ) → Text → ℕ
  document_frequencies [] df = df
  document_frequencies (toks ∷ docs) df = document_frequencies docs (count_terms (set_of toks) df)

  -- `t in keep`, where the documents are `n`
  unfoldable pub is_kept : Value → ℕ → (Text → ℕ) → Text → Bool
  is_kept max_df_ratio count df t =
      ltb 0 (df t) && geq (times max_df_ratio (of_nat count)) (of_nat (df t))

  -- `tf[t] += 1`
  unfoldable pub count_term : Text → List (Text × ℕ) → List (Text × ℕ)
  count_term t [] = (t, 1) ∷ []
  count_term t ((u, f) ∷ tf) =
      let rest = count_term t tf in if text_eqb t u then (u, f + 1) ∷ tf else (u, f) ∷ rest

  -- `tf` of a document's tokens
  unfoldable pub term_frequencies : (Text → Bool) → List Text → List (Text × ℕ) → List (Text × ℕ)
  unfolding count_term
  term_frequencies keep [] tf = tf
  term_frequencies keep (t ∷ toks) tf =
      term_frequencies keep toks (if keep t then count_term t tf else tf)

  -- `postings[t].append((i, f))` for the terms of document `i`
  unfoldable pub add_postings : ℕ → List (Text × ℕ) → (Text → List (ℕ × ℕ)) → Text → List (ℕ × ℕ)
  add_postings i [] postings = postings
  add_postings i ((t, f) ∷ tf) postings =
      add_postings i tf (λ u. if text_eqb t u then postings u ++ (i, f) ∷ [] else postings u)

  -- The second pass, from document `i` on
  unfoldable pub postings_from :
      (Text → Bool) → ℕ → List (List Text) → (Text → List (ℕ × ℕ)) → Text → List (ℕ × ℕ)
  postings_from keep i [] postings = postings
  postings_from keep i (toks ∷ docs) postings =
      postings_from keep (i + 1) docs (add_postings i (term_frequencies keep toks []) postings)

  abbrev half : Value
  half = hundredths 50

  -- `math.log(1 + (n - df[t] + 0.5) / (df[t] + 0.5))`
  unfoldable pub idf_of : ℕ → ℕ → Value
  idf_of count df = log (
      plus (of_nat 1) (over (plus (minus (of_nat count) (of_nat df)) half) (plus (of_nat df) half)))

  -- `from_corpus`
  unfoldable pub from_corpus : Options → List Text → InvertedBm25
  from_corpus o corpus =
      let count = length corpus in
      let docs = map (tokens_of o) corpus in
      let doc_len = map (λ toks. of_nat (length toks)) docs in
      let df = document_frequencies docs (λ t. 0) in
      let keep = is_kept o.max_df_ratio count df in
      record {
        k1 = o.k1;
        b = o.b;
        n_docs = count;
        doc_len = doc_len;
        avgdl = if count == 0 then hundredths 0 else mean doc_len;
        postings = postings_from keep 0 docs (λ t. []);
        idf = λ t. if keep t then idf_of count (df t) else hundredths 0;
      }

  -- `k1 * (1 - b + b * doc_len / (avgdl or 1))`, of one document
  unfoldable pub denom_len : Value → Value → Value → Value → Value
  denom_len k1 b avgdl len =
      let average = if same avgdl (hundredths 0) then of_nat 1 else avgdl in
      times k1 (plus (minus (of_nat 1) b) (over (times b len) average))

  -- `idf * (f * (self.k1 + 1)) / (f + denom_len[doc_idx])`
  unfoldable pub term_score : Value → Value → ℕ → Value → Value
  term_score k1 idf f denom =
      over (times idf (times (of_nat f) (plus k1 (of_nat 1)))) (plus (of_nat f) denom)

  -- The loop over a posting
  unfoldable pub add_posting : Value → Value → List Value → List (ℕ × ℕ) → (ℕ → Value) → ℕ → Value
  add_posting k1 idf denoms [] scores = scores
  add_posting k1 idf denoms ((doc_idx, f) ∷ posting) scores =
      add_posting k1 idf denoms posting (λ j.
        if doc_idx == j
        then single (plus (scores j) (term_score k1 idf f (item_or (hundredths 0) denoms doc_idx)))
        else scores j)

  -- The loop over the query's terms
  unfoldable pub add_terms : InvertedBm25 → List Value → List Text → (ℕ → Value) → ℕ → Value
  add_terms index denoms [] scores = scores
  add_terms index denoms (t ∷ ts) scores =
      add_terms index denoms ts
        (add_posting index.k1 (index.idf t) denoms (index.postings t) scores)

  -- `get_scores`
  unfoldable pub get_scores : InvertedBm25 → List Text → List Value
  get_scores index query_tokens =
      let denoms = map (denom_len index.k1 index.b index.avgdl) index.doc_len in
      map (add_terms index denoms (set_of query_tokens) (λ j. hundredths 0))
        (indices_from 0 index.n_docs)

  -- `query_scores` of the inverted index
  unfoldable pub query_scores : InvertedBm25 → Text → List Value
  query_scores index text = map single (get_scores index (tokenize text))
