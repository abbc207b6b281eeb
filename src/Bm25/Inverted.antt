-- ===== src/Bm25/Inverted.antt =====
-- The inverted index of pipeline/bm25_indexer.py against the formula that it speeds up.
use provenancerank.Prelude.{
  ℕ, zero, suc, ◌+◌, ◌<◌, ◌≡◌, refl, ap, ◌∙◌, Bool, List, [], ◌∷◌, map, length, ◌==◌, if◌then◌else◌,
  if_keeps, Bool-cases, inl, inr, arith, length-map,
}
use std.Path.{fun_ext}
use provenancerank.Floats.{Float}
use provenancerank.Text.{Text}
use provenancerank.Bm25.Postings.{
  spread, IsSetOf, document_frequencies-eq, once, frequency, entries, postings_from-eq,
}
use provenancerank.Bm25.{
  indices_from, item_or, Options, InvertedBm25, tokens_of, document_frequencies, is_kept,
  postings_from, idf_of, from_corpus, denom_len, term_score, add_posting, add_terms, get_scores,
}

module _ (n : Float) (log : n.Value → n.Value) (set_of : List Text → List Text) where
  open n use {Value, less, geq, same, hundredths, plus, times, of_nat, mean, single}

  -- What a term adds to a document's score
  with_posting : Value → Value → Value → ℕ → Value → Value
  with_posting k1 idf denom f score =
      if f == 0 then score else single (plus score (term_score n log set_of k1 idf f denom))

  module _ (keep : Text → Bool) (t : Text) (k1 idf : Value) (denoms : List Value) where
    abbrev denom_at : ℕ → Value
    denom_at i = item_or (hundredths 0) denoms i

    abbrev scored : ℕ → ℕ → (ℕ → Value) → ℕ → Value
    scored i f scores j = if i == j then with_posting k1 idf (denom_at i) f (scores j) else scores j

    abbrev postings_loop : ℕ → List (List Text) → (ℕ → Value) → ℕ → Value
    postings_loop i docs =
        add_posting n log set_of k1 idf denoms (entries n log set_of keep t i docs)

    postings_loop-cons :
        (i : ℕ) (toks : List Text) (docs : List (List Text)) (j : ℕ) (result : Value → Value)
        → ((s : ℕ → Value) → postings_loop (i + 1) docs s j ≡ result (s j))
        → (scores : ℕ → Value)
        → postings_loop i (toks ∷ docs) scores j
          ≡ result (scored i (frequency n log set_of keep t toks) scores j)
    unfolding entries once add_posting with_posting
    postings_loop-cons i toks docs j result rest scores =
        elim (Bool-cases (frequency n log set_of keep t toks == 0)) [
          | inl e ↦
              rw (e, rest scores) (if_keeps (λ v. result (scores j) ≡ result v) (i == j) refl refl)
          | inr e ↦ rw e (rest _)
        ]

    other : (i j : ℕ) (a b : Value) → j < i → (if i == j then a else b) ≡ b
    other i j a b h = ground arith

    hit : (i j : ℕ) (a b : Value) → i ≡ j → (if i == j then a else b) ≡ a
    hit i j a b h = ground arith

    miss : (i j d : ℕ) (a b : Value) → j ≡ i + suc d → (if i == j then a else b) ≡ b
    miss i j d a b h = ground arith

    -- An earlier document is left alone.
    postings_loop_below :
        (i : ℕ) (docs : List (List Text)) (j : ℕ)
        → j < i
        → (scores : ℕ → Value) → postings_loop i docs scores j ≡ scores j
    unfolding entries add_posting
    postings_loop_below i [] j h scores = refl
    postings_loop_below i (toks ∷ docs) j h scores =
        postings_loop-cons i toks docs j (λ v. v) (postings_loop_below (i + 1) docs j (omega arith))
          scores
        ∙ other i j _ _ h

    at_zero : (i j : ℕ) → j ≡ i + 0 → i ≡ j
    at_zero i j e = omega arith

    -- The posting of a term grows each score by that of the document alone.
    postings_loop_at :
        (i : ℕ) (docs : List (List Text)) (d j : ℕ)
        → j ≡ i + d
        → d < length docs
        → (scores : ℕ → Value)
        → postings_loop i docs scores j
          ≡ with_posting k1 idf
              (denom_at j)
              (frequency n log set_of keep t (item_or [] docs d))
              (scores j)
    unfolding item_or
    postings_loop_at i [] d j e h scores = absurd (omega arith)
    postings_loop_at i (toks ∷ docs) zero j e h scores =
        postings_loop-cons i toks docs j (λ v. v) (postings_loop_below (i + 1) docs j (omega arith))
          scores
        ∙ hit i j _ _ (omega arith)
        ∙ ap (λ k. with_posting k1 idf (denom_at k) (frequency n log set_of keep t toks) (scores j))
            (at_zero i j e)
    postings_loop_at i (toks ∷ docs) (suc d) j e h scores =
        postings_loop-cons i toks docs j
          (with_posting k1 idf (denom_at j) (frequency n log set_of keep t (item_or [] docs d)))
          (postings_loop_at (i + 1) docs d j (omega arith) (omega arith)) scores
        ∙ ap (with_posting k1 idf (denom_at j) (frequency n log set_of keep t (item_or [] docs d)))
            (miss i j d _ _ e)

  item_or-map {ℓ} :
      {A : Type ℓ} (f : A → Value) (x : A) (y : Value) (xs : List A) (d : ℕ)
      → d < length xs
      → item_or y (map f xs) d ≡ f (item_or x xs d)
  unfolding item_or
  item_or-map f x y [] d h = absurd (omega arith)
  item_or-map f x y (z ∷ xs) zero h = refl
  item_or-map f x y (z ∷ xs) (suc d) h = item_or-map f x y xs d (omega arith)

  map-indices_from {ℓ} :
      {A : Type ℓ} (f : ℕ → Value) (g : A → Value) (x : A) (i : ℕ) (xs : List A)
      → ((d j : ℕ) → j ≡ i + d → d < length xs → f j ≡ g (item_or x xs d))
      → map f (indices_from i (length xs)) ≡ map g xs
  unfolding item_or indices_from
  map-indices_from f g x i [] h = refl
  map-indices_from f g x i (y ∷ xs) h =
      rw
        (
          h 0 i (omega arith) (omega arith),
          map-indices_from f g x (i + 1) xs
              (λ d j e below. h (suc d) j (omega arith) (omega arith)),
        )
        refl

  -- What the terms add to a score, one after the other.
  pub sum_terms : (Text → Value → Value) → List Text → Value → Value
  sum_terms term [] score = score
  sum_terms term (t ∷ ts) score = sum_terms term ts (term t score)

  -- The score of a document by the formula, where a term stands in `df t` documents.
  pub score_with :
      (Text → ℕ) → Options n log set_of → List (List Text) → List Text → List Text → Value
  score_with df o docs query toks =
      let count = length docs in
      let keep = is_kept n log set_of o.max_df_ratio count df in
      let avgdl = if count == 0 then hundredths 0 else mean (map (λ ts. of_nat (length ts)) docs) in
      let denom = denom_len n log set_of o.k1 o.b avgdl (of_nat (length toks)) in
      sum_terms
        (λ t.
          with_posting o.k1 (if keep t then idf_of n log set_of count (df t) else hundredths 0)
            denom (frequency n log set_of keep t toks))
        (set_of query) (hundredths 0)

  zero_more : (d : ℕ) → 0 + d ≡ d
  zero_more d = omega arith

  add_terms-eq :
      (index : InvertedBm25 n log set_of) (denoms : List Value) (keep : Text → Bool)
      (docs : List (List Text)) (d : ℕ)
      → ((t : Text) → index.postings t ≡ entries n log set_of keep t 0 docs)
      → d < length docs
      → (ts : List Text) (scores : ℕ → Value)
      → add_terms n log set_of index denoms ts scores d
        ≡ sum_terms
            (λ t.
              with_posting index.k1
                (index.idf t)
                (item_or (hundredths 0) denoms d)
                (frequency n log set_of keep t (item_or [] docs d)))
            ts
            (scores d)
  unfolding add_terms sum_terms
  add_terms-eq index denoms keep docs d p h [] scores = refl
  add_terms-eq index denoms keep docs d p h (t ∷ ts) scores =
      add_terms-eq index denoms keep docs d p h ts _
      ∙ ap
          (sum_terms
            (λ t.
              with_posting index.k1 (index.idf t) (item_or (hundredths 0) denoms d)
                (frequency n log set_of keep t (item_or [] docs d)))
            ts)
          (rw (p t) (
            postings_loop_at keep t index.k1 (index.idf t) denoms 0 docs d d (omega arith) h
              scores))

  module _ (o : Options n log set_of) (docs : List (List Text)) where
    abbrev df : Text → ℕ
    df = document_frequencies n log set_of docs (λ t. 0)

    abbrev keep : Text → Bool
    keep = is_kept n log set_of o.max_df_ratio (length docs) df

    abbrev lens : List Value
    lens = map (λ ts. of_nat (length ts)) docs

    -- The index of tokenized documents
    abbrev index : InvertedBm25 n log set_of
    index = record {
      k1 = o.k1;
      b = o.b;
      n_docs = length docs;
      doc_len = lens;
      avgdl = if length docs == 0 then hundredths 0 else mean lens;
      postings = postings_from n log set_of keep 0 docs (λ t. []);
      idf = λ t. if keep t then idf_of n log set_of (length docs) (df t) else hundredths 0;
    }

    abbrev denom : Value → Value
    denom = denom_len n log set_of o.k1 o.b index.avgdl

    denom_at_eq :
        (d : ℕ)
        → d < length docs
        → item_or (hundredths 0) (map denom lens) d ≡ denom (of_nat (length (item_or [] docs d)))
    denom_at_eq d h =
        item_or-map denom (hundredths 0) (hundredths 0) lens d
          (rw (length-map (λ ts. of_nat (length ts)) docs) h)
        ∙ ap denom (item_or-map (λ ts. of_nat (length ts)) [] (hundredths 0) docs d h)

    get_scores-index :
        (query : List Text)
        → get_scores n log set_of index query ≡ map (score_with df o docs query) docs
    unfolding get_scores score_with
    get_scores-index query = map-indices_from _ _ [] 0 docs (λ d j e h. rw (e ∙ zero_more d) (
        add_terms-eq index (map denom lens) keep docs d
          (λ t. postings_from-eq n log set_of keep 0 docs (λ u. []) t) h (set_of query)
          (λ i. hundredths 0)
        ∙ rw (denom_at_eq d h) refl))

  from_corpus-eq :
      (o : Options n log set_of) (corpus : List Text)
      → from_corpus n log set_of o corpus ≡ index o (map (tokens_of n log set_of o) corpus)
  unfolding from_corpus
  from_corpus-eq o corpus = rw (length-map (tokens_of n log set_of o) corpus) refl

  -- For sets that Python runs through in any order, as long as each element comes once, any `log` and
  -- any arithmetic, NaN and rounding included: the inverted index gives each document the score that
  -- the BM25 formula gives it alone, when it adds up over the query's terms in that order those that
  -- the document has and that stand in at most the share `max_df_ratio` of the documents.
  pub get_scores-from_corpus :
      IsSetOf set_of
      → (o : Options n log set_of) (corpus query : List Text)
      → let docs = map (tokens_of n log set_of o) corpus in
        get_scores n log set_of (from_corpus n log set_of o corpus) query
        ≡ map (score_with (λ t. spread t docs) o docs query) docs
  get_scores-from_corpus h o corpus query =
      let docs = map (tokens_of n log set_of o) corpus in
      ap (λ i. get_scores n log set_of i query) (from_corpus-eq o corpus)
      ∙ get_scores-index o docs query
      ∙ ap (λ df. map (score_with df o docs query) docs)
          (fun_ext (λ t. document_frequencies-eq n log set_of h docs (λ u. 0) t ∙ omega arith))
