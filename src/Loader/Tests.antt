-- ===== src/Loader/Tests.antt =====
-- The batches and texts of pipeline/loader.py on concrete input.
use provenancerank.Prelude.{ℕ, ◌≡◌, refl, List, [], ◌∷◌, sort_by, insert_by}
use provenancerank.Text.{codes, strip, lstrip, is_space, join}
use provenancerank.Candidates.Sample.{candidate}
use provenancerank.Loader.{
  batches_from, stream_batches, is_full, document, recent_parts, rerank_text,
}

abbrev numbers : List ℕ
numbers = 7 ∷ 8 ∷ 9 ∷ []

two : stream_batches 2 numbers ≡ (7 ∷ 8 ∷ []) ∷ (9 ∷ []) ∷ []
unfolding stream_batches batches_from
two = refl

text :
    rerank_text candidate
    ≡ codes "ML Engineer Search engineer ML Engineer Ranking in production FAISS Python Excel"
unfolding rerank_text document is_full recent_parts strip lstrip is_space join sort_by insert_by
text = refl
