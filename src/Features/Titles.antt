-- ===== src/Features/Titles.antt =====
-- The tests on titles, companies and places of pipeline/feature_engineering.py.
use provenancerank.Prelude.{ℕ, Bool, false, List, [], ◌∷◌, any, if◌then◌else◌}
use provenancerank.Floats.{Float}
use provenancerank.Text.{Text, codes, lower, contains}
use provenancerank.Constants.{consulting_firms, technical_title_tokens, non_technical_title_tokens}

-- `any(tok in t for tok in tokens)`
unfoldable pub has_any : Text → List Text → Bool
has_any t tokens = any tokens (λ tok. contains tok t)

-- `_TITLE_LEVELS`
abbrev pub title_levels : List (List Text × ℕ)
title_levels =
    (
      codes "director" ∷ codes "vp" ∷ codes "vice president" ∷ codes "head of" ∷ codes "chief" ∷ [],
      7,
    )
    ∷ (codes "manager" ∷ codes "lead manager" ∷ [], 6)
    ∷ (codes "principal" ∷ codes "architect" ∷ codes "distinguished" ∷ [], 5)
    ∷ (codes "staff" ∷ codes "lead" ∷ codes "tech lead" ∷ [], 4)
    ∷ (codes "senior" ∷ codes "sr." ∷ codes "sr " ∷ [], 3)
    ∷ (codes "intern" ∷ codes "trainee" ∷ [], 0)
    ∷ (codes "junior" ∷ codes "jr." ∷ codes "associate" ∷ codes "graduate" ∷ [], 1)
    ∷ []

-- The loop of `_title_level`
unfoldable pub first_level : Text → List (List Text × ℕ) → ℕ
unfolding has_any
first_level t [] = 2
first_level t ((tokens, level) ∷ rest) =
    let later = first_level t rest in if has_any t tokens then level else later

-- `_title_level`
unfoldable pub title_level : Text → ℕ
title_level title = first_level (lower title) title_levels

-- `_is_consulting`
unfoldable pub is_consulting : Text → Bool
is_consulting company = has_any (lower company) consulting_firms

-- `_is_technical_title`
unfoldable pub is_technical_title : Text → Bool
is_technical_title title =
    let t = lower title in
    if has_any t non_technical_title_tokens then false else has_any t technical_title_tokens

abbrev pub relevant_title_tokens : List Text
relevant_title_tokens =
    codes "ml"
    ∷ codes "ai"
    ∷ codes "machine learning"
    ∷ codes "data scientist"
    ∷ codes "applied scientist"
    ∷ codes "nlp"
    ∷ codes "research"
    ∷ codes "data engineer"
    ∷ []

-- `_title_relevance_factor`
unfoldable pub title_relevance_factor : (n : Float) → Text → n.Value
title_relevance_factor n title =
    let t = lower title in
    if has_any t non_technical_title_tokens
    then n.hundredths 0
    else if has_any t relevant_title_tokens
    then n.hundredths 100
    else if has_any t technical_title_tokens
    then n.hundredths 55
    else n.hundredths 30
