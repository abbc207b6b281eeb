-- ===== src/Features/Career.antt =====
-- `compute_career_features` of pipeline/feature_engineering.py.
use provenancerank.Prelude.{
  ℕ, ◌+◌, ◌*◌, Bool, true, false, not, ◌&&◌, Option, none, some, List, [], ◌∷◌, map, length, select,
  sort_by, leb, ltb, ◌==◌, if◌then◌else◌,
}
use provenancerank.Floats.{Float, clip, max_of, of_bool}
use provenancerank.Text.{Text, codes, lower, word_count, join, distinct_count}
use provenancerank.Constants.{production_keywords}
use provenancerank.Candidates.{Role, Candidate, parse_date, date_or, dataset_today, total_months}
use provenancerank.Features.Titles.{has_any, title_level, is_consulting, is_technical_title}

-- The ordinals of the 1st of January 1900 and of the 19th of June 2022
abbrev pub long_ago : ℕ
long_ago = 693596

abbrev pub recent_from : ℕ
recent_from = 738325

-- `roles[-1]` of a list that begins with this role
unfoldable pub last_of : Role → List Role → Role
last_of r [] = r
last_of r (s ∷ rs) = last_of s rs

-- `next((r for r in roles if r.get("is_current")), default)`
unfoldable pub next_current : Option Role → List Role → Option Role
next_current default [] = default
next_current default (r ∷ rs) =
    let later = next_current default rs in if r.is_current then some r else later

-- `roles[-1] if roles else None`
unfoldable pub last_role : List Role → Option Role
last_role [] = none
last_role (r ∷ rs) = some (last_of r rs)

module _ (n : Float) where
  open n use {Value}

  -- The keys of the result.
  pub record CareerFeatures : Type 0 where
    pub role_count : ℕ
    pub total_experience_years : Value
    pub avg_tenure_months : Value
    pub scope_progression_score : Value
    pub has_recent_career_gap : Value
    pub product_company_ratio : Value
    pub all_consulting_career : Value
    pub last_role_start_recency_months : Value
    pub avg_title_tenure_months : Value
    pub title_chaser_flag : Value
    pub avg_description_words : Value
    pub has_production_keywords : Value
    pub technical_role_count : ℕ

module _ (from_iso : Text → Option ℕ) where
  unfoldable pub start_of : Role → ℕ
  start_of r = date_or long_ago (parse_date from_iso r.start_date)

  -- `sorted(career, key=...)`
  unfoldable pub sorted_roles : List Role → List Role
  sorted_roles = sort_by (λ y x. ltb (start_of y) (start_of x))

  -- The test in the loop over the gaps, from the end of one role to the start of the next
  unfoldable pub is_gap : ℕ → Option ℕ → Bool
  is_gap prev_end none = false
  is_gap prev_end (some cur_start) =
      ltb (prev_end + 183) cur_start && ltb dataset_today (cur_start + 60 * 30)

  -- The loop over the gaps, after this role
  unfoldable pub has_gap : Role → List Role → Bool
  has_gap prev [] = false
  has_gap prev (cur ∷ rs) =
      let later = has_gap cur rs in
      if is_gap (date_or dataset_today (parse_date from_iso prev.end_date))
        (parse_date from_iso cur.start_date)
      then true
      else later

  unfoldable pub any_gap : List Role → Bool
  any_gap [] = false
  any_gap (r ∷ rs) = has_gap r rs

  -- `recent`, and its short tenures
  unfoldable pub short_recent : List Role → List Role
  short_recent roles =
      select (λ r. ltb r.duration_months 18) (select (λ r. leb recent_from (start_of r)) roles)

  unfoldable pub title_chaser : List Role → Bool
  title_chaser roles = leb 3 (distinct_count (map (λ r. r.company) (short_recent roles)))

  module _ (n : Float) where
    open n use {Value, hundredths, plus, times, over, of_nat, of_difference, ratio, mean}

    -- `scope`, of the sorted roles
    unfoldable pub scope_of : List Role → Value
    scope_of [] = hundredths 50
    scope_of (r ∷ []) = hundredths 50
    scope_of (r ∷ s ∷ rs) = clip n (hundredths 0) (hundredths 100) (
        plus (hundredths 50) (
          times (hundredths 10)
            (of_difference (title_level (last_of s rs).title) (title_level r.title))))

    unfoldable pub recency_from : Option ℕ → Value
    recency_from none = hundredths 0
    recency_from (some d) =
        max_of n (over (of_difference dataset_today d) (hundredths 3044)) (hundredths 0)

    -- `last_recency`, of `current`
    unfoldable pub last_recency : Option Role → Value
    last_recency none = hundredths 0
    last_recency (some r) = recency_from (parse_date from_iso r.start_date)

    -- `float(np.mean(xs)) if xs else 0.0`
    unfoldable pub mean_or_zero : List Value → Value
    mean_or_zero [] = hundredths 0
    mean_or_zero (x ∷ xs) = mean (x ∷ xs)

    -- `len(non_consulting) / len(roles)`, and `sum(durations) / unique_titles`, of some roles
    unfoldable pub product_ratio : List Role → Value
    product_ratio [] = hundredths 0
    product_ratio (r ∷ rs) =
        ratio (length (select (λ r. not (is_consulting r.company)) (r ∷ rs))) (length (r ∷ rs))

    unfoldable pub title_tenure : List Role → Value
    title_tenure [] = hundredths 0
    title_tenure (r ∷ rs) =
        ratio (total_months (r ∷ rs)) (distinct_count (map (λ r. r.title) (r ∷ rs)))

    -- `bool(roles) and len(non_consulting) == 0`
    unfoldable pub all_consulting : List Role → Bool
    all_consulting roles =
        ltb 0 (length roles) && length (select (λ r. not (is_consulting r.company)) roles) == 0

    -- `has_prod_kw`
    unfoldable pub has_prod_kw : List Role → Bool
    has_prod_kw roles =
        has_any (lower (join (codes " ") (map (λ r. r.description) roles))) production_keywords

    unfoldable pub compute_career_features : Candidate n → CareerFeatures n
    compute_career_features c =
        let roles = sorted_roles c.career_history in
        record {
          role_count = length roles;
          total_experience_years = c.profile.years_of_experience;
          avg_tenure_months = mean_or_zero (map (λ r. of_nat r.duration_months) roles);
          scope_progression_score = scope_of roles;
          has_recent_career_gap = of_bool n (any_gap roles);
          product_company_ratio = product_ratio roles;
          all_consulting_career = of_bool n (all_consulting roles);
          last_role_start_recency_months = last_recency (next_current (last_role roles) roles);
          avg_title_tenure_months = title_tenure roles;
          title_chaser_flag = of_bool n (title_chaser roles);
          avg_description_words = mean_or_zero (map (λ r. of_nat (word_count r.description)) roles);
          has_production_keywords = of_bool n (has_prod_kw roles);
          technical_role_count = length (select (λ r. is_technical_title r.title) roles);
        }
