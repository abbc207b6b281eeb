-- ===== src/Reasoning.antt =====
-- output/reasoning_generator.py: the sentence of each candidate, from its row. The formats of floats
-- are the parameter `p`; a row's numbers are floats already, and literals are given in hundredths.
use provenancerank.Prelude.{
  ℕ, zero, suc, ◌+◌, ◌%◌, Bool, true, false, ◌&&◌, ◌||◌, Option, none, some, List, [], ◌∷◌, ◌++◌,
  map, length, take, drop, leb, ltb, ◌==◌, ◌-◌, if◌then◌else◌,
}
use provenancerank.Floats.{Float}
use provenancerank.Text.{Text, codes, strip, join, member_text}
pub mod Concerns
pub mod Dedup
mod Tests

-- The formats `.1f`, `.0f` and `.0%`.
pub record Printer (n : Float) : Type 0 where
  pub one_place : n.Value → Text
  pub no_places : n.Value → Text
  pub percent : n.Value → Text

-- `sum(ord(c) for c in cid)`
unfoldable pub sum_codes : Text → ℕ
sum_codes [] = 0
sum_codes (c ∷ s) = c + sum_codes s

-- `text or default`
unfoldable pub text_or : Text → Text → Text
text_or [] default = default
text_or (c ∷ s) default = c ∷ s

module _ (n : Float) (p : Printer n) where
  open n use {Value, less, geq, hundredths, over}

  -- The keys of a row that are read.
  pub record Row : Type 0 where
    pub candidate_id : Text
    pub current_title : Text
    pub total_experience_years : Value
    pub top_jd_skills : List Text
    pub top_retrieval_skills : List Text
    pub product_company_ratio : Value
    pub retrieval_skill_count : Value
    pub scope_progression_score : Value
    pub github_activity_score : Value
    pub recruiter_response_rate : Value
    pub notice_period_days : Value
    pub days_since_active : Value
    pub location_fit : Value
    pub wrong_specialisation_penalty : Value
    pub location : Text

  -- `_company_phrase`
  unfoldable pub company_phrase : Value → Text
  company_phrase ratio =
      if geq ratio (hundredths 80)
      then codes "at product companies"
      else if geq ratio (hundredths 50)
      then codes "mostly at product companies"
      else if less (hundredths 0) ratio
      then codes "across product and services roles"
      else codes "in a services-heavy career"

  -- `_LEADS[k].format(title=title, yoe=yoe)`
  unfoldable pub lead_of : ℕ → Text → Value → Text
  lead_of zero title yoe = title ++ (codes ", " ++ (p.one_place yoe ++ codes " yrs"))
  lead_of (suc zero) title yoe = title ++ (codes " with ~" ++ (p.no_places yoe ++ codes " years"))
  lead_of (suc (suc k)) title yoe =
      title ++ (codes " (" ++ (p.one_place yoe ++ codes " yrs experience)"))

  -- `if test: items.append(item)`
  abbrev pub when : Bool → Text → List Text
  when test item = if test then item ∷ [] else []

  unfoldable pub is_some_text : List Text → Bool
  is_some_text [] = false
  is_some_text (s ∷ ss) = true

  -- The first strength
  unfoldable pub depth : Row → List Text
  depth r =
      if geq r.retrieval_skill_count (hundredths 200) && is_some_text r.top_retrieval_skills
      then (codes "retrieval/IR depth ("
          ++ (join (codes ", ") (take 2 r.top_retrieval_skills) ++ codes ")"))
        ∷ []
      else when (is_some_text r.top_jd_skills)
          (codes "hands-on " ++ join (codes ", ") (take 2 r.top_jd_skills))

  -- `strengths`
  unfoldable pub strengths : Row → ℕ → List Text
  strengths r rank =
      depth r
      ++ (company_phrase r.product_company_ratio ∷ []
          ++ (when (geq r.scope_progression_score (hundredths 65)) (codes "clear upward trajectory")
              ++ (when (geq r.github_activity_score (hundredths 4000)) (
                    codes "active GitHub ("
                    ++ (p.no_places r.github_activity_score ++ codes "/100)"))
                  ++ (when (geq r.recruiter_response_rate (hundredths 60)) (
                        codes "responsive to recruiters ("
                        ++ (p.percent r.recruiter_response_rate ++ codes ")"))
                      ++ when (geq (hundredths 3000) r.notice_period_days && leb rank 60)
                          (codes "short notice")))))

  -- The concerns that the row gives rise to.
  unfoldable pub row_concerns : Row → List Text
  row_concerns r =
      when (less (hundredths 6000) r.notice_period_days)
        (p.no_places r.notice_period_days ++ codes "-day notice")
      ++ (when (less (hundredths 15000) r.days_since_active) (
            codes "quiet for ~"
            ++ (p.no_places (over r.days_since_active (hundredths 3000)) ++ codes " months"))
          ++ (when (less r.location_fit (hundredths 50))
                (codes "based in " ++ text_or (strip r.location) (codes "outside the India hubs"))
              ++ when (less (hundredths 40) r.wrong_specialisation_penalty)
                  (codes "CV/speech-leaning, lighter on NLP/IR")))

  -- `concerns`
  unfoldable pub concerns_of : ℕ → List Text → List Text
  concerns_of rank (c ∷ cs) = c ∷ cs
  concerns_of rank [] = when (ltb 60 rank) (codes "adjacent rather than core fit")

  -- The end of the sentence
  unfoldable pub watch_out : List Text → Text
  watch_out [] = []
  watch_out (c ∷ cs) = codes " Watch-out: " ++ (c ++ codes ".")

  -- `head`; there is always the company's phrase
  unfoldable pub head_of : List Text → Text
  head_of [] = codes "adjacent skill set"
  head_of (s ∷ ss) = join (codes ", ") (take 3 (s ∷ ss))

  unfoldable pub generate_reasoning : Row → ℕ → Text
  generate_reasoning r rank =
      let title = text_or (strip r.current_title) (codes "Candidate") in
      let lead = lead_of (sum_codes r.candidate_id % 3) title r.total_experience_years in
      let sentence = lead ++ (codes " - " ++ (head_of (strengths r rank) ++ codes ".")) in
      sentence ++ watch_out (concerns_of rank (row_concerns r))

  -- The first pass of `generate_all`, from this rank
  unfoldable pub generate_from : ℕ → List Row → List Text
  generate_from rank [] = []
  generate_from rank (r ∷ rs) = generate_reasoning r rank ∷ generate_from (rank + 1) rs

  -- `cid[-4:]`
  unfoldable pub tail_of : Text → Text
  tail_of cid = drop (length cid - 4) cid

  -- `text[:-1] + f" [{tail}]."`
  unfoldable pub marked : Text → Text → Text
  marked text cid = take (length text - 1) text ++ (codes " [" ++ (tail_of cid ++ codes "]."))

  -- The second pass, after these texts
  unfoldable pub mark_repeats : List Text → List Row → List Text → List Text
  mark_repeats seen [] texts = []
  mark_repeats seen (r ∷ rs) [] = []
  mark_repeats seen (r ∷ rs) (text ∷ texts) =
      (if member_text text seen then marked text r.candidate_id else text)
      ∷ mark_repeats (text ∷ seen) rs texts

  unfoldable pub generate_all : List Row → List Text
  generate_all rows = mark_repeats [] rows (generate_from 1 rows)
