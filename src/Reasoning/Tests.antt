-- ===== src/Reasoning/Tests.antt =====
-- The sentences of output/reasoning_generator.py on concrete rows.
use provenancerank.Prelude.{◌+◌, ◌/◌, ◌≡◌, refl, [], ◌∷◌, ◌++◌, length, if◌then◌else◌}
use provenancerank.Floats.Sample.{sample}
use provenancerank.Text.{
  codes, decimal, digits_from, strip, lstrip, is_space, join, member_text, text_eqb,
}
use provenancerank.Reasoning.{
  Printer, Row, sum_codes, text_or, company_phrase, lead_of, is_some_text, depth, strengths,
  row_concerns, concerns_of, watch_out, head_of, generate_reasoning, generate_from, tail_of, marked,
  mark_repeats, generate_all,
}
use provenancerank.Reasoning.Dedup.{IsAt, generate_all-IsAt}

abbrev printer : Printer sample
printer = record {
  one_place = λ v. decimal (v / 100) ++ codes ".0";
  no_places = λ v. decimal (v / 100);
  percent = λ v. decimal v ++ codes "%";
}

abbrev row : Row sample printer
row = record {
  candidate_id = codes "CAND_0000001";
  current_title = codes " ML Engineer";
  total_experience_years = 600;
  top_jd_skills = codes "FAISS" ∷ codes "Python" ∷ [];
  top_retrieval_skills = codes "FAISS" ∷ [];
  product_company_ratio = 50;
  retrieval_skill_count = 100;
  scope_progression_score = 50;
  github_activity_score = 4000;
  recruiter_response_rate = 60;
  notice_period_days = 9000;
  days_since_active = 1000;
  location_fit = 100;
  wrong_specialisation_penalty = 0;
  location = codes "Pune";
}

sentence :
    generate_reasoning sample printer row 1
    ≡ codes
        "ML Engineer (6.0 yrs experience) - hands-on FAISS, Python, mostly at product companies, active GitHub (40/100). Watch-out: 90-day notice."
unfolding generate_reasoning sum_codes text_or company_phrase lead_of is_some_text depth strengths
    row_concerns concerns_of watch_out head_of strip lstrip is_space join decimal digits_from
sentence = refl

repeated :
    generate_all sample printer (row ∷ row ∷ [])
    ≡ codes
        "ML Engineer (6.0 yrs experience) - hands-on FAISS, Python, mostly at product companies, active GitHub (40/100). Watch-out: 90-day notice."
      ∷ codes
          "ML Engineer (6.0 yrs experience) - hands-on FAISS, Python, mostly at product companies, active GitHub (40/100). Watch-out: 90-day notice [0001]."
      ∷ []
unfolding generate_reasoning sum_codes text_or company_phrase lead_of is_some_text depth strengths
    row_concerns concerns_of watch_out head_of strip lstrip is_space join decimal digits_from
    generate_from tail_of marked mark_repeats generate_all member_text text_eqb
repeated = refl

generate_all-IsAt_example :
    let text = generate_reasoning sample printer row (1 + length (row ∷ [])) in
    IsAt sample printer
      (if member_text text (generate_from sample printer 1 (row ∷ []))
        then marked sample printer text row.candidate_id
        else text)
      (row ∷ [])
      (generate_all sample printer ((row ∷ []) ++ row ∷ []))
generate_all-IsAt_example = generate_all-IsAt sample printer (row ∷ []) row []
