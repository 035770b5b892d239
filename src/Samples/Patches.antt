-- ===== src/Samples/Patches.antt =====
-- A span of a question, replaced and put back.
use deep_research_app.QuestionPatch.Reverting.{reverting, replace_span-reverting}
use deep_research_app.QuestionPatch.{question, Span, replace_span, is_blank, high, low, question}
use deep_research_app.Base.{refl, ◌≡◌, List, ℕ, ◌∷◌, [], arith}

-- "in USA" and "UK", as code units.
abbrev asked : List ℕ
asked = 105 ∷ 110 ∷ 32 ∷ 85 ∷ 83 ∷ 65 ∷ []

abbrev to_uk : Span
to_uk = record {
  original_question_sha256 = "d1";
  start = 3;
  end = 6;
  quote = 85 ∷ 83 ∷ 65 ∷ [];
  replacement = 85 ∷ 75 ∷ [];
}

abbrev asked_uk : List ℕ
asked_uk = 105 ∷ 110 ∷ 32 ∷ 85 ∷ 75 ∷ []

replaced_uk : replace_span asked "d1" to_uk ≡ question asked_uk
unfolding replace_span high low
replaced_uk = refl

replace_span-reverting_example : replace_span asked_uk "d2" (reverting to_uk "d2") ≡ question asked
unfolding is_blank
replace_span-reverting_example =
    replace_span-reverting asked "d1" to_uk asked_uk "d2" replaced_uk refl (omega arith)
