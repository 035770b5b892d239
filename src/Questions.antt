-- ===== src/Questions.antt =====
-- packages/research-core/src/questions.ts: the research questions that a state derives from its
-- brief and its evidence.
use deep_research_app.Independence.{type_of}
use deep_research_app.Text.{template, cut, lower, includes}
use deep_research_app.Regex.{
  Regex, any_of, words, test, whole, starting, all_of, word, seq, plus, opt, any_char, plural,
}
use deep_research_app.Base.{
  [], ◌∷◌, none, some, Bool, String, Option, some_of, List, if◌then◌else◌, find, true, not, ◌==◌,
  ◌||◌, or_else, ltb, is_some, false, ◌++◌, length, ◌&&◌,
}
use deep_research_app.Types.{
  blocking, material, boolean, eligibility, existence, narrative, numeric, answered, open_question,
  ControllerState, QuestionStatus, Constraint, Question,
}

abbrev status_if : Bool → QuestionStatus
status_if b = if b then answered else open_question

unfoldable pub answered_by_evidence : ControllerState → Regex → Bool
answered_by_evidence state requirement =
    some_of (λ p. test true requirement p.exact_text) state.passages

unfoldable pub asks_comparison : Regex
asks_comparison = any_of (
    whole (word "compare")
    ∷ whole (seq (word "vs") (opt (word ".")))
    ∷ whole (plural "alternative")
    ∷ whole (plural "option")
    ∷ [])

unfoldable pub asks_compatibility : Regex
asks_compatibility = any_of (
    starting "compatib"
    ∷ starting "eligible"
    ∷ starting "works with"
    ∷ starting "support postgres"
    ∷ whole (seq (word "support") (opt (words ("s" ∷ "ed" ∷ []))))
    ∷ [])

unfoldable pub asks_price : Regex
asks_price =
    any_of (
      starting "cost" ∷ starting "price" ∷ starting "budget" ∷ starting "EUR" ∷ starting "USD" ∷ [])

unfoldable pub asks_existence : Regex
asks_existence = any_of (
    all_of (
      starting "does " ∷ plus any_char ∷ word " " ∷ words ("include" ∷ "exist" ∷ "offer" ∷ []) ∷ [])
    ∷ all_of (word "is " ∷ plus any_char ∷ word " a real" ∷ [])
    ∷ word "built-in"
    ∷ [])

unfoldable pub asks_legal : Regex
asks_legal =
    any_of (
      starting "tax" ∷ words ("filing" ∷ "jurisdiction" ∷ "employment law" ∷ "which law" ∷ []) ∷ [])

unfoldable pub denies_existence : Regex
denies_existence = any_of (
    word "does not exist"
    ∷ seq (word "no such ") (words ("product" ∷ "feature" ∷ []))
    ∷ word "not a real product"
    ∷ [])

unfoldable pub states_compatibility : Regex
states_compatibility =
    words ("not compatible" ∷ "incompatible" ∷ "requires postgres" ∷ "is supported" ∷ [])

abbrev pub constraint_on : String → ControllerState → Option Constraint
constraint_on field state = find (λ c. c.field == field) state.constraints

unfoldable pub compatibility_question : ControllerState → Question
unfolding answered_by_evidence
compatibility_question state = record {
  id = "q-compatibility";
  text =
      "What does primary documentation establish about compatibility or eligibility under the named versions?";
  importance = blocking;
  is_blocking = true;
  answer_shape = boolean;
  evidence_requirement =
      "Official compatibility matrix or first-party support documentation for the named versions.";
  completion_condition =
      "A primary source has been opened that states support or incompatibility for the named versions.";
  status = status_if (
      answered_by_evidence state states_compatibility
      || some_of (λ s. includes (type_of s) "matrix" || type_of s == "vendor-docs") state.sources);
}

abbrev in_geography : Option Constraint → String
in_geography none = ""
in_geography (some g) = template (" in " ∷ g.value ∷ [])

abbrev within_budget : Option Constraint → String
within_budget none = ""
within_budget (some b) = template (" within " ∷ b.value ∷ " " ∷ or_else b.units "" ∷ [])

unfoldable pub eligibility_question : ControllerState → Question
eligibility_question state = record {
  id = "q-eligibility";
  text = template (
      "Which inspected candidates satisfy the hard constraints"
      ∷ in_geography (constraint_on "geography" state)
      ∷ within_budget (constraint_on "budget" state)
      ∷ "?"
      ∷ []);
  importance = blocking;
  is_blocking = true;
  answer_shape = eligibility;
  evidence_requirement =
      "First-party pricing or availability for each named candidate under the stated geography and budget.";
  completion_condition =
      "Each inspected candidate is marked satisfies, violates, or unknown with cited evidence.";
  status = status_if (ltb 0 (length state.candidates));
}

unfoldable pub existence_question : ControllerState → Question
unfolding answered_by_evidence
existence_question state = record {
  id = "q-existence";
  text =
      "Does a primary catalog or official source establish that the named product or feature exists?";
  importance = blocking;
  is_blocking = true;
  answer_shape = existence;
  evidence_requirement = "Catalog or official product page. Marketing roundups are not sufficient.";
  completion_condition =
      "A primary source confirms existence or states that no such product/feature exists.";
  status = status_if (answered_by_evidence state denies_existence);
}

unfoldable pub jurisdiction_question : ControllerState → Question
jurisdiction_question state = record {
  id = "q-jurisdiction";
  text = "What is the applicable rule in the confirmed jurisdiction as of the stated date?";
  importance = blocking;
  is_blocking = not (is_some (constraint_on "geography" state));
  answer_shape = narrative;
  evidence_requirement = "Primary legal or tax authority for the named jurisdiction.";
  completion_condition = "A jurisdiction-specific primary source has been opened.";
  status = status_if (is_some (constraint_on "geography" state) && ltb 0 (length state.passages));
}

unfoldable pub population_question : ControllerState → Constraint → Question
population_question state pop = record {
  id = "q-population";
  text = template (
      "What evidence applies to the stated population (" ∷ pop.value
      ∷ ") rather than a different cohort?" ∷ []);
  importance = blocking;
  is_blocking = true;
  answer_shape = numeric;
  evidence_requirement = "A source that reports the same measure for the named population.";
  completion_condition =
      "At least one opened source is scoped to the named population, or the gap is recorded as unresolvable.";
  status = status_if (
      some_of (λ s. test true (words ("child" ∷ "pediatric" ∷ [])) (or_else s.population ""))
        state.sources);
}

unfoldable pub primary_question : ControllerState → Question
primary_question state = record {
  id = "q-primary";
  text = cut 240 state.brief.original_question;
  importance = material;
  is_blocking = false;
  answer_shape = narrative;
  evidence_requirement = "Opened sources that actually bear on the asked question.";
  completion_condition =
      "Decision-critical gaps are resolved or explicitly unresolvable and remaining actions have low expected value.";
  status = status_if (ltb 0 (length state.passages));
}

-- `if (test) questions.push(q)`
abbrev pub ask_if : Bool → Question → List Question
ask_if b q = if b then q ∷ [] else []

unfoldable pub specific_questions : ControllerState → List Question
specific_questions state =
    let lowered = lower state.brief.original_question in
    let is_compatibility = test true asks_compatibility lowered in
    ask_if is_compatibility (compatibility_question state)
    ++ (ask_if (test true asks_comparison lowered || test true asks_price lowered)
          (eligibility_question state)
        ++ (ask_if (test true asks_existence lowered && not is_compatibility)
              (existence_question state)
            ++ (ask_if (test true asks_legal lowered) (jurisdiction_question state)
                ++ elim (constraint_on "population" state) [
                  | none ↦ []
                  | some pop ↦ population_question state pop ∷ []
                ])))

-- With no specific question there is the general one.
abbrev pub or_primary : ControllerState → List Question → List Question
or_primary state [] = primary_question state ∷ []
or_primary state (q ∷ qs) = q ∷ qs

unfoldable pub derive_research_questions : ControllerState → List Question
unfolding specific_questions
derive_research_questions state = or_primary state (specific_questions state)
