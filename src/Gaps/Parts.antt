-- ===== src/Gaps/Parts.antt =====
-- gaps.ts, lines 5 to 144: attempts, and the gaps of compatibility and of population.
use deep_research_app.Independence.{
  is_primary_type, secondary_types, community_types, is_weak_source_class,
}
use deep_research_app.Questions.{constraint_on}
use deep_research_app.Policy.{has}
use deep_research_app.Text.{lower, template, includes}
use deep_research_app.Regex.{Regex, words, test}
use deep_research_app.Base.{
  [], ◌∷◌, none, some, String, ℕ, List, Bool, select, last?, true, some_of, ltb, if◌then◌else◌,
  ◌||◌, false, or_else, length, not, ◌+◌, ◌&&◌, ◌==◌, ◌++◌, every,
}
use deep_research_app.Types.{ControllerState, Source, SearchTrace, Importance}
use deep_research_app.Types.{
  blocking, material, full_text, partial_text, abstract, AccessLevel, Gap, GapAttempt,
}

unfoldable pub is_attempt_for : String → SearchTrace → Bool
is_attempt_for type s =
    includes s.query type
    || includes s.query "compatibility matrix"
    || includes s.query "pediatric"
    || includes s.query "official"
    || includes s.query "counterexample"

attempts_from : ℕ → List SearchTrace → List GapAttempt
attempts_from i [] = []
attempts_from i (s ∷ rest) =
    record {
      action_type = "search";
      query = some s.query;
      outcome =
          if s.coverage_progress || ltb 0 s.new_families then "new_families" else "no_progress";
      at_evidence_revision = i + 1;
    }
    ∷ attempts_from (i + 1) rest

unfoldable pub attempts_for : ControllerState → String → List GapAttempt
unfolding attempts_from
attempts_for state type = attempts_from 0 (select (is_attempt_for type) state.searches)

-- `attempts.length ? attempts[attempts.length - 1].outcome : "untried"`
abbrev last_outcome : List GapAttempt → String
last_outcome attempts = elim (last? attempts) [ none ↦ "untried" | some a ↦ a.outcome ]

unfoldable pub asks_eligibility : Regex
asks_eligibility = words ("compatib" ∷ "eligible" ∷ "works with" ∷ "support postgres" ∷ [])

unfoldable pub needs_primary : Regex
needs_primary = words (
    "compatib" ∷ "eligible" ∷ "works with" ∷ "support postgres" ∷ "official" ∷ "primary source"
    ∷ "legal" ∷ "regulator" ∷ "current price" ∷ "filing" ∷ "tax deadline" ∷ "catalog lookup" ∷ [])

unfoldable pub needs_primary_evidence : String → Bool
unfolding needs_primary
needs_primary_evidence question = test true needs_primary question

unfoldable pub is_opened : AccessLevel → Bool
is_opened full_text = true
is_opened partial_text = true
is_opened abstract = true
is_opened _ = false

abbrev pub asked : ControllerState → String
asked state = lower state.brief.original_question

unfoldable pub has_opened_primary : ControllerState → Bool
has_opened_primary state =
    some_of (λ s. is_primary_type s && is_opened s.access_level) state.sources

-- `WEAK_SOURCE_TYPES.has(s.sourceType ?? "review-summary") || isWeakSourceClass(s)`
unfoldable pub is_summary : Source → Bool
is_summary s =
    has (or_else s.source_type "review-summary") (secondary_types ++ community_types)
    || is_weak_source_class s

unfoldable pub only_summaries : ControllerState → Bool
only_summaries state = ltb 0 (length state.sources) && every is_summary state.sources

abbrev compatibility_gap : ControllerState → Importance → String → String → String → Gap
compatibility_gap state importance outcome uncertainty resolution = record {
  id = "compat-primary";
  missing_fact = "authoritative compatibility limitation";
  description = some "authoritative compatibility limitation";
  why_it_could_change_answer = "Summary count cannot certify compatibility";
  dependent_conclusion = some "eligibility of named products under the stated stack";
  resolving_evidence =
      some "vendor compatibility matrix or official support matrix for the named versions";
  importance = importance;
  source_type_needed = some "vendor-matrix";
  preferred_source_types = "vendor-matrix" ∷ "vendor-docs" ∷ "primary-docs" ∷ [];
  suggested_query =
      some (template (state.brief.original_question ∷ " vendor compatibility matrix" ∷ []));
  attempts = attempts_for state "vendor-matrix";
  latest_outcome = some outcome;
  remaining_uncertainty = some uncertainty;
  question_id = some "q-compatibility";
  dependencies = [];
  resolution = some resolution;
}

unfoldable pub compatibility_gaps : ControllerState → List Gap
compatibility_gaps state =
    if not (needs_primary_evidence (asked state) || test true asks_eligibility (asked state))
    then []
    else if has_opened_primary state
    then compatibility_gap state material "resolved"
        "Primary matrix inspected; remaining uncertainty is localized to unstated versions."
        "resolved"
      ∷ []
    else if only_summaries state
        || some_of (λ s. or_else s.source_type "web" == "review-summary") state.sources
    then compatibility_gap state blocking (last_outcome (attempts_for state "vendor-matrix"))
        "Compatibility remains unverified until a primary matrix is inspected." "open"
      ∷ []
    else []

unfoldable pub names_children : Regex
names_children = words ("child" ∷ "pediatric" ∷ "under" ∷ [])

unfoldable pub is_pediatric : Source → Bool
is_pediatric s = test true (words ("child" ∷ "pediatric" ∷ [])) (or_else s.population "")

abbrev population_gap : ControllerState → Importance → String → String → String → Gap
population_gap state importance outcome uncertainty resolution = record {
  id = "population";
  missing_fact = "population-specific evidence";
  description = some "population-specific evidence";
  why_it_could_change_answer = "Adult figures may not apply";
  dependent_conclusion = some "numeric claims applied to the stated population";
  resolving_evidence = some "a source that reports the same measure for the named population";
  importance = importance;
  source_type_needed = some "population-specific";
  preferred_source_types = "population-specific" ∷ "primary-docs" ∷ [];
  suggested_query =
      some (template (state.brief.original_question ∷ " pediatric children population" ∷ []));
  attempts = attempts_for state "population-specific";
  latest_outcome = some outcome;
  remaining_uncertainty = some uncertainty;
  question_id = some "q-population";
  dependencies = [];
  resolution = some resolution;
}

unfoldable pub population_gaps : ControllerState → List Gap
population_gaps state = elim (constraint_on "population" state) [
  | none ↦ []
  | some pop ↦
      if not (test true names_children pop.value)
      then []
      else if some_of (λ s. is_pediatric s && is_opened s.access_level) state.sources
      then population_gap state material "resolved" "A population-scoped source was opened."
          "resolved"
        ∷ []
      else population_gap state blocking (last_outcome (attempts_for state "population-specific"))
          "Adult-only figures cannot be generalized to the stated population." "open"
        ∷ []
]
