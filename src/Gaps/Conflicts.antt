-- ===== src/Gaps/Conflicts.antt =====
-- gaps.ts, lines 146 to 261: the gaps of geography, access, prices, disagreement and calculations.
use deep_research_app.Contradictions.Scope.{iso_date, year_20}
use deep_research_app.Independence.{is_primary_type}
use deep_research_app.Policy.{has}
use deep_research_app.Text.{lower, template, includes, cut, join}
use deep_research_app.Regex.{
  Regex, words, test, any_of, all_of, word, opt, gap, group, match_group, alt,
}
use deep_research_app.Base.{
  [], ◌∷◌, none, some, String, List, Bool, select, true, some_of, ltb, if◌then◌else◌, map, ◌||◌,
  or_else, length, find, Option, ◌&&◌, ◌==◌, or_try,
}
use deep_research_app.Types.{
  of_value, of_date, of_geography, of_population, of_version, of_units, of_scope, of_compatibility,
  ControllerState, Source, Constraint, Dimension, Contradiction, Calculation, Passage,
  is_unresolved, is_hard, is_inaccessible,
}
use deep_research_app.Types.{blocking, material, Gap}
use deep_research_app.Contradictions.{detect_contradictions}
use deep_research_app.Gaps.Parts.{asked, is_opened}

abbrev geography_fact : Constraint → String
geography_fact geo =
    template ("hard geographic constraint (" ∷ geo.value ∷ ") has not been verified" ∷ [])

unfoldable pub mentions_geography : ControllerState → List Source → Constraint → Bool
mentions_geography state opened geo =
    some_of (λ p. includes (lower p.exact_text) (lower geo.value)) state.passages
    || some_of
        (λ s.
          includes
            (lower (template (s.locator ∷ " " ∷ s.title ∷ " " ∷ or_else s.snippet_text "" ∷ [])))
            (lower geo.value))
        opened

-- With no opened source the gap is not pushed, so the second gap is always of an inspected source.
abbrev geography_gap : ControllerState → Constraint → Bool → Gap
geography_gap state geo verified = record {
  id = "geo-unverified";
  missing_fact = geography_fact geo;
  description = some (
      if verified
      then template ("Opened sources mention " ∷ geo.value ∷ [])
      else geography_fact geo);
  why_it_could_change_answer = "Eligibility and legal answers can change by jurisdiction";
  dependent_conclusion = some "any geography-sensitive conclusion";
  resolving_evidence = some (template ("a source that is scoped to " ∷ geo.value ∷ []));
  importance = material;
  source_type_needed = some "primary-docs";
  preferred_source_types = "primary-docs" ∷ "regulator" ∷ [];
  suggested_query =
      if verified
      then none
      else some (template (state.brief.original_question ∷ " " ∷ geo.value ∷ []));
  attempts = [];
  latest_outcome = some (if verified then "resolved" else "unverified_after_inspect");
  remaining_uncertainty = some (
      if verified
      then template ("Geography " ∷ geo.value ∷ " is attested in an opened source." ∷ [])
      else "Opened sources do not mention the named jurisdiction. Putting the country in a search query is not verification.");
  question_id = none;
  dependencies = [];
  resolution = some (if verified then "resolved" else "open");
}

unfoldable pub geography_gaps : ControllerState → List Gap
geography_gaps state =
    let opened = select (λ s. is_opened s.access_level) state.sources in
    elim (find (λ c. c.field == "geography" && is_hard c.importance) state.constraints) [
      | none ↦ []
      | some geo ↦
          if ltb 0 (length opened)
          then geography_gap state geo (mentions_geography state opened geo) ∷ []
          else []
    ]

abbrev inaccessible_gap : Gap
inaccessible_gap = record {
  id = "primary-inaccessible";
  missing_fact = "primary source is inaccessible";
  description = some "primary source is inaccessible";
  why_it_could_change_answer = "The decisive document could not be opened";
  dependent_conclusion = some "claims that required that primary source";
  resolving_evidence = some "an accessible official copy or an explicit access-limit disclosure";
  importance = blocking;
  source_type_needed = some "primary-docs";
  preferred_source_types = [];
  suggested_query = none;
  attempts = [];
  latest_outcome = some "inaccessible";
  remaining_uncertainty = some "Primary evidence remains inaccessible; conclusions stay qualified.";
  question_id = none;
  dependencies = [];
  resolution = some "unresolvable";
}

unfoldable pub inaccessible_gaps : ControllerState → List Gap
inaccessible_gaps state =
    if some_of (λ s. is_primary_type s && is_inaccessible s.access_level) state.sources
    then inaccessible_gap ∷ []
    else []

unfoldable pub wants_current : Regex
wants_current = any_of (
    words ("current price" ∷ "price now" ∷ [])
    ∷ all_of (word "today" ∷ opt (word "'") ∷ word "s price" ∷ [])
    ∷ word "as of now"
    ∷ [])

unfoldable pub as_of_pattern : Regex
as_of_pattern = all_of (word "as of" ∷ gap ∷ group 1 (alt iso_date year_20) ∷ [])

-- The first passage's date, as of which a price was retrieved.
unfoldable pub first_date : List Passage → Option String
first_date [] = none
first_date (p ∷ rest) = or_try (match_group as_of_pattern 1 p.exact_text) (first_date rest)

abbrev stale_price_gap : ControllerState → String → Gap
stale_price_gap state date = record {
  id = "stale-price";
  missing_fact = "current official pricing";
  description = some "current official pricing";
  why_it_could_change_answer = "Historical list prices are not live quotes";
  dependent_conclusion = some "any 'current price' figure";
  resolving_evidence =
      some
        "a first-party price with an as-of date inside the freshness window, or an explicit historical caveat";
  importance = material;
  source_type_needed = some "vendor-docs";
  preferred_source_types = "vendor-docs" ∷ "primary-docs" ∷ [];
  suggested_query =
      some (template (state.brief.original_question ∷ " current official pricing" ∷ []));
  attempts = [];
  latest_outcome = none;
  remaining_uncertainty =
      some (template ("Retrieved price is dated " ∷ date ∷ " and is not the current price." ∷ []));
  question_id = none;
  dependencies = [];
  resolution = some "open";
}

unfoldable pub stale_price_gaps : ControllerState → List Gap
unfolding first_date
stale_price_gaps state =
    if test true wants_current (asked state)
    then elim (first_date state.passages) [
      | none ↦ []
      | some date ↦ stale_price_gap state date ∷ []
    ]
    else []

-- `${c.dimension}`
abbrev pub dimension_name : Dimension → String
dimension_name of_value = "value"
dimension_name of_date = "date"
dimension_name of_geography = "geography"
dimension_name of_population = "population"
dimension_name of_version = "version"
dimension_name of_units = "units"
dimension_name of_scope = "scope"
dimension_name of_compatibility = "compatibility"

unfoldable pub disagreement_gap : Contradiction → Gap
disagreement_gap c = record {
  id = template ("gap-" ∷ c.id ∷ []);
  missing_fact = template ("unresolved disagreement (" ∷ dimension_name c.dimension ∷ ")" ∷ []);
  description =
      some
        (template ("Two sources disagree: " ∷ cut 80 c.claim_a ∷ " vs " ∷ cut 80 c.claim_b ∷ []));
  why_it_could_change_answer = c.impact;
  dependent_conclusion = some c.impact;
  resolving_evidence = some "scope-aligned verification or explicit preservation of uncertainty";
  importance = blocking;
  source_type_needed = some "primary-docs";
  preferred_source_types = [];
  suggested_query = none;
  attempts = [];
  latest_outcome = none;
  remaining_uncertainty = some c.possible_explanation;
  question_id = some "q-compatibility";
  dependencies = c.passage_a_id ∷ c.passage_b_id ∷ [];
  resolution = some "open";
}

abbrev pub is_completed : String → ControllerState → Bool
is_completed type state = has type state.completed_action_types

unfoldable pub disagreement_gaps : ControllerState → List Gap
disagreement_gaps state =
    if is_completed "verify" state
    then []
    else map disagreement_gap (
        select (λ c. is_unresolved c.resolution_status)
          (or_else state.contradictions (detect_contradictions state)))

unfoldable pub calculation_gap : Calculation → Gap
calculation_gap calc = record {
  id = template ("calc-missing-" ∷ calc.id ∷ []);
  missing_fact = template (
      "calculation "
      ∷ calc.formula_name
      ∷ " lacks required input ("
      ∷ join ", " calc.missing
      ∷ ")"
      ∷ []);
  description = some (template ("calculation " ∷ calc.formula_name ∷ " lacks required input" ∷ []));
  why_it_could_change_answer = "A material number cannot be computed";
  dependent_conclusion = some calc.formula_name;
  resolving_evidence = some (template ("numeric inputs: " ∷ join ", " calc.missing ∷ []));
  importance = blocking;
  source_type_needed = none;
  preferred_source_types = [];
  suggested_query = none;
  attempts = [];
  latest_outcome = none;
  remaining_uncertainty = some "Result stays unknown while inputs are missing.";
  question_id = none;
  dependencies = [];
  resolution = some "open";
}

unfoldable pub calculation_gaps : ControllerState → List Gap
calculation_gaps state = map calculation_gap (select (λ c. c.is_unknown) state.calculations)
