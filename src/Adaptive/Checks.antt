-- ===== src/Adaptive/Checks.antt =====
-- adaptive.ts, lines 167 to 329: the steps from the pivot of weak sources to the check of saturation.
use Prim.Native.Char.{Char, code}
use deep_research_app.Independence.{is_weak_source_class}
use deep_research_app.Contradictions.{unresolved_contradictions}
use deep_research_app.Disconfirm.{plan_disconfirmation, evaluate_disconfirmation}
use deep_research_app.Regex.{test}
use deep_research_app.Gaps.Parts.{names_children}
use deep_research_app.Gaps.Conflicts.{dimension_name, is_completed}
use deep_research_app.Policy.{query_with_geography, saturation_reached}
use deep_research_app.Questions.{constraint_on}
use deep_research_app.Admission.Guards.{is_given, fetch_cost, search_cost}
use deep_research_app.Adaptive.Proposals.{
  with_reason, propose, unfetched_sources, can_pay, leak_or_search, is_weakish,
}
use deep_research_app.Stop.{disconfirm_pending}
use deep_research_app.Text.{chars, of_chars, template, includes, decimal}
use deep_research_app.Types.{
  ControllerState, Gap, Constraint, Source, Decision, Contradiction, Disconfirmation,
}
use deep_research_app.Base.{
  [], ◌∷◌, none, some, Option, List, String, Bool, if◌then◌else◌, not, head?, ltb, ◌==◌, true, ◌&&◌,
  or_else, some_of, length, false, ◌||◌, every, ◌++◌, nat_eq,
}
use deep_research_app.Types.Values.{Arguments, flag, str, arr}
use deep_research_app.Adaptive.Steps.{
  blocking_gap, fetch_proposal, gap_search, may_pivot, out_of_budget, pivot_arguments, search_cap,
  texts,
}

unfoldable pub unfetched_all_weak : ControllerState → Bool
unfetched_all_weak state =
    let unfetched = unfetched_sources state in
    ltb 0 (length unfetched) && every (λ s. is_weak_source_class s || is_weakish s) unfetched

unfoldable pub weak_pivot : ControllerState → Gap → String → Decision
weak_pivot state g type =
    gap_search state g
      (template ("Remaining unfetched sources are the same weak class; pivoting to " ∷ type ∷ []))
      (("pivot", flag true) ∷ ("trigger", str g.id) ∷ ("sourceTypeNeeded", str type) ∷ [])
      (pivot_arguments g type (template ("repeated weak source class; need " ∷ type ∷ [])))
      "skip_more_weak_fetches_pivot" "search:gap:"
      (query_with_geography state
        (or_else g.suggested_query (template (state.brief.original_question ∷ " " ∷ type ∷ []))))

unfoldable pub weak_pivot_step : ControllerState → Option Decision
weak_pivot_step state = elim (blocking_gap state) [
  | none ↦ none
  | some g ↦ elim g.source_type_needed [
    | none ↦ none
    | some type ↦
        if unfetched_all_weak state && may_pivot state type
        then some (weak_pivot state g type)
        else none
  ]
]

unfoldable pub known_fetch_step : ControllerState → Option Decision
known_fetch_step state = elim (head? (unfetched_sources state)) [
  | none ↦ none
  | some s ↦
      if can_pay state fetch_cost false
      then some (
          with_reason
            (fetch_proposal state s "Inspect an already-known source before another generic query"
              none)
            "inspect_known_source" [])
      else some (out_of_budget state)
]

word_from : List Char → List Char
word_from [] = []
word_from (c ∷ s) = if nat_eq (code c) 32 then [] else c ∷ word_from s

-- `s.split(" ")[0]`
unfoldable pub first_word : String → String
unfolding word_from chars of_chars
first_word s = of_chars (word_from (chars s))

unfoldable pub covers_population : Constraint → Source → Bool
covers_population pop s =
    is_given s.population && includes pop.value (first_word (or_else s.population ""))

unfoldable pub is_pediatricish : Source → Bool
is_pediatricish s =
    includes (or_else s.population "") "child" || includes (or_else s.population "") "pediatric"

unfoldable pub population_pivot : ControllerState → Decision
population_pivot state =
    let args =
      ("pivot", flag true)
      ∷ ("trigger", str "population-mismatch")
      ∷ ("sourceTypeNeeded", str "population-specific")
      ∷ [] in
    leak_or_search state
      (query_with_geography state
        (template (state.brief.original_question ∷ " pediatric children population" ∷ [])))
      (with_reason
        (record (propose state "search"
          "Initial dataset excludes the user's stated population; pivot source type" args) {
            estimated_max_cost_micro = search_cost;
            gap_id = some "population";
            dedupe_key = template ("search:population:" ∷ decimal (length state.searches) ∷ []);
          })
        "population_mismatch_pivot" args)

unfoldable pub population_pivot_step : ControllerState → Option Decision
population_pivot_step state = elim (constraint_on "population" state) [
  | none ↦ none
  | some pop ↦
      if not state.ablations.disable_source_pivot
        && test true names_children pop.value
        && not (some_of is_pediatricish state.sources)
        && not (some_of (covers_population pop) state.sources)
        && ltb (length state.searches) search_cap
      then some (population_pivot state)
      else none
]

unfoldable pub verify_proposal : ControllerState → Contradiction → Decision
verify_proposal state c =
    with_reason
      (record (propose state "verify"
        (template (
          "Scope-check contradiction on "
          ∷ dimension_name c.dimension
          ∷ " before treating newest as correct"
          ∷ []))
        (("contradictionId", str c.id)
          ∷ ("checks", arr (texts ("date" ∷ "geography" ∷ "population" ∷ "version" ∷ "units" ∷ [])))
          ∷ ("possibleExplanation", str c.possible_explanation)
          ∷ [])) {
            gap_id = some (template ("gap-" ∷ c.id ∷ []));
            dedupe_key = template ("verify:" ∷ c.id ∷ []);
          })
      "unresolved_contradiction_requires_verify" []

unfoldable pub verify_step : ControllerState → Option Decision
verify_step state =
    if is_completed "verify" state || state.ablations.disable_contradiction_handling
    then none
    else elim (head? (unresolved_contradictions state)) [
      | none ↦ none
      | some c ↦ some (verify_proposal state c)
    ]

unfoldable pub challenge_search : ControllerState → Disconfirmation → Decision
challenge_search state planned =
    let q = query_with_geography state planned.search_strategy in
    let target : Arguments =
      ("targetConclusion", str planned.target_conclusion)
      ∷ ("falsificationHypothesis", str planned.falsification_hypothesis)
      ∷ [] in
    leak_or_search state q (
      with_reason
        (record (propose state "challenge"
          (template ("Disconfirm material conclusion: " ∷ planned.falsification_hypothesis ∷ []))
          (("query", str q) ∷ (target ++ ("disconfirm", flag true) ∷ []))) {
            estimated_max_cost_micro = search_cost;
            dedupe_key = template ("challenge:" ∷ planned.id ∷ []);
          })
        "material_conclusion_disconfirm" (("query", str q) ∷ ("disconfirm", flag true) ∷ target))

-- A challenge that only records a result.
unfoldable pub challenge_record : ControllerState → Disconfirmation → String → Decision
challenge_record state d reason =
    with_reason
      (record (propose state "challenge" d.impact (
        ("targetConclusion", str d.target_conclusion)
        ∷ ("falsificationHypothesis", str d.falsification_hypothesis)
        ∷ ("recordOnly", flag true)
        ∷ [])) { dedupe_key = template ("challenge-record:" ∷ d.id ∷ []) })
      reason []

unfoldable pub may_challenge : ControllerState → Disconfirmation → Bool
may_challenge state planned =
    not (some_of (λ s. s.query == planned.search_strategy) state.searches)
    && ltb (length state.searches) search_cap
    && can_pay state search_cost false

unfoldable pub challenge_step : ControllerState → Option Decision
challenge_step state =
    if disconfirm_pending state
    then elim (plan_disconfirmation state) [
      | none ↦ none
      | some planned ↦
          if may_challenge state planned
          then some (challenge_search state planned)
          else some (
              challenge_record state (evaluate_disconfirmation state planned)
                "record_disconfirmation_result")
    ]
    else none

unfoldable pub saturation_step : ControllerState → Option Decision
saturation_step state =
    let args =
      ("reason", str "diminishing_returns") ∷ ("stopPolicy", str "low_decision_value") ∷ [] in
    if saturation_reached state.searches
    then some (
        with_reason
          (propose state "stop"
            "Repeated searches returned no novel source family or coverage progress" args)
          "diminishing_returns" args)
    else none
