-- ===== src/Adaptive/Finish.antt =====
-- adaptive.ts, lines 331 to 438: uncovered questions, going on against a gap, and the finish.
use deep_research_app.Contradictions.{unresolved_contradictions}
use deep_research_app.Admission.Guards.{search_cost, synth_cost, is_given}
use deep_research_app.Disconfirm.{plan_disconfirmation}
use deep_research_app.Policy.{query_with_geography}
use deep_research_app.Text.{template, decimal}
use deep_research_app.Adaptive.Steps.{gap_search, blocking_gap}
use deep_research_app.Adaptive.Checks.{challenge_record}
use deep_research_app.Adaptive.Proposals.{with_reason, leak_or_search, propose, can_pay}
use deep_research_app.Stop.{evaluate_stop}
use deep_research_app.Base.{
  [], ◌∷◌, none, some, String, Option, List, Bool, if◌then◌else◌, true, find, some_of, ◌==◌,
  is_some, or_try, false, ◌&&◌, ◌||◌, or_else, not, ltb, starts_with, length, ◌++◌,
}
use deep_research_app.Types.{
  unstarted, investigating, CoverageStatus, ControllerState, AccessLevel, Coverage, Question,
  Decision, Gap, Contradiction, is_open_question, full_text, partial_text,
}
use deep_research_app.Types.Values.{cons, nil, Arguments, str, arr}

abbrev pub is_uncovered : CoverageStatus → Bool
is_uncovered unstarted = true
is_uncovered investigating = true
is_uncovered _ = false

unfoldable pub uncovered_of : ControllerState → Option Coverage
uncovered_of state = find (λ c. is_uncovered c.status) state.coverage

unfoldable pub open_blocking_question : ControllerState → Option Question
open_blocking_question state =
    find (λ q. is_open_question q.status && q.is_blocking) (or_else state.questions [])

abbrev is_read : AccessLevel → Bool
is_read full_text = true
is_read partial_text = true
is_read _ = false

unfoldable pub opened_public : ControllerState → Bool
opened_public state =
    some_of (λ s. is_read s.access_level && not (starts_with s.locator "attachment://"))
      state.sources

-- `a || b` of texts.
abbrev or_text : String → String → String
or_text a b = if a == "" then b else a

abbrev coverage_id : Option Coverage → Option Question → String
coverage_id (some c) q = c.id
coverage_id none (some q) = q.id
coverage_id none none = ""

abbrev coverage_text : Option Coverage → Option Question → String → String
coverage_text (some c) (some q) original = or_text c.question (or_text q.text original)
coverage_text (some c) none original = or_text c.question original
coverage_text none (some q) original = or_text q.text original
coverage_text none none original = original

abbrev coverage_list : Option Coverage → List String
coverage_list none = []
coverage_list (some c) = c.id ∷ []

unfoldable pub uncovered_search : ControllerState → Decision
uncovered_search state =
    let c = uncovered_of state in
    let q = open_blocking_question state in
    let args = ("coverageId", str (coverage_id c q)) ∷ [] in
    leak_or_search state
      (query_with_geography state (coverage_text c q state.brief.original_question))
      (with_reason
        (record (propose state "search" "Investigate an uncovered required question" args) {
          estimated_max_cost_micro = search_cost;
          coverage_ids = coverage_list c;
          dedupe_key =
              template ("search:" ∷ coverage_id c q ∷ ":" ∷ decimal (length state.searches) ∷ []);
        })
        "uncovered_research_question" args)

unfoldable pub reserve_for_writing : ControllerState → Decision
reserve_for_writing state =
    with_reason
      (record (propose state "synthesize" "reserve remaining budget for verification and writing"
        []) { estimated_max_cost_micro = synth_cost })
      "reserve_budget_for_writing" (("stopPolicy", str "budget_respected") ∷ [])

unfoldable pub uncovered_step : ControllerState → Option Decision
uncovered_step state =
    if (is_some (uncovered_of state) || is_some (open_blocking_question state))
      && ltb (length state.searches) 8
      && not (opened_public state && not (is_some (blocking_gap state)))
    then if can_pay state search_cost false
      then some (uncovered_search state)
      else some (reserve_for_writing state)
    else none

abbrev optional_text : String → Option String → Arguments
optional_text key none = []
optional_text key (some s) = (key, str s) ∷ []

unfoldable pub continue_gap : ControllerState → Gap → String → Decision
continue_gap state g q =
    gap_search state g (template ("Continue against blocking gap: " ∷ g.missing_fact ∷ []))
      (("query", str q)
        ∷ ("trigger", str g.id)
        ∷ optional_text "sourceTypeNeeded" g.source_type_needed)
      [] "continue_blocking_gap" "search:continue-gap:" q

unfoldable pub continue_gap_step : ControllerState → Option Decision
continue_gap_step state = elim (blocking_gap state) [
  | none ↦ none
  | some g ↦
      let q = query_with_geography state (or_else g.suggested_query "") in
      if is_given g.suggested_query
        && ltb (length state.searches) 8
        && not (some_of (λ s. s.query == q) state.searches)
        && can_pay state search_cost false
      then some (continue_gap state g q)
      else none
]

abbrev pub first_id : List Contradiction → Arguments
first_id [] = []
first_id (c ∷ cs) = ("contradictionId", str c.id) ∷ []

unfoldable pub continue_verify : ControllerState → Decision
continue_verify state =
    with_reason
      (record (propose state "verify" "Scope-check remaining contradiction" (
        first_id (unresolved_contradictions state)
        ++ ("checks", arr (cons (str "scope") (cons (str "contradiction") nil))) ∷ [])) {
          dedupe_key = template ("verify:continue:" ∷ decimal state.basis.evidence_revision ∷ []);
        })
      "continue_contradiction" []

unfoldable pub continue_pending : ControllerState → String → Option Decision
continue_pending state reason =
    if reason == "contradiction_unhandled"
    then some (continue_verify state)
    else if reason == "disconfirm_pending"
    then elim (plan_disconfirmation state) [
      | none ↦ none
      | some planned ↦ some (challenge_record state planned "continue_disconfirm")
    ]
    else none

unfoldable pub continue_step : ControllerState → Option Decision
continue_step state =
    let stop = evaluate_stop state in
    if stop.should_stop
    then none
    else or_try (continue_gap_step state) (continue_pending state stop.reason)

unfoldable pub finish_policy : ControllerState → String
finish_policy state =
    let finish = evaluate_stop state in
    if finish.should_stop
    then finish.stop_policy
    else if is_some (blocking_gap state)
    then "inaccessible_or_unresolved_gap"
    else "evidence_sufficient_or_low_decision_value"

unfoldable pub finish_step : ControllerState → Decision
finish_step state =
    let finish = evaluate_stop state in
    let policy = finish_policy state in
    let args = ("reason", str policy) ∷ ("stopPolicy", str policy) ∷ [] in
    with_reason
      (record (propose state
        (if finish.should_stop && not finish.synthesize then "stop" else "synthesize") finish.reason
        args) {
          estimated_max_cost_micro = synth_cost;
          dedupe_key =
              template ("finish:" ∷ policy ∷ ":" ∷ decimal state.basis.evidence_revision ∷ []);
        })
      finish.reason args
