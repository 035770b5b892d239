-- ===== src/Adaptive/Steps.antt =====
-- adaptive.ts, lines 88 to 165: the steps up to the pivot of a gap.
use deep_research_app.Gaps.{tried_source_type}
use deep_research_app.Policy.{query_with_geography}
use deep_research_app.Admission.Guards.{is_given, synth_cost, fetch_cost, search_cost}
use deep_research_app.Adaptive.Proposals.{
  needed_clarifications, with_reason, propose, preferred_unfetched, can_pay, leak_or_search,
  is_preferred,
}
use deep_research_app.Stop.{blocking_open}
use deep_research_app.Text.{template, decimal}
use deep_research_app.Types.{ControllerState, Gap, Source, Decision, is_preparing}
use deep_research_app.Base.{
  [], ◌∷◌, none, some, ℕ, Option, List, String, Bool, if◌then◌else◌, not, ltb, ◌==◌, true, ◌&&◌,
  or_else, length, false,
}
use deep_research_app.Types.Values.{cons, nil, Values, Arguments, flag, str, arr}

abbrev pub search_cap : ℕ
search_cap = 8

unfoldable pub blocking_gap : ControllerState → Option Gap
blocking_gap state = blocking_open state.gaps

abbrev pub needed_type : Option Gap → Option String
needed_type none = none
needed_type (some g) = g.source_type_needed

abbrev pub id_of : Option Gap → Option String
id_of none = none
id_of (some g) = some g.id

abbrev pub texts : List String → Values
texts [] = nil
texts (s ∷ ss) = cons (str s) (texts ss)

unfoldable pub deleted_step : ControllerState → Option Decision
deleted_step state =
    if state.deleted
    then some (
        propose state "stop" "account or content deleted"
          (("reason", str "deleted") ∷ ("selectionReason", str "deleted") ∷ []))
    else none

unfoldable pub clarify_step : ControllerState → Option Decision
clarify_step state =
    let clar = needed_clarifications state.brief in
    if ltb 0 (length clar) && is_preparing state.phase
    then some (
        with_reason
          (propose state "clarify" "A blocking field is unspecified and would change the answer"
            (("questions", arr (texts clar)) ∷ []))
          "blocking_clarification" [])
    else none

-- Writing with what there is, where the budget allows no other fetch.
unfoldable pub out_of_budget : ControllerState → Decision
out_of_budget state =
    with_reason
      (record (propose state "synthesize" "budget requires finishing with available evidence" []) {
        estimated_max_cost_micro = synth_cost;
      })
      "budget_requires_finishing" (("stopPolicy", str "budget_respected") ∷ [])

unfoldable pub fetch_proposal : ControllerState → Source → String → Option String → Decision
fetch_proposal state s rationale gap =
    record (propose state "fetch" rationale
      (("locator", str s.locator) ∷ ("sourceId", str s.id) ∷ [])) {
        estimated_max_cost_micro = fetch_cost;
        dedupe_key = template ("fetch:" ∷ s.locator ∷ []);
        gap_id = gap;
      }

unfoldable pub preferred_fetch : ControllerState → Source → String → Decision
preferred_fetch state s type =
    if can_pay state fetch_cost false
    then with_reason
        (fetch_proposal state s
          (template (
            "Inspect the preferred source type ("
            ∷ or_else s.source_type type
            ∷ ") before more weak sources"
            ∷ []))
          (id_of (blocking_gap state)))
        "inspect_preferred_source_before_generic_query" []
    else out_of_budget state

unfoldable pub preferred_fetch_step : ControllerState → Option Decision
preferred_fetch_step state =
    let needed = needed_type (blocking_gap state) in
    elim needed [
      | none ↦ none
      | some type ↦ elim (preferred_unfetched state (some type)) [
        | none ↦ none
        | some s ↦
            if not (type == "") && is_preferred type s
            then some (preferred_fetch state s type)
            else none
      ]
    ]

abbrev pub pivot_arguments : Gap → String → String → Arguments
pivot_arguments g type reason =
    ("pivot", flag true)
    ∷ ("trigger", str g.id)
    ∷ ("sourceTypeNeeded", str type)
    ∷ ("pivotReason", str reason)
    ∷ []

unfoldable pub gap_search :
    ControllerState → Gap → String → Arguments → Arguments → String → String → String → Decision
gap_search state g rationale args extra reason key_prefix query = leak_or_search state query (
    with_reason
      (record (propose state "search" rationale args) {
        estimated_max_cost_micro = search_cost;
        gap_id = some g.id;
        dedupe_key = template (key_prefix ∷ g.id ∷ ":" ∷ decimal (length state.searches) ∷ []);
      })
      reason extra)

-- `blocking && neededType && !triedSourceType(...) && !disableSourcePivot`
unfoldable pub may_pivot : ControllerState → String → Bool
may_pivot state type =
    not (type == "")
    && not (tried_source_type state type)
    && not state.ablations.disable_source_pivot

unfoldable pub gap_pivot : ControllerState → Gap → String → String → Decision
gap_pivot state g type suggested =
    let why = template ("source class produced weak/duplicate/stale evidence; need " ∷ type ∷ []) in
    gap_search state g
      (template (
        "Decision-blocking gap: " ∷ g.missing_fact ∷ ". Switching source type to " ∷ type ∷ "."
        ∷ []))
      (pivot_arguments g type why) (pivot_arguments g type why) "blocking_gap_source_pivot"
      "search:gap:" (query_with_geography state suggested)

unfoldable pub gap_pivot_step : ControllerState → Option Decision
gap_pivot_step state = elim (blocking_gap state) [
  | none ↦ none
  | some g ↦ elim g.source_type_needed [
    | none ↦ none
    | some type ↦
        if may_pivot state type
          && is_given g.suggested_query
          && ltb (length state.searches) search_cap
          && ltb 0 (length state.sources)
        then some (gap_pivot state g type (or_else g.suggested_query ""))
        else none
  ]
]
