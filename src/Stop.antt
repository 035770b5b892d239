-- ===== src/Stop.antt =====
-- packages/research-core/src/stop.ts: when a run stops, and why.
pub mod Conditions
pub mod Verdicts
use deep_research_app.Gaps.Conflicts.{is_completed}
use deep_research_app.Policy.{saturation_reached}
use deep_research_app.Contradictions.{unresolved_contradictions}
use deep_research_app.Disconfirm.{disconfirmation_completed}
use deep_research_app.Admission.Guards.{differs, spend_args}
use deep_research_app.Fences.{can_spend_exploration, SpendArgs}
use deep_research_app.Gaps.{detect_gaps}
use deep_research_app.Text.{template}
use deep_research_app.Types.{Gap, ControllerState, is_blocking_importance}
use deep_research_app.Base.{
  [], ◌∷◌, none, some, Bool, List, String, Option, find, if◌then◌else◌, true, false, not, ltb, ◌&&◌,
  same_text, length, leb, ◌||◌, every, ◌==◌,
}

pub record StopDecision : Type 0 where
  pub should_stop : Bool
  pub reason : String
  pub stop_policy : String
  pub synthesize : Bool

unfoldable pub is_blocking_open : Gap → Bool
is_blocking_open g =
    is_blocking_importance g.importance
    && differs g.latest_outcome "resolved"
    && differs g.resolution "resolved"

unfoldable pub blocking_open : List Gap → Option Gap
unfolding is_blocking_open
blocking_open gaps = find is_blocking_open gaps

unfoldable pub gap_unresolvable : Gap → Bool
gap_unresolvable gap =
    if same_text gap.latest_outcome "inaccessible" || same_text gap.latest_outcome "blocked"
    then true
    else leb 2 (length gap.attempts)
      && every (λ a. a.outcome == "no_progress" || a.outcome == "blocked") gap.attempts

abbrev stopping : String → String → Bool → StopDecision
stopping reason policy synthesize = record {
  should_stop = true;
  reason = reason;
  stop_policy = policy;
  synthesize = synthesize;
}

abbrev going_on : String → StopDecision
going_on reason = record {
  should_stop = false;
  reason = reason;
  stop_policy = "continue";
  synthesize = false;
}

abbrev unresolved_reason : String → Gap → String
unresolved_reason label g = template (label ∷ g.missing_fact ∷ [])

unfoldable pub budget_exhausted : ControllerState → Bool
budget_exhausted state = not (can_spend_exploration (spend_args state 5000 false))

unfoldable pub disconfirm_pending : ControllerState → Bool
disconfirm_pending state =
    ltb 0 (length state.passages)
    && not (disconfirmation_completed state)
    && not state.ablations.disable_disconfirmation

unfoldable pub contradiction_pending : ControllerState → Bool
contradiction_pending state =
    ltb 0 (length (unresolved_contradictions state))
    && not (is_completed "verify" state)
    && not state.ablations.disable_contradiction_handling

abbrev pub gaps_of : ControllerState → List Gap → List Gap
gaps_of state [] = detect_gaps state
gaps_of state (g ∷ gs) = g ∷ gs

abbrev capped : Option Gap → StopDecision
capped none = stopping "safety_cap_low_remaining_value" "low_decision_value" true
capped (some g) =
    stopping (unresolved_reason "safety_cap_with_unresolved_gap:" g)
      "inaccessible_or_unresolved_gap" true

abbrev finished : Option Gap → StopDecision
finished none =
    stopping
      "decision_critical_gaps_resolved_or_unresolvable; high-impact claims supported or qualified; contradictions handled; remaining actions low expected value"
      "evidence_sufficient_or_low_decision_value" true
finished (some g) =
    stopping (unresolved_reason "inaccessible_or_unresolved_gap:" g)
      "inaccessible_or_unresolved_gap" true

-- `blocking && !gapUnresolvable(blocking)`
abbrev pub still_resolvable : Option Gap → Bool
still_resolvable none = false
still_resolvable (some g) = not (gap_unresolvable g)

-- The stop for a given blocking gap, from the safety cap on.
unfoldable pub stop_with : ControllerState → Option Gap → StopDecision
stop_with state blocking =
    if leb 8 (length state.searches)
    then capped blocking
    else if budget_exhausted state
    then stopping "budget_requires_finishing" "budget_respected" true
    else if saturation_reached state.searches
    then stopping "Repeated searches returned no novel source family or coverage progress"
        "low_decision_value" false
    else if still_resolvable blocking
    then going_on "blocking_gap_open"
    else if contradiction_pending state
    then going_on "contradiction_unhandled"
    else if disconfirm_pending state && not (still_resolvable blocking)
    then going_on "disconfirm_pending"
    else finished blocking

unfoldable pub evaluate_stop : ControllerState → StopDecision
unfolding stop_with
evaluate_stop state =
    if state.ablations.disable_evidence_aware_stop
      && (saturation_reached state.searches || leb 5 (length state.searches))
    then stopping "ablation_search_quota" "search_count" true
    else stop_with state (blocking_open (gaps_of state state.gaps))
