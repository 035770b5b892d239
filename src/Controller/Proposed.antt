-- ===== src/Controller/Proposed.antt =====
-- What either controller proposes, after the gate.
use deep_research_app.Admission.Queries.{admit-IsAbsent, admit-within_budget}
use deep_research_app.Types.Values.{text_argument}
use deep_research_app.Injection.Leaks.{IsAbsent}
use deep_research_app.Admission.Gate.{IsStrict}
use deep_research_app.Loop.{refresh_derived}
use deep_research_app.Adaptive.{select_adaptive_action, refresh_again}
use deep_research_app.Types.{ControllerState, Decision}
use deep_research_app.Controller.{
  propose_controller_action, ControllerState, select_adaptive_action, ControllerKind, Decision,
  baseline, adaptive,
}
use deep_research_app.Admission.Guards.{Options, Schemas, run_budget_cost}
use deep_research_app.Base.{[], none, refl, ◌≡◌, All, ◌<◌, ◌+◌, ◌≤◌}

abbrev no_options : Options
no_options = record { seen_dedupe_keys = []; live_spend = none }

abbrev pub outcome : Schemas → ControllerState → ControllerKind → Decision
outcome z state kind = (propose_controller_action z state kind).1

-- Where the schemas are strict, an action that either controller proposes and the gate does not
-- refuse: a search has no private text of the run in its query; an action that costs anything fits
-- the budget of the run.
pub propose_controller_action-IsAbsent :
    (z : Schemas) (state : ControllerState) (kind : ControllerKind)
    → IsStrict z
    → (outcome z state kind).reject_reason ≡ none
    → ((outcome z state kind).type ≡ "search"
        → All
            (IsAbsent (text_argument "query" (outcome z state kind).arguments))
            state.private_canaries)
      × (0 < run_budget_cost (outcome z state kind) no_options
          → state.spent_micro + run_budget_cost (outcome z state kind) no_options
            ≤ state.budget_micro)
unfolding propose_controller_action select_adaptive_action refresh_again refresh_derived
propose_controller_action-IsAbsent z state baseline strict clean = (
  λ search. admit-IsAbsent z state _ no_options _ strict refl clean search,
  λ pos. (admit-within_budget z state _ no_options _ refl clean pos).0,
)
propose_controller_action-IsAbsent z state adaptive strict clean =
    let fresh = (select_adaptive_action state).0 in
    (
      λ search. admit-IsAbsent z fresh _ no_options _ strict refl clean search,
      λ pos. (admit-within_budget z fresh _ no_options _ refl clean pos).0,
    )
