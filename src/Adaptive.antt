-- ===== src/Adaptive.antt =====
-- packages/research-core/src/adaptive.ts: the choice of the next action. Each early return is a
-- function into `Option`, in the order of the source, and the first that answers is the choice.
pub mod Proposals
pub mod Steps
pub mod Checks
pub mod Finish
pub mod Searches
use deep_research_app.Questions.{derive_research_questions}
use deep_research_app.Loop.{refresh_derived}
use deep_research_app.Gaps.{detect_gaps}
use deep_research_app.Adaptive.Finish.{finish_step, uncovered_step, continue_step}
use deep_research_app.Adaptive.Steps.{
  deleted_step, clarify_step, preferred_fetch_step, gap_pivot_step,
}
use deep_research_app.Adaptive.Checks.{
  weak_pivot_step, known_fetch_step, population_pivot_step, verify_step, challenge_step,
  saturation_step,
}
use deep_research_app.Contradictions.{detect_contradictions}
use deep_research_app.Types.{ControllerState, Decision, Question}
use deep_research_app.Base.{[], ◌∷◌, none, some, List, Option, or_else}

-- The first step that answers; the finish where none does.
unfoldable pub first_step : List (Option Decision) → Decision → Decision
first_step [] finish = finish
first_step (none ∷ steps) finish = first_step steps finish
first_step (some d ∷ steps) finish = d

unfoldable pub steps_of : ControllerState → List (Option Decision)
steps_of state =
    deleted_step state
    ∷ clarify_step state
    ∷ preferred_fetch_step state
    ∷ gap_pivot_step state
    ∷ weak_pivot_step state
    ∷ known_fetch_step state
    ∷ population_pivot_step state
    ∷ verify_step state
    ∷ challenge_step state
    ∷ saturation_step state
    ∷ uncovered_step state
    ∷ continue_step state
    ∷ []

-- The choice, for a state whose questions, contradictions and gaps are up to date.
unfoldable pub choose : ControllerState → Decision
choose state = first_step (steps_of state) (finish_step state)

-- `if (!state.questions?.length) state.questions = deriveResearchQuestions(state)`
abbrev or_derived : ControllerState → List Question → List Question
or_derived state [] = derive_research_questions state
or_derived state (q ∷ qs) = q ∷ qs

-- The second run of the three derivations at the start of the source's function.
unfoldable pub refresh_again : ControllerState → ControllerState
refresh_again state =
    let asked = record state { questions = some (or_derived state (or_else state.questions [])) } in
    let compared = record asked { contradictions = some (detect_contradictions asked) } in
    record compared { gaps = detect_gaps compared }

-- The function changes the state that it is given: the new state is returned too.
unfoldable pub select_adaptive_action : ControllerState → ControllerState × Decision
select_adaptive_action state =
    let fresh = refresh_again (refresh_derived state) in (fresh, choose fresh)
