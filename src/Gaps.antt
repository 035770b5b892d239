-- ===== src/Gaps.antt =====
-- packages/research-core/src/gaps.ts: the gaps that a state derives from its evidence. Each `if` that
-- pushes a gap is a function that gives the list of what it pushes.
pub mod Parts
pub mod Conflicts
pub mod Refresh
use deep_research_app.Text.{includes}
use deep_research_app.Types.{ControllerState, Gap}
use deep_research_app.Base.{
  [], ◌∷◌, none, some, String, Bool, List, ◌==◌, some_of, ◌||◌, ◌++◌, if◌then◌else◌, same_text,
  starts_with, select, not,
}
use deep_research_app.Gaps.Parts.{compatibility_gaps, population_gaps}
use deep_research_app.Gaps.Conflicts.{
  geography_gaps, inaccessible_gaps, stale_price_gaps, disagreement_gaps, calculation_gaps,
}

unfoldable pub is_managed_gap_id : String → Bool
is_managed_gap_id id =
    id == "compat-primary"
    || id == "population"
    || id == "geo-unverified"
    || id == "primary-inaccessible"
    || id == "stale-price"
    || starts_with id "gap-contradiction"
    || starts_with id "calc-missing-"

-- The gaps that the evidence gives, whatever gaps are recorded.
unfoldable pub derived_gaps : ControllerState → List Gap
derived_gaps state =
    compatibility_gaps state
    ++ (population_gaps state
        ++ (geography_gaps state
            ++ (inaccessible_gaps state
                ++ (stale_price_gaps state
                    ++ (disagreement_gaps state ++ calculation_gaps state)))))

unfoldable pub detect_gaps : ControllerState → List Gap
detect_gaps state =
    if state.ablations.disable_gap_detection
    then state.gaps
    else select (λ g. not (is_managed_gap_id g.id)) state.gaps ++ derived_gaps state

unfoldable pub tried_source_type : ControllerState → String → Bool
tried_source_type state type =
    some_of (λ s. same_text s.source_type type) state.sources
    || some_of (λ s. includes s.query type || includes s.query "compatibility matrix")
        state.searches
