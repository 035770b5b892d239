-- ===== src/Samples/Choice.antt =====
-- The adaptive choice on the sample run: a search that pivots to the source type that is missing.
use deep_research_app.Independence.{is_primary_type}
use deep_research_app.Types.{Gap, ControllerState, blocking}
use deep_research_app.Injection.{query_leaks_private, leaks_canary}
use deep_research_app.Policy.{query_with_geography}
use deep_research_app.Text.{lower, includes, template, chars, of_chars}
use deep_research_app.Regex.{test}
use deep_research_app.Gaps.{detect_gaps, tried_source_type}
use deep_research_app.Stop.{blocking_open}
use deep_research_app.Types.Values.{spread, assign, lookup, str}
use deep_research_app.Adaptive.Proposals.{
  leak_or_search, with_reason, propose, needed_clarifications, preferred_unfetched,
  asks_jurisdiction,
}
use deep_research_app.Adaptive.Steps.{
  deleted_step, clarify_step, preferred_fetch_step, gap_pivot_step, gap_pivot, gap_search,
  blocking_gap, may_pivot,
}
use deep_research_app.Samples.{run, lookup, str, ControllerState, no_ablations}
use deep_research_app.Adaptive.Searches.{select_adaptive_action-IsPublic}
use deep_research_app.Loop.{refresh_derived}
use deep_research_app.Injection.Leaks.{IsAbsent}
use deep_research_app.Adaptive.{select_adaptive_action, refresh_again, choose, steps_of, first_step}
use deep_research_app.Base.{refl, ◌≡◌, none, some, All, ◌∷◌, [], true}

abbrev missing : Gap
missing = record {
  id = "g1";
  missing_fact = "the fare";
  description = none;
  why_it_could_change_answer = "";
  dependent_conclusion = none;
  resolving_evidence = none;
  importance = blocking;
  source_type_needed = some "forum";
  preferred_source_types = [];
  suggested_query = some "fare";
  attempts = [];
  latest_outcome = none;
  remaining_uncertainty = none;
  question_id = none;
  dependencies = [];
  resolution = none;
}

-- A small run with a recorded gap, where no gaps are derived.
abbrev asking : ControllerState
asking = record run {
  brief = record { original_question = "Fare?"; constraints = []; revision = 1 };
  constraints = [];
  passages = [];
  gaps = missing ∷ [];
  ablations = record no_ablations { disable_gap_detection = true };
}

selected-query : lookup "query" (select_adaptive_action asking).1.arguments ≡ some (str "fare")
unfolding select_adaptive_action refresh_again refresh_derived choose steps_of first_step
    deleted_step clarify_step preferred_fetch_step gap_pivot_step gap_pivot gap_search
    leak_or_search with_reason propose spread assign lookup blocking_gap blocking_open detect_gaps
    test lower includes template chars of_chars query_with_geography query_leaks_private
    leaks_canary may_pivot tried_source_type needed_clarifications preferred_unfetched
    asks_jurisdiction is_primary_type
selected-query = refl

select_adaptive_action-IsPublic_example : All (IsAbsent "fare") ("blue heron" ∷ [])
select_adaptive_action-IsPublic_example =
    select_adaptive_action-IsPublic asking "fare" selected-query
