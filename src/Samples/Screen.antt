-- ===== src/Samples/Screen.antt =====
-- A screen that shows a report with a source, and what happens to it.
use deep_research_app.Mobile.Tabs.{handle_android_back, calls_nothing}
use deep_research_app.Mobile.Tabs.Leaving.{after_presses, android_back-leaves}
use deep_research_app.Mobile.Reducer.Hidden.{after_changes-IsSafe}
use deep_research_app.Mobile.Reducer.Safety.{
  is_invalidated, IsSafe, after_changes, going_back, snapshot, reopening,
}
use deep_research_app.Mobile.{RunSnapshot, UiState, empty_state, library, research, completed}
use deep_research_app.Mobile.Events.{merge_events, Event}
use deep_research_app.Mobile.Events.Latest.{IsAscending, has_sequence, latest, merge_events-latest}
use deep_research_app.Base.{
  refl, ◌≡◌, ℕ, String, ◌∷◌, none, some, [], false, true, arith, find, or_try,
}

abbrev event : ℕ → String → Event
event n summary = record { sequence = n; type = "progress"; public_summary = summary }

merge_events-latest_example :
    IsAscending (merge_events (event 3 "c" ∷ event 1 "a" ∷ []) (event 2 "b" ∷ event 3 "d" ∷ []))
    × ((n : ℕ)
        → find
            (has_sequence n)
            (merge_events (event 3 "c" ∷ event 1 "a" ∷ []) (event 2 "b" ∷ event 3 "d" ∷ []))
          ≡ or_try
              (latest n (event 2 "b" ∷ event 3 "d" ∷ []))
              (latest n (event 3 "c" ∷ event 1 "a" ∷ [])))
merge_events-latest_example =
    merge_events-latest (event 3 "c" ∷ event 1 "a" ∷ []) (event 2 "b" ∷ event 3 "d" ∷ [])

merge_runs :
    merge_events (event 3 "c" ∷ event 1 "a" ∷ []) (event 2 "b" ∷ event 3 "d" ∷ [])
    ≡ event 1 "a" ∷ event 2 "b" ∷ event 3 "d" ∷ []
unfolding merge_events
merge_runs = refl

abbrev finished_run : RunSnapshot
finished_run = record {
  content_invalidated = none;
  correction_mode = none;
  correction_reserve_micro = none;
  run_id = "run-1";
  lifecycle = "terminal";
  phase = "done";
  outcome = some "completed";
  report_id = some "report-1";
  labeled_demo = false;
  brief = none;
}

abbrev deleted_run : RunSnapshot
deleted_run = record finished_run { content_invalidated = some true }

abbrev report_screen : UiState
report_screen = record empty_state {
  tab = library;
  run = some finished_run;
  report = some (record {
    report_id = "report-1";
    version = some 1;
    blocks = [];
    limitations = [];
    labeled_demo = false;
    change_summary = none;
  });
  source = some (record {
    passage_id = "p-1";
    source_id = none;
    source_version_id = none;
    title = "Pricing";
    exact_text = "12.50 USD per month";
    access_level = "full_text";
  });
  status = completed;
}

report_screen-IsSafe : IsSafe report_screen
unfolding is_invalidated empty_state
report_screen-IsSafe = record { few = omega arith; hides = λ e. absurd (ground (arith, e)) }

after_changes-IsSafe_example :
    IsSafe (after_changes (going_back ∷ snapshot deleted_run ∷ reopening ∷ []) report_screen)
after_changes-IsSafe_example =
    after_changes-IsSafe (going_back ∷ snapshot deleted_run ∷ reopening ∷ []) report_screen
      report_screen-IsSafe

android_back-leaves_example :
    (after_presses 2 report_screen ≡ record report_screen { source = none; tab = research })
    × (handle_android_back (after_presses 2 report_screen) ≡ (calls_nothing, false))
android_back-leaves_example = android_back-leaves report_screen 0
