-- ===== src/Samples/Lifetimes.antt =====
-- A request for a source, captured after a session and a run were chosen.
use deep_research_app.Requests.Held.{ended_by}
use deep_research_app.Requests.Lifetimes.{is_released, current-capture, is_aborted-capture}
use deep_research_app.Requests.{
  Scope, Request, capture, is_aborted, after_calls, source, Call, request_of, to_session,
  to_capture, pending_in, view, to_run, to_invalid_view, create_request_scope, to_closed_source,
  is_expected, after_call, select_run, set_session, abort,
}
use deep_research_app.Requests.{current}
use deep_research_app.Base.{refl, ◌≡◌, List, false, some, ◌∷◌, not, none, [], same_option}

abbrev opened : Scope
opened = after_calls (to_session (some "token") ∷ to_run (some "run-1") ∷ []) create_request_scope

abbrev reading : Request
reading = record { controller = 0; kind = source; account = 1; view = 2; source = 2 }

abbrev later : List Call
later =
    to_capture view none (some "run-1")
    ∷ to_invalid_view "other"
    ∷ to_run (some "run-1")
    ∷ to_closed_source
    ∷ []

captured :
    capture source (some "token") (some "run-1") opened ≡ some (reading, pending_in source opened)
unfolding capture request_of after_calls is_expected same_option after_call select_run set_session
    abort create_request_scope
captured = refl

current-capture_example :
    current reading (after_calls later (pending_in source opened))
    ≡ not (ended_by source later (pending_in source opened))
current-capture_example =
    current-capture source (some "token") (some "run-1") opened (pending_in source opened) reading
      later captured

not_released : is_released reading later ≡ false
unfolding is_released
not_released = refl

is_aborted-capture_example :
    (is_aborted reading (after_calls later (pending_in source opened))
      ≡ ended_by source later (pending_in source opened))
    × (current reading (after_calls later (pending_in source opened))
        ≡ not (is_aborted reading (after_calls later (pending_in source opened))))
is_aborted-capture_example =
    is_aborted-capture source (some "token") (some "run-1") opened (pending_in source opened)
      reading later captured not_released
