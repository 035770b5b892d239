-- ===== src/Mobile/Reducer.antt =====
-- The functions of state.ts on the state of a run and of the draft, and the redaction.
pub mod Safety
pub mod Hidden
use deep_research_app.Admission.Guards.{is_given}
use deep_research_app.Text.{template, trim}
use deep_research_app.Mobile.{
  RunSnapshot, UiState, Status, empty_state, Content, UploadKind, Upload, Attachment, RouteMode,
  settings, of_text, AdmissionDraft, research, cancelled, text, progress, fixture, completed,
  of_bytes, empty, controlled_research, partial, bytes, loading, failed, awaiting_input,
}
use deep_research_app.Base.{
  String, Option, Bool, ◌==◌, if◌then◌else◌, false, some, true, none, is_some, not, ◌++◌, ◌&&◌, ◌∷◌,
  some_of, leb, same_text, [], length,
}

abbrev is_cancelled : RunSnapshot → Bool
is_cancelled r = r.lifecycle == "terminal" && same_text r.outcome "cancelled"

abbrev redacted_error : String
redacted_error = "This research used a deleted source. Saved report content has been hidden."

unfoldable pub redacted : UiState → RunSnapshot → Bool → UiState
redacted state run cleanup_pending = record state {
  status = if is_cancelled run then cancelled else state.status;
  run = some (record run { brief = none; report_id = none; content_invalidated = some true });
  report = none;
  previous_report = none;
  source = none;
  correction_draft = none;
  reading_anchor = none;
  events = [];
  attachments = [];
  clarification = [];
  flag_sent = false;
  pending_content_invalidation = if cleanup_pending then some run.run_id else none;
  error = some redacted_error;
}

unfoldable pub redact_invalidated_content : UiState → String → Bool → UiState
unfolding redacted
redact_invalidated_content state run_id cleanup_pending = elim state.run [
  | none ↦ state
  | some run ↦ if run.run_id == run_id then redacted state run cleanup_pending else state
]

unfoldable pub status_of : RunSnapshot → Status
status_of snap =
    if snap.lifecycle == "terminal" && same_text snap.outcome "completed"
    then completed
    else if snap.lifecycle == "terminal" && same_text snap.outcome "completed_with_limitations"
    then partial
    else if snap.lifecycle == "terminal" && same_text snap.outcome "cancelled"
    then cancelled
    else if snap.lifecycle == "terminal" && same_text snap.outcome "failed"
    then failed
    else if snap.lifecycle == "queued"
    then loading
    else if snap.lifecycle == "awaiting_input"
    then awaiting_input
    else progress

-- `flag === true`
abbrev pub is_true : Option Bool → Bool
is_true none = false
is_true (some b) = b

unfoldable pub apply_snapshot : UiState → RunSnapshot → UiState
unfolding status_of redact_invalidated_content
apply_snapshot state snap =
    let next = record state { run = some snap; status = status_of snap; error = none } in
    if is_true snap.content_invalidated
    then redact_invalidated_content next snap.run_id true
    else next

pub record Activity : Type 0 where
  pub in_progress : Bool
  pub terminal_notice : Option String

abbrev ended : Option String → Activity
ended notice = record { in_progress = false; terminal_notice = notice }

abbrev no_report : UiState → String
no_report state = if is_some state.report then "" else " No report is available."

unfoldable pub activity_of : UiState → RunSnapshot → Activity
unfolding template
activity_of state run =
    if is_true run.content_invalidated
    then ended (some "This report is unavailable because a source was deleted.")
    else if not (run.lifecycle == "terminal")
    then record {
      in_progress =
          not (is_given state.pending_content_invalidation)
          && some_of (λ l. run.lifecycle == l) ("queued" ∷ "running" ∷ "cancelling" ∷ []);
      terminal_notice = none;
    }
    else if same_text run.outcome "cancelled"
    then ended (some (template ("Research was cancelled." ∷ no_report state ∷ [])))
    else if same_text run.outcome "failed"
    then ended (some (template ("Research failed." ∷ no_report state ∷ [])))
    else ended
        (if is_some state.report then none else some "Research has ended. No report is available.")

unfoldable pub research_activity : UiState → Activity
unfolding activity_of
research_activity state = elim state.run [ none ↦ ended none | some run ↦ activity_of state run ]

abbrev is_unsettled : Status → Bool
is_unsettled progress = true
is_unsettled empty = true
is_unsettled loading = true
is_unsettled _ = false

unfoldable pub restore_after_reopen : UiState → UiState
restore_after_reopen saved = record saved {
  source = none;
  status = if is_some saved.report && is_unsettled saved.status then completed else saved.status;
  error =
      if saved.offline
      then some "Offline. Saved draft and last report remain on this device."
      else none;
}

-- `{ ok: true }` is `none`; otherwise the reason.
unfoldable pub can_submit : UiState → Option String
unfolding trim
can_submit state =
    if is_given state.pending_content_invalidation
    then some "Retry clearing deleted source content before starting research."
    else if is_some state.pending_correction_documents
    then some "Retry the saved document correction before starting research."
    else if is_some state.pending_verification
    then some "Resolve the saved verification request before starting research."
    else if is_given state.pending_source_deletion
    then some "Confirm the pending source deletion before starting research."
    else if trim state.draft == ""
    then some "Write a question first."
    else if state.offline
    then some "You are offline. The draft is saved and will not be sent."
    else if not state.signed_in
    then some "Sign in to start research. Your draft is kept."
    else if not state.consent_granted
    then some "Consent to AI processing is required before a live or fixture request is sent."
    else none

unfoldable pub logout : UiState → UiState
unfolding empty_state
logout state = record empty_state { route_mode = state.route_mode }

unfoldable pub expire_local_session : UiState → UiState
unfolding empty_state
expire_local_session state = record empty_state {
  route_mode = state.route_mode;
  tab = settings;
  error = some "Session expired. Sign in again. Account data was cleared from this device.";
}

abbrev kind_of : Content → UploadKind
kind_of (of_text s) = text
kind_of (of_bytes bs) = bytes

abbrev same_kind_of : UploadKind → UploadKind → Bool
same_kind_of bytes bytes = true
same_kind_of text text = true
same_kind_of _ _ = false

-- An attachment id that is null or empty is not confirmed.
abbrev is_confirmed : Upload → Bool
is_confirmed u = is_some u.attachment_id && not (same_text u.attachment_id "")

unfoldable pub is_target : Attachment → Upload → Bool
is_target file u =
    not (is_confirmed u)
    && u.filename == file.filename
    && u.mime == file.mime
    && same_kind_of u.kind (kind_of file.content)

abbrev failed_with : UiState → String → UiState
failed_with state message = record state { error = some message }

unfoldable pub attached : UiState → Attachment → UiState
attached state file = record state { attachments = state.attachments ++ file ∷ []; error = none }

unfoldable pub attach_to : UiState → Attachment → Option AdmissionDraft → UiState
unfolding is_target attached
attach_to state file none = attached state file
attach_to state file (some pending) =
    if some_of (is_target file) pending.uploads
    then attached state (record file { id = none })
    else failed_with state
        "Select the exact original bytes for an unconfirmed document from the saved request. Other content cannot replace it."

abbrev pub is_supported_mime : String → Bool
is_supported_mime mime =
    some_of (λ m. m == mime) ("text/plain" ∷ "text/markdown" ∷ "application/pdf" ∷ [])

unfoldable pub attach_file : UiState → Attachment → UiState
unfolding attach_to
attach_file state file =
    if leb 3 (length state.attachments)
    then failed_with state "Attachment limit is 3 files."
    else if not (is_supported_mime file.mime)
    then failed_with state "Only text, Markdown, and PDF are supported."
    else attach_to state file state.pending_admission

-- The part of the state's run that is kept where it is the run that is opened.
unfoldable pub same_run : UiState → String → Option RunSnapshot
same_run state run_id = elim state.run [
  | none ↦ none
  | some run ↦ if run.run_id == run_id then some run else none
]

abbrev is_fixture : RouteMode → Bool
is_fixture fixture = true
is_fixture controlled_research = false

unfoldable pub opened_run : UiState → String → RunSnapshot
unfolding same_run
opened_run state run_id = record {
  content_invalidated = none;
  correction_mode = none;
  correction_reserve_micro = none;
  run_id = run_id;
  lifecycle = "running";
  phase = elim (same_run state run_id) [ none ↦ "researching" | some run ↦ run.phase ];
  outcome = none;
  report_id = elim (same_run state run_id) [ none ↦ none | some run ↦ run.report_id ];
  labeled_demo = is_fixture state.route_mode;
  brief = none;
}

unfoldable pub open_library_item : UiState → String → UiState
unfolding opened_run
open_library_item state run_id = record state {
  tab = research;
  source = none;
  error = none;
  status = progress;
  run = some (opened_run state run_id);
}
