-- ===== src/Mobile/Deletion.antt =====
-- apps/mobile/src/source-deletion.ts: hiding a source before its deletion is sent, and the receipt.
use deep_research_app.Admission.Guards.{is_given}
use deep_research_app.Mobile.{SourceDetail, UiState, empty, research}
use deep_research_app.Regex.{
  empty as no_text, Regex, test, one, all_of, is_digit, begin, seq, word, finish,
}
use deep_research_app.Base.{
  ℕ, String, Option, List, Bool, some, is_some, if◌then◌else◌, none, suc, true, ◌&&◌, not, false,
  ◌||◌, ◌==◌, leb, ◌∷◌, [], length, zero, nat_eq, every, is_distinct,
}

abbrev hex : Regex
hex = one (λ c. is_digit c || leb b'a' c && leb c b'f')

-- `r{n}`
abbrev times : ℕ → Regex → Regex
times zero r = no_text
times (suc n) r = seq r (times n r)

-- `/^[0-9a-f]{8}-[0-9a-f]{4}-[1-8][0-9a-f]{3}-[89ab][0-9a-f]{3}-[0-9a-f]{12}$/i`
abbrev uuid : Regex
uuid = all_of (
    begin
    ∷ times 8 hex
    ∷ word "-"
    ∷ times 4 hex
    ∷ word "-"
    ∷ one (λ c. leb b'1' c && leb c b'8')
    ∷ times 3 hex
    ∷ word "-"
    ∷ one (λ c. nat_eq c b'8' || nat_eq c b'9' || nat_eq c b'a' || nat_eq c b'b')
    ∷ times 3 hex
    ∷ word "-"
    ∷ times 12 hex
    ∷ finish
    ∷ [])

unfoldable pub is_uuid : String → Bool
unfolding test
is_uuid text = test true uuid text

pub record DeletionTarget : Type 0 where
  pub source_id : String
  pub passage_id : String
  pub source_version_id : Option String

unfoldable pub is_version : Option String → Bool
unfolding is_uuid
is_version none = true
is_version (some v) = is_uuid v

unfoldable pub target_of : SourceDetail → Option String → Option DeletionTarget
unfolding is_uuid is_version
target_of source none = none
target_of source (some id) =
    if is_uuid id && is_uuid source.passage_id && is_version source.source_version_id
    then some (record {
      source_id = id;
      passage_id = source.passage_id;
      source_version_id = source.source_version_id;
    })
    else none

unfoldable pub source_deletion_target : Option SourceDetail → Option DeletionTarget
unfolding target_of
source_deletion_target none = none
source_deletion_target (some source) = target_of source source.source_id

unfoldable pub source_deletion_unavailable :
    Option DeletionTarget → Bool → Bool → Bool → Option String
source_deletion_unavailable target offline admission_pending busy =
    if busy
    then some "Deleting source…"
    else if not (is_some target)
    then some "Deletion is unavailable for this source reference."
    else if admission_pending
    then some "Check or withdraw the saved research request before deleting a source."
    else if offline
    then some "Connect to delete this source. Nothing has been deleted."
    else none

-- A state, or the message of the error that is thrown.
pub data Deletion : Type 0 where
  refused : String → Deletion
  allowed : UiState → Deletion

unfoldable pub hidden_for : UiState → String → UiState
hidden_for state source_id = record state {
  pending_source_deletion = some source_id;
  tab = research;
  run = none;
  report = none;
  previous_report = none;
  source = none;
  reading_anchor = none;
  correction_draft = none;
  attachments = [];
  events = [];
  clarification = [];
  flag_sent = false;
  status = empty;
  error =
      some
        "Source and cached reports are hidden on this device. Server deletion is not yet confirmed.";
}

abbrev pub is_target_of : Option DeletionTarget → String → Bool
is_target_of none source_id = false
is_target_of (some t) source_id = t.source_id == source_id

unfoldable pub prepare_target : UiState → String → Option DeletionTarget → Deletion
unfolding source_deletion_unavailable hidden_for
prepare_target state source_id target =
    elim (source_deletion_unavailable target state.offline
      (is_some state.pending_admission || is_some state.pending_verification) false) [
        | some reason ↦ refused reason
        | none ↦
            if is_target_of target source_id
            then allowed (hidden_for state source_id)
            else refused "The selected source changed. Review its deletion again."
      ]

unfoldable pub prepare_source_deletion : UiState → String → Deletion
unfolding prepare_target source_deletion_target
prepare_source_deletion state source_id =
    if not state.signed_in
    then refused "Sign in before deleting a source."
    else if is_given state.pending_source_deletion
    then refused "Retry the pending source deletion before starting another."
    else prepare_target state source_id (source_deletion_target state.source)

pub record DeletionReceipt : Type 0 where
  pub source_id : String
  pub already_deleted : Bool
  pub invalidated_run_ids : List String
  pub file_cleanup_pending : Bool

unfoldable pub is_receipt : DeletionReceipt → String → Bool
unfolding is_uuid is_distinct
is_receipt receipt expected_source_id =
    receipt.source_id == expected_source_id
    && is_uuid expected_source_id
    && leb (length receipt.invalidated_run_ids) 10000
    && every is_uuid receipt.invalidated_run_ids
    && is_distinct receipt.invalidated_run_ids

unfoldable pub confirmed_by : UiState → DeletionReceipt → UiState
confirmed_by state receipt = record state {
  pending_source_deletion = none;
  error = some (
      if receipt.file_cleanup_pending
      then "Source deleted. Stored file cleanup is still pending. Other saved reports can be reopened from Library."
      else "Source deleted and dependent research invalidated. Other saved reports can be reopened from Library.");
}

unfoldable pub complete_pending : UiState → DeletionReceipt → Option String → Deletion
unfolding is_receipt confirmed_by
complete_pending state receipt none = allowed state
complete_pending state receipt (some pending) =
    if not (pending == receipt.source_id)
    then allowed state
    else if is_receipt receipt pending
    then allowed (confirmed_by state receipt)
    else refused
        "Source deletion could not be confirmed. The source remains hidden on this device; retry when connected."

unfoldable pub complete_source_deletion : UiState → DeletionReceipt → Deletion
unfolding complete_pending
complete_source_deletion state receipt =
    complete_pending state receipt state.pending_source_deletion
