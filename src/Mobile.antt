-- ===== src/Mobile.antt =====
-- apps/mobile/src/state.ts: the state of the mobile application's screen and the functions on it,
-- with the redaction of apps/mobile/src/remote-invalidation.ts.
pub mod Events
pub mod Reducer
pub mod Tabs
pub mod Deletion
use deep_research_app.Mobile.Events.{Event}
use deep_research_app.Calculation.Integers.{ℤ}
use deep_research_app.Types.Values.{Value}
use deep_research_app.Base.{refl, ◌≡◌, String, Option, Bool, none, List, ℕ, false, []}

pub data RouteMode : Type 0 where
  fixture controlled_research : RouteMode

pub data Tab : Type 0 where
  research library settings : Tab

pub data CorrectionMode : Type 0 where
  legacy replace_question unavailable : CorrectionMode

pub record SnapshotConstraint : Type 0 where
  pub field : String
  pub value : String

pub record SnapshotBrief : Type 0 where
  pub original_question : String
  pub constraints : List SnapshotConstraint
  pub revision : ℕ

pub record RunSnapshot : Type 0 where
  pub content_invalidated : Option Bool
  pub correction_mode : Option CorrectionMode
  pub correction_reserve_micro : Option ℕ
  pub run_id : String
  pub lifecycle : String
  pub phase : String
  pub outcome : Option String
  pub report_id : Option String
  pub labeled_demo : Bool
  pub brief : Option SnapshotBrief

pub record ReportBlock : Type 0 where
  pub id : String
  pub kind : String
  pub text : String
  pub claim_ids : List String
  pub citation_ids : List String

pub data Content : Type 0 where
  of_text : String → Content
  of_bytes : List ℕ → Content

pub record Attachment : Type 0 where
  pub id : Option String
  pub filename : String
  pub mime : String
  pub content : Content

pub data UploadKind : Type 0 where
  bytes text : UploadKind

pub record Upload : Type 0 where
  pub key : String
  pub filename : String
  pub mime : String
  pub kind : UploadKind
  pub digest : String
  pub attachment_id : Option String

pub record AdmissionDraft : Type 0 where
  pub key : String
  pub question : String
  pub route_mode : RouteMode
  pub uploads : List Upload

pub record CorrectionDraft : Type 0 where
  pub run_id : String
  pub base_revision : ℕ
  pub question : String
  pub is_refresh : Bool

pub record PendingCorrectionDocuments : Type 0 where
  pub parent_run_id : String
  pub base_revision : ℕ
  pub upload : AdmissionDraft

-- The request itself is kept as JSON; no function here reads it.
pub record PendingVerification : Type 0 where
  pub parent_run_id : String
  pub request : Value

-- The parts of a source that are always there, and the two that a deletion reads.
pub record SourceDetail : Type 0 where
  pub passage_id : String
  pub source_id : Option String
  pub source_version_id : Option String
  pub title : String
  pub exact_text : String
  pub access_level : String

-- The two lists of candidates that may stand here are read by no function of state.ts.
pub record ChangeSummary : Type 0 where
  pub evidence_updated : Bool
  pub conclusion_changed : Bool
  pub notes : String

pub record Report : Type 0 where
  pub report_id : String
  pub version : Option ℕ
  pub blocks : List ReportBlock
  pub limitations : List String
  pub labeled_demo : Bool
  pub change_summary : Option ChangeSummary

pub record PreviousReport : Type 0 where
  pub report_id : String
  pub blocks : List ReportBlock

pub record ReadingAnchor : Type 0 where
  pub report_id : String
  pub block_id : String
  pub offset : ℤ

pub data Status : Type 0 where
  empty loading progress completed partial failed cancelled awaiting_input : Status

pub record UiState : Type 0 where
  pub pending_content_invalidation : Option String
  pub pending_correction_documents : Option PendingCorrectionDocuments
  pub tab : Tab
  pub draft : String
  pub correction_draft : Option CorrectionDraft
  pub pending_admission : Option AdmissionDraft
  pub pending_source_deletion : Option String
  pub pending_verification : Option PendingVerification
  pub consent_granted : Bool
  pub signed_in : Bool
  pub offline : Bool
  pub route_mode : RouteMode
  pub run : Option RunSnapshot
  pub report : Option Report
  pub previous_report : Option PreviousReport
  pub events : List Event
  pub source : Option SourceDetail
  pub reading_anchor : Option ReadingAnchor
  pub attachments : List Attachment
  pub clarification : List String
  pub flag_sent : Bool
  pub reduced_motion : Bool
  pub error : Option String
  pub status : Status

unfoldable pub empty_state : UiState
empty_state = record {
  pending_content_invalidation = none;
  pending_correction_documents = none;
  tab = research;
  draft = "";
  correction_draft = none;
  pending_admission = none;
  pending_source_deletion = none;
  pending_verification = none;
  consent_granted = false;
  signed_in = false;
  offline = false;
  route_mode = fixture;
  run = none;
  report = none;
  previous_report = none;
  events = [];
  source = none;
  reading_anchor = none;
  attachments = [];
  clarification = [];
  flag_sent = false;
  reduced_motion = false;
  error = none;
  status = empty;
}
