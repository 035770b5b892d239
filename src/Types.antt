-- ===== src/Types.antt =====
-- The data of packages/research-core/src/types.ts and packages/contracts/src/index.ts: what the
-- controller's functions read and write. An optional field is an `Option`; an optional list that
-- every reader defaults to `[]` is a list, and an optional flag a `Bool`.
pub mod Values
use deep_research_app.Base.{ℕ, String, Bool, true, false, Option, List}
use deep_research_app.Types.Values.{Arguments}

pub data Importance : Type 0 where
  blocking material background : Importance

pub data Phase : Type 0 where
  preparing researching verifying writing : Phase

pub data Origin : Type 0 where
  explicit confirmed assumed document system : Origin

pub data Strength : Type 0 where
  hard preference : Strength

pub data Provenance : Type 0 where
  user_provided model_inferred document_derived system_generated : Provenance

pub data AccessLevel : Type 0 where
  discovered snippet abstract partial_text full_text visual_inspected access_blocked failed :
      AccessLevel

pub record Constraint : Type 0 where
  pub id : String
  pub field : String
  pub operator : String
  pub value : String
  pub units : Option String
  pub origin : Origin
  pub importance : Strength
  pub explanation : String
  pub provenance : Option Provenance

pub record Brief : Type 0 where
  pub original_question : String
  pub constraints : List Constraint
  pub revision : ℕ

pub record Basis : Type 0 where
  pub brief_revision : ℕ
  pub evidence_revision : ℕ
  pub consent_epoch : ℕ
  pub cancellation_epoch : ℕ
  pub worker_lease_fence : ℕ

pub record Source : Type 0 where
  pub id : String
  pub title : String
  pub locator : String
  pub access_level : AccessLevel
  pub origin_cluster : Option String
  pub source_type : Option String
  pub population : Option String
  pub snippet_text : Option String

pub record Passage : Type 0 where
  pub id : String
  pub source_id : String
  pub source_version_id : String
  pub exact_text : String
  pub locator : String

pub record Claim : Type 0 where
  pub id : String
  pub text : String
  pub type : String
  pub support_status : String
  pub passage_ids : List String

pub data CoverageStatus : Type 0 where
  unstarted investigating supported qualified coverage_blocked excluded_by_user : CoverageStatus

pub record Coverage : Type 0 where
  pub id : String
  pub question : String
  pub status : CoverageStatus

pub record GapAttempt : Type 0 where
  pub action_type : String
  pub query : Option String
  pub outcome : String
  pub at_evidence_revision : ℕ

pub record Gap : Type 0 where
  pub id : String
  pub missing_fact : String
  pub description : Option String
  pub why_it_could_change_answer : String
  pub dependent_conclusion : Option String
  pub resolving_evidence : Option String
  pub importance : Importance
  pub source_type_needed : Option String
  pub preferred_source_types : List String
  pub suggested_query : Option String
  pub attempts : List GapAttempt
  pub latest_outcome : Option String
  pub remaining_uncertainty : Option String
  pub question_id : Option String
  pub dependencies : List String
  pub resolution : Option String

pub record SearchTrace : Type 0 where
  pub query : String
  pub source_family_ids : List String
  pub new_families : ℕ
  pub coverage_progress : Bool

pub data AnswerShape : Type 0 where
  boolean comparison numeric eligibility existence narrative : AnswerShape

pub data QuestionStatus : Type 0 where
  open_question answered question_blocked unresolvable : QuestionStatus

pub record Question : Type 0 where
  pub id : String
  pub text : String
  pub importance : Importance
  pub is_blocking : Bool
  pub answer_shape : AnswerShape
  pub evidence_requirement : String
  pub completion_condition : String
  pub status : QuestionStatus

pub data Resolution : Type 0 where
  unresolved explained verified : Resolution

pub data Dimension : Type 0 where
  of_value of_date of_geography of_population of_version of_units of_scope of_compatibility :
      Dimension

pub record Contradiction : Type 0 where
  pub id : String
  pub claim_a : String
  pub claim_b : String
  pub source_a : String
  pub source_b : String
  pub passage_a_id : String
  pub passage_b_id : String
  pub dates : List String
  pub geography : Option String
  pub population : Option String
  pub product_version : Option String
  pub units : Option String
  pub evidence_quality : String
  pub possible_explanation : String
  pub resolution_status : Resolution
  pub resolution_evidence : Option String
  pub impact : String
  pub dimension : Dimension

pub record Calculation : Type 0 where
  pub id : String
  pub formula_name : String
  pub is_unknown : Bool
  pub missing : List String

pub data ChallengeResult : Type 0 where
  counterevidence_found no_counterexample_found untried : ChallengeResult

pub record Disconfirmation : Type 0 where
  pub id : String
  pub target_conclusion : String
  pub falsification_hypothesis : String
  pub search_strategy : String
  pub result : ChallengeResult
  pub counterevidence : Bool
  pub impact : String

pub record Candidate : Type 0 where
  pub id : String
  pub identity : String
  pub excluded_by : Option String
  pub feasibility : Option String

pub record Ablations : Type 0 where
  pub disable_gap_detection : Bool
  pub disable_source_pivot : Bool
  pub disable_contradiction_handling : Bool
  pub disable_disconfirmation : Bool
  pub disable_evidence_aware_stop : Bool

-- `questions` and `contradictions` are absent until they are derived.
pub record ControllerState : Type 0 where
  pub run_id : String
  pub brief : Brief
  pub basis : Basis
  pub phase : Phase
  pub sources : List Source
  pub passages : List Passage
  pub claims : List Claim
  pub coverage : List Coverage
  pub gaps : List Gap
  pub searches : List SearchTrace
  pub constraints : List Constraint
  pub candidates : List Candidate
  pub spent_micro : ℕ
  pub budget_micro : ℕ
  pub deleted : Bool
  pub private_canaries : List String
  pub issued_dedupe_keys : List String
  pub completed_action_types : List String
  pub questions : Option (List Question)
  pub contradictions : Option (List Contradiction)
  pub calculations : List Calculation
  pub disconfirmations : List Disconfirmation
  pub ablations : Ablations

-- An action proposal, with the reason of a refusal (PolicyDecision).
pub record Decision : Type 0 where
  pub action_id : String
  pub run_id : String
  pub brief_revision : ℕ
  pub type : String
  pub coverage_ids : List String
  pub gap_id : Option String
  pub arguments : Arguments
  pub rationale : String
  pub estimated_max_cost_micro : ℕ
  pub source_access_constraints : List String
  pub dedupe_key : String
  pub privileged : Bool
  pub reject_reason : Option String

-- Tests on the unions that the source compares with `===`.
abbrev pub is_blocking_importance : Importance → Bool
is_blocking_importance blocking = true
is_blocking_importance _ = false

abbrev pub is_hard : Strength → Bool
is_hard hard = true
is_hard preference = false

abbrev pub is_preparing : Phase → Bool
is_preparing preparing = true
is_preparing _ = false

abbrev pub is_unresolved : Resolution → Bool
is_unresolved unresolved = true
is_unresolved _ = false

abbrev pub is_untried : ChallengeResult → Bool
is_untried untried = true
is_untried _ = false

abbrev pub is_open_question : QuestionStatus → Bool
is_open_question open_question = true
is_open_question _ = false

-- `accessLevel === "discovered" || accessLevel === "snippet"`
abbrev pub is_unfetched : AccessLevel → Bool
is_unfetched discovered = true
is_unfetched snippet = true
is_unfetched _ = false

-- `accessLevel === "blocked" || accessLevel === "failed"`
abbrev pub is_inaccessible : AccessLevel → Bool
is_inaccessible access_blocked = true
is_inaccessible failed = true
is_inaccessible _ = false
