-- ===== src/Samples.antt =====
use deep_research_app.Injection.{is_allowed_tool}
use deep_research_app.Types.Values.{Arguments, str, lookup}
use deep_research_app.Admission.Gate.{IsStrict}
use deep_research_app.Admission.Guards.{Options, Schemas}
use deep_research_app.Base.{
  String, none, false, Option, ◌∷◌, [], if◌then◌else◌, arith, is_some, ap, some, not, ◌==◌,
}
use deep_research_app.Types.{
  Constraint, Ablations, Basis, ControllerState, Decision, Passage, explicit, Source, researching,
  hard, snippet,
}
-- Concrete inputs, and what the program does on them: a run that asks which databases work together,
-- with two sources, two passages that disagree, and a private text.
pub mod Gate
pub mod Choice
pub mod Budget
pub mod Calculations
pub mod Lifetimes
pub mod Patches
pub mod Screen
pub mod Corrections
pub mod Evidence

abbrev pub lisbon : Constraint
lisbon = record {
  id = "c1";
  field = "geography";
  operator = "eq";
  value = " Lisbon ";
  units = none;
  origin = explicit;
  importance = hard;
  explanation = "stated";
  provenance = none;
}

abbrev pub no_ablations : Ablations
no_ablations = record {
  disable_gap_detection = false;
  disable_source_pivot = false;
  disable_contradiction_handling = false;
  disable_disconfirmation = false;
  disable_evidence_aware_stop = false;
}

abbrev pub source : String → Option String → Source
source id cluster = record {
  id = id;
  title = "A source";
  locator = id;
  access_level = snippet;
  origin_cluster = cluster;
  source_type = some "review-summary";
  population = none;
  snippet_text = none;
}

abbrev pub passage : String → String → String → Passage
passage id source_id text = record {
  id = id;
  source_id = source_id;
  source_version_id = "v-1";
  exact_text = text;
  locator = "document";
}

abbrev pub first_basis : Basis
first_basis = record {
  brief_revision = 1;
  evidence_revision = 4;
  consent_epoch = 2;
  cancellation_epoch = 0;
  worker_lease_fence = 7;
}

abbrev pub run : ControllerState
run = record {
  run_id = "r1";
  brief = record {
    original_question = "Is Foo compatible with Postgres?";
    constraints = lisbon ∷ [];
    revision = 1;
  };
  basis = first_basis;
  phase = researching;
  sources = source "https://a.example/x" (some "a") ∷ source "https://b.example/y" none ∷ [];
  passages =
      passage "p-1" "https://a.example/x" "The plan costs 20 EUR per month."
      ∷ passage "p-2" "https://b.example/y" "The plan costs 30 EUR per month."
      ∷ [];
  claims = [];
  coverage = [];
  gaps = [];
  searches = [];
  constraints = lisbon ∷ [];
  candidates = [];
  spent_micro = 0;
  budget_micro = 200000;
  deleted = false;
  private_canaries = "blue heron" ∷ [];
  issued_dedupe_keys = [];
  completed_action_types = [];
  questions = none;
  contradictions = none;
  calculations = [];
  disconfirmations = [];
  ablations = no_ablations;
}

abbrev pub proposal : String → Arguments → Decision
proposal type arguments = record {
  action_id = "act-1";
  run_id = "r1";
  brief_revision = 1;
  type = type;
  coverage_ids = [];
  gap_id = none;
  arguments = arguments;
  rationale = "look";
  estimated_max_cost_micro = 5000;
  source_access_constraints = [];
  dedupe_key = "k1";
  privileged = false;
  reject_reason = none;
}

abbrev pub ask : Decision
ask = proposal "search" (("query", str "Foo Postgres compatibility") ∷ [])

abbrev pub leaking : Decision
leaking = proposal "search" (("query", str "foo Blue Heron postgres") ∷ [])

abbrev pub open_page : Decision
open_page = proposal "fetch" (("locator", str "https://a.example/x") ∷ [])

abbrev pub doubt : Decision
doubt = proposal "challenge" (("query", str "Foo Postgres counterexample") ∷ [])

abbrev pub plain_options : Options
plain_options = record { seen_dedupe_keys = []; live_spend = none }

-- Schemas that take every id but the empty one, and leave arguments as they are.
abbrev pub schemas : Schemas
schemas = record { is_uuid = λ s. not (s == ""); parse_arguments = λ type args. some args }

pub schemas-IsStrict : IsStrict schemas
schemas-IsStrict = record { arguments_kept = λ type a b key e. ap (lookup key) (ground arith) }
