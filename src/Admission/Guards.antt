-- ===== src/Admission/Guards.antt =====
-- The guards of the admission gate (admission.ts, lines 13 to 223), each as its condition and the
-- refusal that it returns.
use Prim.Native.Nat.{max}
use deep_research_app.Base.{
  ℕ, ◌+◌, ◌^◌, String, Bool, true, false, not, ◌&&◌, ◌||◌, Option, none, some, List, [], ◌∷◌, ◌++◌,
  ◌==◌, leb, ltb, nat_eq, starts_with, or_else, find, some_of, if◌then◌else◌,
}
use deep_research_app.Text.{template}
use deep_research_app.Regex.{Regex, begin, word, words, all_of, test}
use deep_research_app.Types.{ControllerState, Decision, Gap, is_blocking_importance}
use deep_research_app.Types.Values.{Arguments, str, text_argument}
use deep_research_app.Fences.{can_spend_exploration, SpendArgs}
use deep_research_app.Injection.{off_coverage, query_leaks_private, reject_privileged_proposal}

abbrev pub search_cost : ℕ
search_cost = 5000

abbrev pub fetch_cost : ℕ
fetch_cost = 3000

abbrev pub synth_cost : ℕ
synth_cost = 8000

-- `ActionTypeSchema`
abbrev pub action_types : List String
action_types =
    "clarify" ∷ "search" ∷ "fetch" ∷ "extract_text" ∷ "extract_table" ∷ "inspect_visual" ∷ "compare"
    ∷ "calculate" ∷ "verify" ∷ "challenge" ∷ "replan" ∷ "synthesize" ∷ "stop" ∷ []

unfoldable pub is_action_type : String → Bool
is_action_type type = some_of (λ t. t == type) action_types

-- What is left to the schema library: its test of a uuid, and `safeParse` of the schema of
-- packages/contracts for the arguments of an action of a type.
pub record Schemas : Type 0 where
  pub is_uuid : String → Bool
  pub parse_arguments : String → Arguments → Option Arguments

pub record LiveSpendGate : Type 0 where
  pub cap_micro : ℕ
  pub used_micro : ℕ
  pub estimated_micro : ℕ

pub record Options : Type 0 where
  pub seen_dedupe_keys : List String
  pub live_spend : Option LiveSpendGate

-- What a refusal changes in the proposal.
pub record Refusal : Type 0 where
  pub type : String
  pub reason : String
  pub rationale : String
  pub arguments : Arguments
  pub cost : Option ℕ

-- `asDecision(proposal, patch)`
unfoldable pub asserted : Decision → Refusal → Decision
asserted p r = record p {
  type = r.type;
  reject_reason = some r.reason;
  rationale = r.rationale;
  arguments = r.arguments;
  estimated_max_cost_micro = or_else r.cost p.estimated_max_cost_micro;
}

-- A refusal whose arguments repeat its reason.
unfoldable pub simple : String → String → String → Refusal
simple type reason rationale = record {
  type = type;
  reason = reason;
  rationale = rationale;
  arguments = ("reason", str reason) ∷ [];
  cost = none;
}

unfoldable pub with_detail : String → String → String → String → String → Refusal
unfolding simple
with_detail type reason rationale key detail = record (simple type reason rationale) {
  arguments = ("reason", str reason) ∷ (key, str detail) ∷ [];
}

unfoldable pub first_refusal : List (Option Refusal) → Option Refusal
first_refusal [] = none
first_refusal (none ∷ guards) = first_refusal guards
first_refusal (some r ∷ guards) = some r

abbrev pub refuse : Bool → Refusal → Option Refusal
refuse test r = if test then some r else none

unfoldable pub is_safe_integer : ℕ → Bool
is_safe_integer v = ltb v (2 ^ 53)

-- Differences of amounts are compared as sums, since they may be negative in the source.
unfoldable pub live_call_permitted : LiveSpendGate → Bool
live_call_permitted gate =
    is_safe_integer gate.cap_micro
    && is_safe_integer gate.used_micro
    && is_safe_integer gate.estimated_micro
    && not (nat_eq gate.cap_micro 0)
    && leb (gate.used_micro + gate.estimated_micro) gate.cap_micro

unfoldable pub tariff_of : String → ℕ
tariff_of type =
    if type == "search"
    then search_cost
    else if type == "fetch"
    then fetch_cost
    else if type == "synthesize"
    then synth_cost
    else 0

unfoldable pub run_budget_cost : Decision → Options → ℕ
run_budget_cost p opts = elim opts.live_spend [
  | some gate ↦ tariff_of p.type
  | none ↦ max (tariff_of p.type) p.estimated_max_cost_micro
]

unfoldable pub refused_scheme : Regex
refused_scheme =
    all_of (begin ∷ words ("file" ∷ "javascript" ∷ "data" ∷ "ftp" ∷ []) ∷ word ":" ∷ [])

unfoldable pub internal_host : Regex
internal_host = words ("localhost" ∷ "127.0.0.1" ∷ "0.0.0.0" ∷ "169.254" ∷ "metadata.google" ∷ [])

unfoldable pub is_allowed_locator : String → Bool
is_allowed_locator locator =
    if starts_with locator "fixture://" || starts_with locator "attachment://"
    then true
    else if test true refused_scheme locator
    then false
    else if test true internal_host locator
    then false
    else starts_with locator "http://" || starts_with locator "https://"

abbrev pub is_finishing_type : String → Bool
is_finishing_type type = type == "synthesize" || type == "stop"

unfoldable pub capability_guard : Decision → Option Refusal
capability_guard p = refuse (p.type == "extract_table" || p.type == "inspect_visual") (
    with_detail "stop" "capability_unavailable" "table/visual extraction adapters are unavailable"
      "requested" p.type)

unfoldable pub type_guard : Decision → Option Refusal
type_guard p = refuse (not (is_action_type p.type)) (
    with_detail "stop" "unauthorized_action"
      (template ("action type " ∷ p.type ∷ " is not a permitted research action" ∷ [])) "requested"
      p.type)

unfoldable pub privileged_guard : Decision → Option Refusal
privileged_guard p = elim (reject_privileged_proposal p) [
  | none ↦ none
  | some why ↦ some (record {
    type = "stop";
    reason = why;
    rationale = why;
    arguments = ("reason", str "unauthorized_action") ∷ ("detail", str why) ∷ [];
    cost = none;
  })
]

unfoldable pub deleted_guard : ControllerState → Option Refusal
deleted_guard state = refuse state.deleted (simple "stop" "deleted" "account or content deleted")

unfoldable pub cancelled_guard : ControllerState → Option Refusal
cancelled_guard state =
    refuse (ltb 0 state.basis.cancellation_epoch)
      (simple "stop" "cancelled" "run is cancelled; no further actions")

unfoldable pub run_guard : ControllerState → Decision → Option Refusal
run_guard state p =
    refuse (not (p.run_id == state.run_id))
      (simple "stop" "wrong_run" "proposal belongs to another run")

unfoldable pub revision_guard : ControllerState → Decision → Option Refusal
revision_guard state p =
    refuse
      (not (nat_eq p.brief_revision state.brief.revision)
        || not (nat_eq p.brief_revision state.basis.brief_revision))
      (simple "stop" "stale_revision" "proposal brief revision does not match the loaded run")

-- `seen.has(key)`, for the set of the keys issued in the run and those of the caller.
unfoldable pub was_seen : ControllerState → Options → String → Bool
was_seen state opts key =
    some_of (λ k. k == key) (state.issued_dedupe_keys ++ opts.seen_dedupe_keys)

unfoldable pub duplicate_guard : ControllerState → Decision → Options → Option Refusal
duplicate_guard state p opts =
    refuse
      (not (p.dedupe_key == "")
        && was_seen state opts p.dedupe_key
        && not (p.type == "synthesize")
        && not (p.type == "stop"))
      (with_detail "stop" "duplicate_action" "duplicate action suppressed" "dedupeKey" p.dedupe_key)

unfoldable pub locator_guard : Decision → Option Refusal
locator_guard p =
    let locator = text_argument "locator" p.arguments in
    refuse (p.type == "fetch" && (locator == "" || not (is_allowed_locator locator))) (
      with_detail "stop" "unsafe_url"
        "fetch locator is not an allowed fixture, attachment, or http(s) URL" "locator" locator)

-- `latestOutcome === "untried" || !latestOutcome`
abbrev pub is_untried_outcome : Option String → Bool
is_untried_outcome none = true
is_untried_outcome (some o) = o == "untried" || o == ""

-- `field !== text`
abbrev pub differs : Option String → String → Bool
differs none text = true
differs (some s) text = not (s == text)

-- A text that is there and not empty.
abbrev pub is_given : Option String → Bool
is_given none = false
is_given (some s) = not (s == "")

unfoldable pub is_blocking_untried : Gap → Bool
is_blocking_untried g =
    is_blocking_importance g.importance
    && is_untried_outcome g.latest_outcome
    && differs g.resolution "resolved"
    && is_given g.suggested_query

abbrev pub spend_args : ControllerState → ℕ → Bool → SpendArgs
spend_args state cost finishing = record {
  total = state.budget_micro;
  spent = state.spent_micro;
  cost = cost;
  is_finishing = finishing;
  finishing_cost = some synth_cost;
}

unfoldable pub synthesize_guard : ControllerState → Decision → Option Refusal
synthesize_guard state p =
    if p.type == "synthesize" && can_spend_exploration (spend_args state search_cost false)
    then elim (find is_blocking_untried state.gaps) [
      | none ↦ none
      | some g ↦ some (
          with_detail "stop" "blocking_gap_open"
            (template ("synthesize rejected while blocking gap is untried: " ∷ g.missing_fact ∷ []))
            "gapId" g.id)
    ]
    else none

unfoldable pub coverage_guard : ControllerState → Decision → Option Refusal
coverage_guard state p =
    let query = text_argument "query" p.arguments in
    refuse (p.type == "search" && off_coverage query state.brief.original_question) (
      with_detail "stop" "off_coverage"
        "Declined an out-of-coverage branch suggested by page content" "query" query)

-- A leak that is the empty text would pass, as in the source; the empty text is no canary.
unfoldable pub leak_guard : ControllerState → Decision → Option Refusal
leak_guard state p =
    let query = text_argument "query" p.arguments in
    refuse (p.type == "search" && is_given (query_leaks_private query state.private_canaries)) (
      simple "stop" "private_query_blocked"
        "private document text cannot be used as a public query")

unfoldable pub live_guard : Decision → Options → Option Refusal
live_guard p opts = elim opts.live_spend [
  | none ↦ none
  | some gate ↦ refuse (p.type == "search" && not (live_call_permitted gate)) (
      simple "stop" "live_spend_cap_exhausted"
        "live spend cap would be exceeded; no new paid call issued")
]

unfoldable pub cost_guard : ControllerState → Decision → Options → Option Refusal
cost_guard state p opts =
    let cost = run_budget_cost p opts in
    refuse
      (ltb 0 cost && not (can_spend_exploration (spend_args state cost (is_finishing_type p.type))))
      (record (simple "stop" "allowance_exhausted"
        "allowance exhausted; finishing from stored evidence") { cost = some synth_cost })
