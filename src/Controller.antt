-- ===== src/Controller.antt =====
-- packages/research-core/src/controller.ts: the bounded baseline controller, and the proposal of
-- either controller passed through the gate.
pub mod Baseline
pub mod Proposed
use deep_research_app.Adaptive.{select_adaptive_action}
use deep_research_app.Text.{template, decimal}
use deep_research_app.Admission.{admit_proposed_action}
use deep_research_app.Types.Values.{Arguments, str}
use deep_research_app.Admission.Guards.{Schemas, synth_cost, search_cost, fetch_cost}
use deep_research_app.Types.{ControllerState, Source, Decision, is_unfetched}
use deep_research_app.Base.{
  [], ◌∷◌, none, some, ℕ, List, String, Bool, select, length, Option, starts_with, ◌-◌,
  if◌then◌else◌, ◌||◌, ltb, nat_eq, ◌&&◌, ◌+◌, head?, false,
}

pub data ControllerKind : Type 0 where
  baseline adaptive : ControllerKind

abbrev max_baseline_fetches : ℕ
max_baseline_fetches = 3

-- `baseProposal(state, type, { rationale, arguments, estimatedMaxCostMicro, dedupeKey })`
unfoldable pub baseline_proposal :
    ControllerState → String → String → Arguments → ℕ → String → Decision
baseline_proposal state type rationale arguments cost dedupe_key = record {
  action_id = template ("act-" ∷ decimal (state.basis.evidence_revision + 1) ∷ []);
  run_id = state.run_id;
  brief_revision = state.brief.revision;
  type = type;
  coverage_ids = [];
  gap_id = none;
  arguments = arguments;
  rationale = rationale;
  estimated_max_cost_micro = cost;
  source_access_constraints = [];
  dedupe_key = dedupe_key;
  privileged = false;
  reject_reason = none;
}

unfoldable pub is_http_or_catalog : Source → Bool
is_http_or_catalog s = starts_with s.locator "http" || starts_with s.locator "fixture://"

unfoldable pub http_or_catalog : ControllerState → List Source
unfolding is_http_or_catalog
http_or_catalog state = select is_http_or_catalog state.sources

abbrev pub unfetched_of : List Source → List Source
unfetched_of sources = select (λ s. is_unfetched s.access_level) sources

-- The unfetched sources are among the known ones, so the difference is never negative.
unfoldable pub fetched_count : ControllerState → ℕ
fetched_count state = length (http_or_catalog state) - length (unfetched_of (http_or_catalog state))

unfoldable pub baseline_search : ControllerState → Decision
unfolding baseline_proposal
baseline_search state =
    baseline_proposal state "search" "Live discovery of public sources for the task"
      (("query", str state.brief.original_question) ∷ []) search_cost
      (template ("baseline-search:" ∷ state.run_id ∷ []))

unfoldable pub baseline_fetch : ControllerState → Source → Decision
unfolding baseline_proposal
baseline_fetch state s =
    baseline_proposal state "fetch" "Inspect an already-known source before another paid search"
      (("locator", str s.locator) ∷ ("sourceId", str s.id) ∷ []) fetch_cost
      (template ("baseline-fetch:" ∷ s.locator ∷ []))

unfoldable pub baseline_synthesis : ControllerState → Decision
unfolding baseline_proposal
baseline_synthesis state =
    baseline_proposal state "synthesize" "Write a bounded cited report from accessed evidence" []
      synth_cost (template ("baseline-synth:" ∷ state.run_id ∷ []))

-- The fetch of the first unfetched source, below the bound, or the synthesis.
unfoldable pub inspect_or_write : ControllerState → Option Source → Decision
unfolding baseline_fetch baseline_synthesis
inspect_or_write state none = baseline_synthesis state
inspect_or_write state (some s) =
    if ltb (fetched_count state) max_baseline_fetches
    then baseline_fetch state s
    else baseline_synthesis state

unfoldable pub select_baseline_action : ControllerState → Decision
unfolding inspect_or_write
select_baseline_action state =
    if nat_eq (length (http_or_catalog state)) 0 && nat_eq (length state.searches) 0
    then baseline_search state
    else inspect_or_write state (head? (unfetched_of (http_or_catalog state)))

-- The adaptive choice refreshes the state that the gate then reads.
unfoldable pub propose_controller_action :
    Schemas → ControllerState → ControllerKind → ControllerState × Decision
propose_controller_action z state baseline =
    let raw = select_baseline_action state in
    (state, admit_proposed_action z state raw (record { seen_dedupe_keys = []; live_spend = none }))
propose_controller_action z state adaptive =
    let (fresh, raw) = select_adaptive_action state in
    (fresh, admit_proposed_action z fresh raw (record { seen_dedupe_keys = []; live_spend = none }))
