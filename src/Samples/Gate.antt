-- ===== src/Samples/Gate.antt =====
-- The gate on the sample run: a search, a fetch and a challenge that are admitted, and a search that
-- carries the private text.
use deep_research_app.Admission.Proposal.{parse_proposal, is_proposal}
use deep_research_app.Admission.Privileges.{admit-unprivileged, admit-IsExternal, IsExternal}
use deep_research_app.Controller.Baseline.{is_web, FetchesFirst, select_baseline_action-bounded}
use deep_research_app.Controller.Proposed.{outcome, propose_controller_action-IsAbsent}
use deep_research_app.Controller.{
  propose_controller_action, select_baseline_action, baseline_search, fetched_count, baseline_fetch,
  baseline_proposal, inspect_or_write, http_or_catalog, is_http_or_catalog, baseline,
}
use deep_research_app.Text.{chars, of_chars, lower, includes, template, decimal}
use deep_research_app.Regex.{test}
use deep_research_app.Types.Values.{text_argument, lookup, is_true_value, to_text}
use deep_research_app.Fences.{writing_reserve, can_spend_exploration}
use deep_research_app.Admission.Queries.{
  admit-is_allowed_locator, admit-IsAbsent, admit-within_budget, admit_executable-cases,
}
use deep_research_app.Injection.Leaks.{IsAbsent, query_leaks-none_iff}
use deep_research_app.Controller.Proposed.{outcome}
use deep_research_app.Samples.{
  schemas, ask, run, plain_options, leaking, open_page, doubt, schemas-IsStrict, lookup,
}
use deep_research_app.Injection.{
  query_leaks_private, reject_privileged_proposal, is_allowed_tool, off_coverage, leaks_canary,
}
use deep_research_app.Admission.Guards.{
  is_allowed_locator, is_finishing_type, first_refusal, asserted, simple, with_detail,
  live_call_permitted, refused_scheme, tariff_of, internal_host, run_budget_cost, capability_guard,
  type_guard, privileged_guard, deleted_guard, cancelled_guard, run_guard, revision_guard, was_seen,
  duplicate_guard, locator_guard, is_blocking_untried, synthesize_guard, coverage_guard, leak_guard,
  live_guard, cost_guard, is_safe_integer, is_action_type,
}
use deep_research_app.Admission.Gate.{IsAdmissible, admit_iff, admit-stops}
use deep_research_app.Admission.{
  admit_proposed_action, admit_executable_action, refusal_of, search_for,
}
use deep_research_app.Base.{
  refl, ◌≡◌, none, some, All, ◌≢◌, ◌≤◌, true, ◌∷◌, [], false, ◌↔◌, ◌+◌, arith, ◌<◌, Any, String,
}

program : Unit {0}
unfolding is_action_type parse_proposal is_proposal is_safe_integer admit_proposed_action
    admit_executable_action refusal_of first_refusal asserted simple with_detail live_call_permitted
    tariff_of run_budget_cost refused_scheme internal_host is_allowed_locator capability_guard
    type_guard privileged_guard deleted_guard cancelled_guard run_guard revision_guard was_seen
    duplicate_guard locator_guard is_blocking_untried synthesize_guard coverage_guard leak_guard
    live_guard cost_guard lookup text_argument to_text can_spend_exploration writing_reserve
    off_coverage query_leaks_private leaks_canary reject_privileged_proposal is_allowed_tool
    search_for chars of_chars lower includes test
program = tt

ask-admitted : admit_proposed_action schemas run ask plain_options ≡ ask
unfolding program
ask-admitted = refl

leaking-refused :
    (admit_proposed_action schemas run leaking plain_options).reject_reason
    ≡ some "private_query_blocked"
unfolding program
leaking-refused = refl

open_page-admitted : admit_proposed_action schemas run open_page plain_options ≡ open_page
unfolding program
open_page-admitted = refl

doubt-searches : (admit_executable_action schemas run doubt plain_options).reject_reason ≡ none
unfolding program
doubt-searches = refl

ask-IsAdmissible : IsAdmissible schemas run ask plain_options ask
ask-IsAdmissible = (admit_iff schemas run ask plain_options ask).0 (ask-admitted, refl)

admit-iff_example :
    ((admit_proposed_action schemas run ask plain_options ≡ ask) × (ask.reject_reason ≡ none))
    ↔ IsAdmissible schemas run ask plain_options ask
admit-iff_example = admit_iff schemas run ask plain_options ask

admit-stops_example :
    ((admit_proposed_action schemas run leaking plain_options).type ≡ "stop")
    × ((admit_proposed_action schemas run leaking plain_options).action_id ≡ "act-1")
    × ((admit_proposed_action schemas run leaking plain_options).run_id ≡ "r1")
    × ((admit_proposed_action schemas run leaking plain_options).dedupe_key ≡ "k1")
admit-stops_example =
    admit-stops schemas run leaking plain_options (λ e. ground (arith, leaking-refused))

admit-IsAbsent_example : All (IsAbsent "Foo Postgres compatibility") ("blue heron" ∷ [])
unfolding program
admit-IsAbsent_example =
    admit-IsAbsent schemas run ask plain_options ask schemas-IsStrict ask-admitted refl refl

admit-is_allowed_locator_example :
    (text_argument "locator" open_page.arguments ≢ "")
    × (is_allowed_locator "https://a.example/x" ≡ true)
unfolding program
admit-is_allowed_locator_example =
    admit-is_allowed_locator schemas run open_page plain_options open_page schemas-IsStrict
      open_page-admitted refl refl

admit-within_budget_example :
    (5000 ≤ 200000) × (is_finishing_type "search" ≡ false → 5000 + writing_reserve 200000 ≤ 200000)
unfolding program
admit-within_budget_example =
    admit-within_budget schemas run ask plain_options ask ask-admitted refl (omega arith)

admit_executable-cases_example :
    ((admit_executable_action schemas run doubt plain_options).type ≡ "search"
      → All
          (IsAbsent (
            text_argument "query"
              (admit_executable_action schemas run doubt plain_options).arguments))
          ("blue heron" ∷ []))
    × ((admit_executable_action schemas run doubt plain_options).type ≡ "challenge"
        → is_true_value (
            lookup "recordOnly" (admit_executable_action schemas run doubt plain_options).arguments)
          ≡ true)
admit_executable-cases_example =
    admit_executable-cases schemas run doubt plain_options schemas-IsStrict doubt-searches

query_leaks-none_iff_example :
    (query_leaks_private "blue heron price" ("blue heron" ∷ []) ≡ none)
    ↔ All (IsAbsent "blue heron price") ("blue heron" ∷ [])
query_leaks-none_iff_example = query_leaks-none_iff "blue heron price" ("blue heron" ∷ [])

admit-unprivileged_example :
    Any
      (λ (t : String). t ≡ "search")
      ("clarify" ∷ "search" ∷ "fetch" ∷ "extract_text" ∷ "compare" ∷ "calculate" ∷ "verify"
        ∷ "challenge" ∷ "replan" ∷ "synthesize" ∷ "stop" ∷ [])
    × (false ≡ false)
    × All
        (λ field. lookup field ask.arguments ≡ none)
        ("newTools" ∷ "apiKey" ∷ "spendCapOverride" ∷ "processorOverride" ∷ "bypassConsent" ∷ [])
admit-unprivileged_example =
    admit-unprivileged schemas run ask plain_options ask schemas-IsStrict ask-admitted refl

admit-IsExternal_example : IsExternal (text_argument "locator" open_page.arguments)
admit-IsExternal_example =
    admit-IsExternal schemas run open_page plain_options open_page schemas-IsStrict
      open_page-admitted refl refl

propose_controller_action-IsAbsent_example :
    ((outcome schemas run baseline).type ≡ "search"
      → All
          (IsAbsent (text_argument "query" (outcome schemas run baseline).arguments))
          ("blue heron" ∷ []))
    × (0 < run_budget_cost (outcome schemas run baseline) plain_options
        → 0 + run_budget_cost (outcome schemas run baseline) plain_options ≤ 200000)
unfolding program propose_controller_action select_baseline_action baseline_search baseline_fetch
    baseline_proposal inspect_or_write fetched_count http_or_catalog is_http_or_catalog template
    decimal
propose_controller_action-IsAbsent_example =
    propose_controller_action-IsAbsent schemas run baseline schemas-IsStrict refl

select_baseline_action-bounded_example :
    ((select_baseline_action run).type ≡ "search"
      → (run.searches ≡ []) × All (λ s. is_web s ≡ false) run.sources)
    × ((select_baseline_action run).type ≡ "fetch"
        → FetchesFirst run.sources (select_baseline_action run))
select_baseline_action-bounded_example = select_baseline_action-bounded run
