-- ===== src/Adaptive/Proposals.antt =====
-- adaptive.ts, lines 19 to 75 and 441 to 444: building proposals, and the sources and gaps that the
-- steps look at; and the clarifications of brief.ts, lines 212 to 225.
use deep_research_app.Independence.{type_of, is_primary_type, is_weak_source_class}
use deep_research_app.Injection.{query_leaks_private}
use deep_research_app.Policy.{has}
use deep_research_app.Admission.Guards.{is_given, spend_args}
use deep_research_app.Fences.{can_spend_exploration}
use deep_research_app.Types.Values.{Arguments, spread, assign, str}
use deep_research_app.Text.{template, decimal, lower}
use deep_research_app.Regex.{Regex, whole, words, test}
use deep_research_app.Types.{ControllerState, Decision, Source, Brief, is_unfetched}
use deep_research_app.Base.{
  [], ◌∷◌, none, some, String, ℕ, if◌then◌else◌, List, Bool, Option, select, same_text, head?, ◌+◌,
  ◌||◌, ◌==◌, false, or_try, true, find, ◌&&◌, not, some_of,
}

unfoldable pub base_proposal : ControllerState → Decision
base_proposal state =
    let action_id = template ("act-" ∷ decimal (state.basis.evidence_revision + 1) ∷ []) in
    record {
      action_id = action_id;
      run_id = state.run_id;
      brief_revision = state.brief.revision;
      type = "";
      coverage_ids = [];
      gap_id = none;
      arguments = [];
      rationale = "";
      estimated_max_cost_micro = 0;
      source_access_constraints = [];
      dedupe_key = action_id;
      privileged = false;
      reject_reason = none;
    }

-- `{ ...b, type, rationale, arguments }`
unfoldable pub propose : ControllerState → String → String → Arguments → Decision
unfolding base_proposal
propose state type rationale args = record (base_proposal state) {
  type = type;
  rationale = rationale;
  arguments = args;
}

unfoldable pub with_reason : Decision → String → Arguments → Decision
with_reason d reason extra = record d {
  arguments = spread (assign "selectionReason" (str reason) d.arguments) extra;
}

unfoldable pub can_pay : ControllerState → ℕ → Bool → Bool
can_pay state cost finishing = can_spend_exploration (spend_args state cost finishing)

unfoldable pub leak_or_search : ControllerState → String → Decision → Decision
unfolding propose
leak_or_search state query d =
    if is_given (query_leaks_private query state.private_canaries)
    then propose state "stop" "private text cannot enter a public query" (
        ("reason", str "private_query_blocked")
        ∷ ("selectionReason", str "private_query_blocked")
        ∷ [])
    else record d { arguments = assign "query" (str query) d.arguments }

unfoldable pub unfetched_sources : ControllerState → List Source
unfetched_sources state = select (λ s. is_unfetched s.access_level) state.sources

-- `s.sourceType === needed || PRIMARY_SOURCE_TYPES.has(s.sourceType ?? "")`
unfoldable pub is_preferred : String → Source → Bool
is_preferred needed s = same_text s.source_type needed || is_primary_type s

unfoldable pub preferred_unfetched : ControllerState → Option String → Option Source
unfolding unfetched_sources is_preferred
preferred_unfetched state needed =
    let unfetched = unfetched_sources state in
    elim needed [
      | none ↦ head? unfetched
      | some type ↦
          if type == ""
          then head? unfetched
          else or_try (find (is_preferred type) unfetched) (head? unfetched)
    ]

-- `WEAKISH(s)`
unfoldable pub is_weakish : Source → Bool
is_weakish s =
    has (type_of s)
      ("review-summary" ∷ "blog" ∷ "wire" ∷ "marketing" ∷ "aggregator" ∷ "community" ∷ [])
    || is_weak_source_class s

unfoldable pub asks_jurisdiction : Regex
asks_jurisdiction =
    whole (words ("tax" ∷ "employment law" ∷ "filing" ∷ "legal status" ∷ "which law applies" ∷ []))

unfoldable pub names_jurisdiction : Regex
names_jurisdiction =
    whole (words ("germany" ∷ "france" ∷ "usa" ∷ "united states" ∷ "uk" ∷ "canada" ∷ []))

unfoldable pub needed_clarifications : Brief → List String
needed_clarifications brief =
    let q = lower brief.original_question in
    if test true asks_jurisdiction q
      && not (some_of (λ c. c.field == "geography") brief.constraints)
      && not (test true names_jurisdiction q)
    then "Which jurisdiction should this answer apply to?" ∷ []
    else []
