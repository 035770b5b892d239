-- ===== src/Admission/Conditions.antt =====
-- When each guard of the admission gate lets a proposal through.
use deep_research_app.Injection.Leaks.{query_leaks-nonempty, reject_privileged-none_iff}
use deep_research_app.Fences.{can_spend_exploration}
use deep_research_app.Injection.{
  is_allowed_tool, reject_privileged_proposal, privileged_fields, off_coverage, query_leaks_private,
}
use deep_research_app.Base.{
  refl, [], ◌≢◌, List, ◌≡◌, Option, true, none, ◌↔◌, All, arith, ◌∷◌, eq_iff, ◌⊎◌, some, false, ◌<◌,
  find-none_iff, Option-cases, inl, inr,
}
use deep_research_app.Types.{ControllerState, Decision}
use deep_research_app.Types.Values.{lookup, text_argument}
use deep_research_app.Admission.{refusal_of, type_guard, deleted_guard, cancelled_guard}
use deep_research_app.Admission.Guards.{
  Refusal, Options, Schemas, first_refusal, capability_guard, privileged_guard, revision_guard,
  run_guard, duplicate_guard, locator_guard, was_seen, is_allowed_locator, is_finishing_type,
  spend_args, search_cost, is_blocking_untried, LiveSpendGate, live_call_permitted, run_budget_cost,
  synthesize_guard, coverage_guard, cost_guard, live_guard, leak_guard, type_guard, deleted_guard,
  cancelled_guard, is_action_type,
}

pub first_refusal-none_iff :
    (guards : List (Option Refusal)) → (first_refusal guards ≡ none) ↔ All (λ g. g ≡ none) guards
unfolding first_refusal
first_refusal-none_iff [] = (λ _. tt, λ _. refl)
first_refusal-none_iff (none ∷ gs) =
    (λ h. (refl, (first_refusal-none_iff gs).0 h), λ h. (first_refusal-none_iff gs).1 h.1)
first_refusal-none_iff (some r ∷ gs) = (λ h. ground arith, λ h. ground arith)

-- What has to hold of a proposal in a state, for the guards between the two schemas.
pub record IsPermitted (z : Schemas) (state : ControllerState) (p : Decision) (opts : Options)
    : Type 0 where
  pub not_table : p.type ≢ "extract_table"
  pub not_visual : p.type ≢ "inspect_visual"
  pub known_type : is_action_type p.type ≡ true
  pub allowed_tool : is_allowed_tool p.type ≡ true
  pub no_privilege : p.privileged ≡ false
  pub no_privileged_field : All (λ field. lookup field p.arguments ≡ none) privileged_fields
  pub not_deleted : state.deleted ≡ false
  pub not_cancelled : state.basis.cancellation_epoch ≡ 0
  pub same_run : p.run_id ≡ state.run_id
  pub same_brief : p.brief_revision ≡ state.brief.revision
  pub same_basis : p.brief_revision ≡ state.basis.brief_revision
  pub fresh :
      was_seen state opts p.dedupe_key ≡ true
      → (p.dedupe_key ≡ "") ⊎ (is_finishing_type p.type ≡ true)
  pub safe_locator :
      p.type ≡ "fetch"
      → (text_argument "locator" p.arguments ≢ "")
        × (is_allowed_locator (text_argument "locator" p.arguments) ≡ true)
  pub gaps_tried :
      p.type ≡ "synthesize"
      → can_spend_exploration (spend_args state search_cost false) ≡ true
      → All (λ g. is_blocking_untried g ≡ false) state.gaps
  pub on_coverage :
      p.type ≡ "search"
      → off_coverage (text_argument "query" p.arguments) state.brief.original_question ≡ false
  pub no_leak :
      p.type ≡ "search"
      → query_leaks_private (text_argument "query" p.arguments) state.private_canaries ≡ none
  pub live_permitted :
      (gate : LiveSpendGate)
      → opts.live_spend ≡ some gate
      → p.type ≡ "search"
      → live_call_permitted gate ≡ true
  pub affordable :
      0 < run_budget_cost p opts
      → can_spend_exploration (spend_args state (run_budget_cost p opts) (is_finishing_type p.type))
        ≡ true

module _ (z : Schemas) (state : ControllerState) (p : Decision) (opts : Options) where
  capability-none :
      (capability_guard p ≡ none) ↔ ((p.type ≢ "extract_table") × (p.type ≢ "inspect_visual"))
  unfolding capability_guard
  capability-none = (
    λ h. (
      λ e. ground (arith, eq_iff p.type "extract_table"),
      λ e. ground (arith, eq_iff p.type "inspect_visual"),
    ),
    λ h. ground (arith, eq_iff p.type "extract_table", eq_iff p.type "inspect_visual"),
  )

  type-none : (type_guard p ≡ none) ↔ (is_action_type p.type ≡ true)
  unfolding type_guard
  type-none = (λ h. ground arith, λ h. ground arith)

  deleted-none : (deleted_guard state ≡ none) ↔ (state.deleted ≡ false)
  unfolding deleted_guard
  deleted-none = (λ h. ground arith, λ h. ground arith)

  cancelled-none : (cancelled_guard state ≡ none) ↔ (state.basis.cancellation_epoch ≡ 0)
  unfolding cancelled_guard
  cancelled-none = (λ h. ground arith, λ h. ground arith)

  privileged-none : (privileged_guard p ≡ none) ↔ (reject_privileged_proposal p ≡ none)
  unfolding privileged_guard
  privileged-none = (λ h. ground arith, λ h. ground arith)

  revision-none : (revision_guard state p ≡ none) ↔ (
      (p.brief_revision ≡ state.brief.revision) × (p.brief_revision ≡ state.basis.brief_revision))
  unfolding revision_guard
  revision-none = (λ h. ground arith, λ h. ground arith)

  run-none : (run_guard state p ≡ none) ↔ (p.run_id ≡ state.run_id)
  unfolding run_guard
  run-none = (
    λ h. ground (arith, eq_iff p.run_id state.run_id),
    λ h. ground (arith, eq_iff p.run_id state.run_id),
  )

  duplicate-none : (duplicate_guard state p opts ≡ none) ↔ (
      was_seen state opts p.dedupe_key ≡ true
      → (p.dedupe_key ≡ "") ⊎ (is_finishing_type p.type ≡ true))
  unfolding duplicate_guard
  duplicate-none = (
    λ h seen. ground (arith, eq_iff p.dedupe_key ""),
    λ h. ground (arith, h, eq_iff p.dedupe_key ""),
  )

  locator-none : (locator_guard p ≡ none) ↔ (
      p.type ≡ "fetch"
      → (text_argument "locator" p.arguments ≢ "")
        × (is_allowed_locator (text_argument "locator" p.arguments) ≡ true))
  unfolding locator_guard
  locator-none = (
    λ h e. ground (arith, eq_iff p.type "fetch", eq_iff (text_argument "locator" p.arguments) ""),
    λ h. ground (arith, h, eq_iff p.type "fetch", eq_iff (text_argument "locator" p.arguments) ""),
  )

  synthesize-none : (synthesize_guard state p ≡ none) ↔ (
      p.type ≡ "synthesize"
      → can_spend_exploration (spend_args state search_cost false) ≡ true
      → All (λ g. is_blocking_untried g ≡ false) state.gaps)
  unfolding synthesize_guard
  synthesize-none = (
    λ h e paid.
        (find-none_iff is_blocking_untried state.gaps).0
          (ground (arith, eq_iff p.type "synthesize")),
    λ h. ground (
      arith,
      eq_iff p.type "synthesize",
      (λ (e : p.type ≡ "synthesize")
            (paid : can_spend_exploration (spend_args state search_cost false) ≡ true).
          (find-none_iff is_blocking_untried state.gaps).1 (h e paid)),
    ),
  )

  coverage-none : (coverage_guard state p ≡ none) ↔ (
      p.type ≡ "search"
      → off_coverage (text_argument "query" p.arguments) state.brief.original_question ≡ false)
  unfolding coverage_guard
  coverage-none = (
    λ h e. ground (arith, eq_iff p.type "search"),
    λ h. ground (arith, h, eq_iff p.type "search"),
  )

  cost-none : (cost_guard state p opts ≡ none) ↔ (
      0 < run_budget_cost p opts
      → can_spend_exploration (spend_args state (run_budget_cost p opts) (is_finishing_type p.type))
        ≡ true)
  unfolding cost_guard
  cost-none = (λ h pos. ground arith, λ h. ground (arith, h))

  live-none : (live_guard p opts ≡ none) ↔ (
      (gate : LiveSpendGate)
      → opts.live_spend ≡ some gate
      → p.type ≡ "search"
      → live_call_permitted gate ≡ true)
  unfolding live_guard
  live-none = (
    λ h gate given e. ground (arith, eq_iff p.type "search"),
    λ h. elim (Option-cases opts.live_spend) [
      | inl absent ↦ ground arith
      | inr (gate, given) ↦ ground (arith, h gate given, eq_iff p.type "search")
    ],
  )

  -- A leak is never the empty text.
  leak-none : (leak_guard state p ≡ none) ↔ (
      p.type ≡ "search"
      → query_leaks_private (text_argument "query" p.arguments) state.private_canaries ≡ none)
  unfolding leak_guard
  leak-none = (
    λ h e.
        elim (Option-cases
          (query_leaks_private (text_argument "query" p.arguments) state.private_canaries)) [
            | inl clean ↦ clean
            | inr (c, leak) ↦ absurd (
                query_leaks-nonempty _ _ c leak
                  (ground (arith, eq_iff p.type "search", eq_iff c "")))
          ],
    λ h. ground (arith, h, eq_iff p.type "search"),
  )

  guards_sound : refusal_of z state p opts ≡ none → IsPermitted z state p opts
  unfolding refusal_of
  guards_sound h =
      let g = (first_refusal-none_iff _).0 h in
      let r = g.1.1.1.1.1.1 in
      let q = r.1.1.1.1.1.1 in
      let capability = capability-none.0 g.0 in
      let privileged = (reject_privileged-none_iff p).0 (privileged-none.0 g.1.1.0) in
      let revision = revision-none.0 r.0 in
      record {
        not_table = capability.0;
        not_visual = capability.1;
        known_type = type-none.0 g.1.0;
        allowed_tool = privileged.0;
        no_privilege = privileged.1;
        no_privileged_field = privileged.2;
        not_deleted = deleted-none.0 g.1.1.1.0;
        not_cancelled = cancelled-none.0 g.1.1.1.1.0;
        same_run = run-none.0 g.1.1.1.1.1.0;
        same_brief = revision.0;
        same_basis = revision.1;
        fresh = duplicate-none.0 r.1.0;
        safe_locator = locator-none.0 r.1.1.0;
        gaps_tried = synthesize-none.0 r.1.1.1.0;
        on_coverage = coverage-none.0 r.1.1.1.1.0;
        no_leak = leak-none.0 r.1.1.1.1.1.0;
        live_permitted = live-none.0 q.0;
        affordable = cost-none.0 q.1.0;
      }

  guards_complete : IsPermitted z state p opts → refusal_of z state p opts ≡ none
  unfolding refusal_of
  guards_complete h = (first_refusal-none_iff _).1 (
    capability-none.1 (h.not_table, h.not_visual),
    (
      type-none.1 h.known_type,
      (
        privileged-none.1 (
            (reject_privileged-none_iff p).1
              (h.allowed_tool, h.no_privilege, h.no_privileged_field)),
        (
          deleted-none.1 h.not_deleted,
          (
            cancelled-none.1 h.not_cancelled,
            (
              run-none.1 h.same_run,
              (
                revision-none.1 (h.same_brief, h.same_basis),
                (
                  duplicate-none.1 h.fresh,
                  (
                    locator-none.1 h.safe_locator,
                    (
                      synthesize-none.1 h.gaps_tried,
                      (
                        coverage-none.1 h.on_coverage,
                        (
                          leak-none.1 h.no_leak,
                          (live-none.1 h.live_permitted, (cost-none.1 h.affordable, tt)),
                        ),
                      ),
                    ),
                  ),
                ),
              ),
            ),
          ),
        ),
      ),
    ),
  )

  -- Every guard between the two schemas passes exactly when the proposal is permitted.
  pub refusal_of-none_iff : (refusal_of z state p opts ≡ none) ↔ IsPermitted z state p opts
  refusal_of-none_iff = (guards_sound, guards_complete)
