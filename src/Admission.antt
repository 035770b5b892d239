-- ===== src/Admission.antt =====
-- packages/research-core/src/admission.ts: the one gate that every proposed action passes before a
-- worker executes it. An early return with a refusal is a guard that gives the refusal, and the
-- gate takes the first; the schema library's `safeParse` of an action's arguments is a parameter.
pub mod Guards
pub mod Proposal
pub mod Conditions
pub mod Stops
pub mod Gate
pub mod Privileges
pub mod Queries
use deep_research_app.Admission.Proposal.{parse_proposal}
use Prim.Native.Nat.{max}
use deep_research_app.Base.{
  ℕ, String, Bool, true, false, not, ◌&&◌, ◌||◌, Option, none, some, List, [], ◌∷◌, ◌++◌, ◌==◌, leb,
  ltb, is_some, if◌then◌else◌,
}
use deep_research_app.Types.{ControllerState, Decision}
use deep_research_app.Types.Values.{Arguments, Value, lookup, is_true_value, str, flag}
use deep_research_app.Admission.Guards.{
  Options, Refusal, Schemas, asserted, first_refusal, capability_guard, type_guard,
  privileged_guard, deleted_guard, cancelled_guard, run_guard, revision_guard, duplicate_guard,
  locator_guard, synthesize_guard, coverage_guard, leak_guard, live_guard, cost_guard, simple,
}

module _ (z : Schemas) where
  -- The guards between the schema of the proposal and the schema of its arguments, in order.
  unfoldable pub refusal_of : ControllerState → Decision → Options → Option Refusal
  refusal_of state p opts = first_refusal (
      capability_guard p
      ∷ type_guard p
      ∷ privileged_guard p
      ∷ deleted_guard state
      ∷ cancelled_guard state
      ∷ run_guard state p
      ∷ revision_guard state p
      ∷ duplicate_guard state p opts
      ∷ locator_guard p
      ∷ synthesize_guard state p
      ∷ coverage_guard state p
      ∷ leak_guard state p
      ∷ live_guard p opts
      ∷ cost_guard state p opts
      ∷ [])

  unfoldable pub admit_proposed_action : ControllerState → Decision → Options → Decision
  admit_proposed_action state p opts = elim (parse_proposal z p) [
    | none ↦ asserted p (simple "stop" "invalid_schema" "Proposal failed schema validation")
    | some parsed ↦ elim (refusal_of state p opts) [
      | some r ↦ asserted p r
      | none ↦ elim (z.parse_arguments p.type p.arguments) [
        | none ↦ asserted p (
            simple "stop" "invalid_arguments"
              "Action arguments do not match the executable contract")
        | some executable ↦ record parsed { arguments = executable }
      ]
    ]
  ]

  -- `{ key: arguments[key] }`, with nothing for an absent key.
  carry : String → Arguments → Arguments
  carry key args = elim (lookup key args) [ none ↦ [] | some v ↦ (key, v) ∷ [] ]

  -- The search that a challenge stands for.
  unfoldable pub search_for : Decision → Decision
  unfolding carry
  search_for d = record d {
    type = "search";
    arguments =
        carry "query" d.arguments
        ++ (carry "targetConclusion" d.arguments
            ++ (carry "falsificationHypothesis" d.arguments
                ++ (("disconfirm", flag true) ∷ carry "selectionReason" d.arguments)));
  }

  unfoldable pub admit_executable_action : ControllerState → Decision → Options → Decision
  admit_executable_action state p opts =
      let admitted = admit_proposed_action state p opts in
      let searched = admit_proposed_action state (search_for admitted) opts in
      if is_some admitted.reject_reason
        || not (admitted.type == "challenge")
        || is_true_value (lookup "recordOnly" admitted.arguments)
      then admitted
      else searched
