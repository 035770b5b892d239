-- ===== src/Impact.antt =====
-- packages/research-core/src/impact.ts: what a correction of the constraints invalidates.
pub mod Unchanged
use deep_research_app.Text.{includes, lower, template}
use deep_research_app.Policy.{has}
use deep_research_app.Regex.{Regex, words, test}
use deep_research_app.Base.{
  [], ◌∷◌, none, some, List, Option, if◌then◌else◌, Bool, String, ◌==◌, ◌++◌, some_of, true, map,
  false, ◌&&◌, ◌||◌, select, not, or_else,
}
use deep_research_app.Types.{
  open_question, answered, question_blocked, unresolvable, Constraint, QuestionStatus, Question,
  Claim, Gap,
}

pub data Completeness : Type 0 where
  known partial unknown : Completeness

pub record ImpactSet : Type 0 where
  pub changed_inputs : List String
  pub invalidated_objects : List String
  pub reopened_discovery_scopes : List String
  pub preserved_objects : List String
  pub reason : String
  pub dependency_completeness : Completeness
  pub affected_constraint_ids : List String
  pub affected_question_ids : List String
  pub affected_gap_ids : List String
  pub invalidated_claim_ids : List String
  pub reused_evidence_ids : List String

pub record ImpactArgs : Type 0 where
  pub previous_constraints : List Constraint
  pub next_constraints : List Constraint
  pub reopened_discovery : Bool
  pub dependency_completeness : Completeness
  pub previous_questions : List Question
  pub next_questions : List Question
  pub claims : Option (List Claim)
  pub gaps : List Gap
  pub reusable_passage_ids : List String

unfoldable pub same_units : Option String → Option String → Bool
same_units none none = true
same_units (some x) (some y) = x == y
same_units _ _ = false

-- `p.field === n.field && p.value === n.value && p.units === n.units`
unfoldable pub same_constraint : Constraint → Constraint → Bool
unfolding same_units
same_constraint n p = p.field == n.field && p.value == n.value && same_units p.units n.units

-- The changed fields, and the ids of the constraints that changed.
pub record Changed : Type 0 where
  pub fields : List String
  pub ids : List String

abbrev pub push_change : Constraint → Changed → Changed
push_change c acc = record { fields = acc.fields ++ c.field ∷ []; ids = acc.ids ++ c.id ∷ [] }

-- The first loop: constraints that are new.
unfoldable pub changed_next : List Constraint → List Constraint → Changed → Changed
unfolding same_constraint
changed_next previous [] acc = acc
changed_next previous (n ∷ rest) acc =
    changed_next previous rest
      (if some_of (same_constraint n) previous then acc else push_change n acc)

-- The second loop: constraints that are gone, of fields that are not yet listed.
unfoldable pub changed_previous : List Constraint → List Constraint → Changed → Changed
unfolding same_constraint
changed_previous next [] acc = acc
changed_previous next (p ∷ rest) acc =
    changed_previous next rest (
      if some_of (same_constraint p) next || has p.field acc.fields then acc else push_change p acc)

unfoldable pub changes_of : ImpactArgs → Changed
unfolding changed_next changed_previous
changes_of args = changed_previous args.next_constraints args.previous_constraints (
    changed_next args.previous_constraints args.next_constraints (record { fields = []; ids = [] }))

abbrev pub same_status : QuestionStatus → QuestionStatus → Bool
same_status open_question open_question = true
same_status answered answered = true
same_status question_blocked question_blocked = true
same_status unresolvable unresolvable = true
same_status _ _ = false

unfoldable pub is_question_changed : List Question → Question → Bool
is_question_changed previous q =
    some_of (λ p. p.id == q.id && (not (p.text == q.text) || not (same_status p.status q.status)))
      previous

unfoldable pub is_gap_affected : List String → Gap → Bool
is_gap_affected changed g =
    some_of
      (λ field.
        includes (lower (template (g.missing_fact ∷ or_else g.dependent_conclusion "" ∷ []))) field)
      changed

unfoldable pub depends_on_inputs : Regex
depends_on_inputs =
    words ("eligib" ∷ "feasib" ∷ "budget" ∷ "price" ∷ "dose" ∷ "linux" ∷ "geography" ∷ [])

unfoldable pub is_claim_invalidated : List String → Claim → Bool
is_claim_invalidated changed c =
    some_of (λ field. includes (lower c.text) field || test true depends_on_inputs c.text) changed

abbrev invalidated_ids : ImpactArgs → List String → List String
invalidated_ids args changed = elim args.claims [
  | none ↦
      if args.reopened_discovery then "feasibility" ∷ "conclusions" ∷ [] else "affected-claims" ∷ []
  | some claims ↦ map (λ c. c.id) (select (is_claim_invalidated changed) claims)
]

unfoldable pub impact_for_correction : ImpactArgs → ImpactSet
impact_for_correction args =
    let changed = changes_of args in
    record {
      changed_inputs = changed.fields;
      invalidated_objects =
          if args.reopened_discovery
          then "feasibility" ∷ "conclusions" ∷ []
          else "affected-claims" ∷ [];
      reopened_discovery_scopes =
          if args.reopened_discovery then "candidate-discovery" ∷ [] else [];
      preserved_objects = "inspected-passages-if-freshness-holds" ∷ [];
      reason =
          if args.reopened_discovery
          then "Hard constraint relaxed; previously excluded candidates may now be eligible"
          else "Targeted correction; recompute dependents";
      dependency_completeness = args.dependency_completeness;
      affected_constraint_ids = changed.ids;
      affected_question_ids =
          map (λ q. q.id)
            (select (is_question_changed args.previous_questions) args.next_questions);
      affected_gap_ids = map (λ g. g.id) (select (is_gap_affected changed.fields) args.gaps);
      invalidated_claim_ids = invalidated_ids args changed.fields;
      reused_evidence_ids = args.reusable_passage_ids;
    }

unfoldable pub should_full_rerun : ImpactSet → Bool
should_full_rerun impact = elim impact.dependency_completeness [ unknown ↦ true | _ ↦ false ]
