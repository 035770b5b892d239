-- ===== src/Admission/Proposal.antt =====
-- The schema of a proposal (ActionProposalSchema of packages/contracts/src/index.ts).
use deep_research_app.Types.{Decision}
use deep_research_app.Admission.Guards.{Schemas, is_safe_integer}
use deep_research_app.Text.{chars}
use deep_research_app.Base.{
  ◌≡◌, ℕ, Option, String, Bool, if◌then◌else◌, some, true, leb, ◌&&◌, none, Bool-cases, length,
  every, inl, Option-cases, not, arith, inr, is_some,
}

abbrev is_within : ℕ → ℕ → String → Bool
is_within low high s = leb low (length (chars s)) && leb (length (chars s)) high

abbrev is_given_name : Option String → Bool
is_given_name none = true
is_given_name (some s) = is_within 1 200 s

-- The schema is strict, so a proposal that has a reason of refusal does not pass.
unfoldable pub is_proposal : Schemas → Decision → Bool
unfolding chars is_safe_integer
is_proposal z p =
    is_within 1 200 p.action_id
    && z.is_uuid p.run_id
    && leb 1 p.brief_revision
    && is_safe_integer p.brief_revision
    && is_within 1 100 p.type
    && every (is_within 1 200) p.coverage_ids
    && leb (length p.coverage_ids) 50
    && is_given_name p.gap_id
    && is_within 0 4000 p.rationale
    && is_safe_integer p.estimated_max_cost_micro
    && every (is_within 0 200) p.source_access_constraints
    && leb (length p.source_access_constraints) 20
    && is_within 1 4000 p.dedupe_key
    && not (is_some p.reject_reason)

-- `ActionProposalSchema.safeParse(proposal)`
unfoldable pub parse_proposal : Schemas → Decision → Option Decision
unfolding is_proposal
parse_proposal z p = if is_proposal z p then some p else none

-- A parsed proposal is the proposal.
pub proposal_kept : (z : Schemas) (p d : Decision) → parse_proposal z p ≡ some d → d ≡ p
unfolding parse_proposal
proposal_kept z p d e = elim (Bool-cases (is_proposal z p)) [
  | inl fits ↦ ground (arith, rw fits at e)
  | inr fails ↦ absurd (ground (arith, rw fails at e))
]

not_refused : (z : Schemas) (p : Decision) → is_proposal z p ≡ true → p.reject_reason ≡ none
unfolding is_proposal
not_refused z p fits = elim (Option-cases p.reject_reason) [
  | inl clean ↦ clean
  | inr (why, e) ↦ absurd (ground (arith, rw e at fits))
]

-- A parsed proposal has no reason of refusal.
pub proposal_clean :
    (z : Schemas) (p d : Decision) → parse_proposal z p ≡ some d → p.reject_reason ≡ none
unfolding parse_proposal
proposal_clean z p d e = elim (Bool-cases (is_proposal z p)) [
  | inl fits ↦ not_refused z p fits
  | inr fails ↦ absurd (ground (arith, rw fails at e))
]
