-- ===== src/Fences.antt =====
-- packages/research-core/src/fences.ts: the check before a report is published, and the check
-- before an action is paid for. Amounts are natural numbers of micro-units, so a test on a
-- difference that may be negative in the source is written as a test on sums.
pub mod Publish
pub mod Spend
use deep_research_app.Base.{
  ℕ, ◌+◌, ◌/◌, Bool, true, false, not, List, String, ltb, leb, nat_eq, if◌then◌else◌, length,
  Option, or_else,
}
use deep_research_app.Types.{Basis}
use Prim.Native.Nat.{max}

pub data PublishReason : Type 0 where
  stale_brief stale_evidence consent_revoked cancelled stale_lease deleted : PublishReason
  unknown_citation unsupported_citation ok : PublishReason

pub record PublishArgs : Type 0 where
  pub loaded : Basis
  pub current : Basis
  pub is_deleted : Bool
  pub unknown_citation_ids : List String
  pub unsupported_citation_count : ℕ

unfoldable pub can_publish : PublishArgs → PublishReason
can_publish args =
    if args.is_deleted
    then deleted
    else if not (nat_eq args.current.cancellation_epoch args.loaded.cancellation_epoch)
    then cancelled
    else if not (nat_eq args.current.consent_epoch args.loaded.consent_epoch)
    then consent_revoked
    else if not (nat_eq args.current.worker_lease_fence args.loaded.worker_lease_fence)
    then stale_lease
    else if not (nat_eq args.current.brief_revision args.loaded.brief_revision)
    then stale_brief
    else if not (nat_eq args.current.evidence_revision args.loaded.evidence_revision)
    then stale_evidence
    else if ltb 0 (length args.unknown_citation_ids)
    then unknown_citation
    else if ltb 0 args.unsupported_citation_count
    then unsupported_citation
    else ok

-- `Math.ceil(total * 0.2)`. For amounts below 2 ^ 50 the rounding of the product never crosses an
-- integer, so this is the exact quotient by five, rounded up.
unfoldable pub writing_reserve : ℕ → ℕ
writing_reserve total = (total + 4) / 5

pub record SpendArgs : Type 0 where
  pub total : ℕ
  pub spent : ℕ
  pub cost : ℕ
  pub is_finishing : Bool
  pub finishing_cost : Option ℕ

-- What an exploring action has to leave over.
abbrev pub reserve_of : SpendArgs → ℕ
reserve_of args = max (writing_reserve args.total) (or_else args.finishing_cost 0)

unfoldable pub can_spend_exploration : SpendArgs → Bool
can_spend_exploration args =
    if ltb args.total (args.spent + args.cost)
    then false
    else if not args.is_finishing
    then leb (args.spent + args.cost + reserve_of args) args.total
    else true
