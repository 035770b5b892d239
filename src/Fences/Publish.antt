-- ===== src/Fences/Publish.antt =====
-- When a report may be published.
use deep_research_app.Base.{ℕ, ◌+◌, ◌<◌, ◌≡◌, ◌≢◌, ◌↔◌, false, [], arith}
use deep_research_app.Types.{Basis}
use deep_research_app.Fences.{PublishArgs, ok, can_publish}

-- Publication passes exactly when nothing is deleted, the five revisions are those that were
-- loaded, every citation is known and none is unsupported.
pub can_publish-ok_iff :
    (args : PublishArgs)
    → (can_publish args ≡ ok) ↔ (
        (args.is_deleted ≡ false)
        × (args.current ≡ args.loaded)
        × (args.unknown_citation_ids ≡ [])
        × (args.unsupported_citation_count ≡ 0))
unfolding can_publish
can_publish-ok_iff args = (λ h. ground arith, λ h. ground arith)

-- What happens to a run's basis while a worker writes: a correction, new evidence, a consent
-- change, a cancellation or another worker's lease raises a counter.
pub data Change : Basis → Basis → Type 0 where
  corrected : (b : Basis) → Change b (record b { brief_revision = b.brief_revision + 1 })
  gathered : (b : Basis) → Change b (record b { evidence_revision = b.evidence_revision + 1 })
  revoked : (b : Basis) → Change b (record b { consent_epoch = b.consent_epoch + 1 })
  stopped : (b : Basis) → Change b (record b { cancellation_epoch = b.cancellation_epoch + 1 })
  leased : (b : Basis) → Change b (record b { worker_lease_fence = b.worker_lease_fence + 1 })

pub data Changes (b : Basis) : Basis → Type 0 where
  once : {c : Basis} → Change b c → Changes b c
  more : {c d : Basis} → Changes b c → Change c d → Changes b d

total_of : Basis → ℕ
total_of b =
    b.brief_revision + b.evidence_revision + b.consent_epoch + b.cancellation_epoch
    + b.worker_lease_fence

Change-total : {b c : Basis} → Change b c → total_of c ≡ total_of b + 1
unfolding total_of
Change-total (corrected b) = omega arith
Change-total (gathered b) = omega arith
Change-total (revoked b) = omega arith
Change-total (stopped b) = omega arith
Change-total (leased b) = omega arith

Changes-lt : {b c : Basis} → Changes b c → total_of b < total_of c
Changes-lt (once s) = omega (arith, Change-total s)
Changes-lt (more r s) = omega (arith, Changes-lt r, Change-total s)

-- A worker whose basis has changed at all since it was loaded, in any order and however often,
-- never publishes.
pub can_publish-fenced :
    (args : PublishArgs) → Changes args.loaded args.current → can_publish args ≢ ok
unfolding total_of
can_publish-fenced args r e =
    let same : args.current ≡ args.loaded = ((can_publish-ok_iff args).0 e).1 in
    absurd (omega (arith, Changes-lt r, mono same))
  where
    mono : args.current ≡ args.loaded → total_of args.current ≡ total_of args.loaded
    mono p = λ i. total_of (p i)
