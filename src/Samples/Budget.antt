-- ===== src/Samples/Budget.antt =====
-- The fences and the stop decision on the sample run.
use deep_research_app.Regex.{begin}
use deep_research_app.Fences.Publish.{
  can_publish-fenced, more, can_publish-ok_iff, once, revoked, leased,
}
use deep_research_app.Fences.Spend.{Explores, finishing_at, pay, begin, can_spend-finishing}
use deep_research_app.Samples.{first_basis}
use deep_research_app.Fences.{PublishArgs, can_publish, can_spend_exploration, writing_reserve, ok}
use deep_research_app.Base.{refl, ◌≡◌, ◌≢◌, false, ◌↔◌, true, [], ◌+◌, ◌*◌, ◌≤◌, arith}

abbrev publishing : PublishArgs
publishing = record {
  loaded = first_basis;
  current = first_basis;
  is_deleted = false;
  unknown_citation_ids = [];
  unsupported_citation_count = 0;
}

-- The consent was revoked and a second worker leased the run, since the basis was loaded.
abbrev overtaken : PublishArgs
overtaken = record publishing {
  current = record first_basis { consent_epoch = 3; worker_lease_fence = 8 };
}

can_publish-ok_iff_example : (can_publish publishing ≡ ok) ↔ (
    (false ≡ false)
    × (first_basis ≡ first_basis)
    × (publishing.unknown_citation_ids ≡ [])
    × (publishing.unsupported_citation_count ≡ 0))
can_publish-ok_iff_example = can_publish-ok_iff publishing

can_publish-fenced_example : can_publish overtaken ≢ ok
can_publish-fenced_example =
    can_publish-fenced overtaken
      (more (once (revoked first_basis)) (leased (record first_basis { consent_epoch = 3 })))

two_searches : Explores 200000 8000 0 10000
unfolding can_spend_exploration writing_reserve
two_searches = pay 5000 (pay 5000 begin refl) refl

can_spend-finishing_example :
    (can_spend_exploration (finishing_at 200000 8000 10000) ≡ true)
    × (5 * 10000 + 200000 ≤ 5 * 200000)
unfolding writing_reserve
can_spend-finishing_example = can_spend-finishing 200000 8000 0 10000 (omega arith) two_searches
