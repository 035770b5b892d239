-- ===== src/Controller/Baseline.antt =====
-- What the baseline controller may choose.
use deep_research_app.Types.Values.{str}
use deep_research_app.Controller.{
  http_or_catalog, fetched_count, inspect_or_write, select_baseline_action, Decision, is_unfetched,
  unfetched_of, is_http_or_catalog, baseline_fetch, baseline_search, baseline_synthesis,
  baseline_proposal, str,
}
use deep_research_app.Types.{
  Source, AccessLevel, ControllerState, discovered, SearchTrace, Decision, is_unfetched, snippet,
}
use deep_research_app.Base.{
  refl, ◌≡◌, List, ◌≢◌, Bool, ℕ, String, select, ◌+◌, starts_with, ◌⊎◌, false, length, ◌<◌, arith,
  not, true, ◌∷◌, nat_eq, ◌&&◌, ◌++◌, [], eq_iff, head?, Option, All, ◌||◌, some, Bool-cases,
  head?-select, ltb, inl, inr, sym, none,
}

-- A source that the controller reads, by its locator.
abbrev pub is_web : Source → Bool
is_web s = starts_with s.locator "http" || starts_with s.locator "fixture://"

-- A source known by its title or its snippet alone.
abbrev pub IsUnread : Source → Type 0
IsUnread s = (s.access_level ≡ discovered) ⊎ (s.access_level ≡ snippet)

-- A source that was fetched, or whose fetch was tried.
abbrev pub is_read : AccessLevel → Bool
is_read discovered = false
is_read snippet = false
is_read _ = true

-- How many of the sources that the controller reads have been read.
abbrev pub read_count : List Source → ℕ
read_count sources = length (select (λ s. is_web s && is_read s.access_level) sources)

-- A fetch of the first unread source that the controller reads, while fewer than three are read.
abbrev pub FetchesFirst : List Source → Decision → Type 0
FetchesFirst sources d =
    (read_count sources < 3)
    × ((before : List Source) × (s : Source) × (after : List Source) × (sources
          ≡ before ++ s ∷ after)
        × (is_web s ≡ true)
        × IsUnread s
        × All (λ x. is_web x && not (is_read x.access_level) ≡ false) before
        × (d.arguments ≡ ("locator", str s.locator) ∷ ("sourceId", str s.id) ∷ []))

searched_none : (traces : List SearchTrace) → length traces ≡ 0 → traces ≡ []
searched_none [] h = refl
searched_none (t ∷ traces) h = ground arith

-- Two types of actions that differ.
synthesize_fetches : ◌≢◌ {A = String} "synthesize" "fetch"
synthesize_fetches e = ground (arith, eq_iff "synthesize" "fetch")

synthesize_searches : ◌≢◌ {A = String} "synthesize" "search"
synthesize_searches e = ground (arith, eq_iff "synthesize" "search")

fetch_searches : ◌≢◌ {A = String} "fetch" "search"
fetch_searches e = ground (arith, eq_iff "fetch" "search")

is_read-eq : (l : AccessLevel) → is_unfetched l ≡ not (is_read l)
is_read-eq l = ground arith

IsUnread-of : (s : Source) → is_unfetched s.access_level ≡ true → IsUnread s
IsUnread-of s h = ground (arith, h)

unread_of : List Source → List Source
unread_of sources = select (λ s. is_web s && not (is_read s.access_level)) sources

unread-select : (sources : List Source) → unfetched_of (select is_web sources) ≡ unread_of sources
unfolding unread_of
unread-select [] = refl
unread-select (s ∷ rest) = ground (arith, unread-select rest, is_read-eq s.access_level)

unfetched_of-eq :
    (state : ControllerState) → unfetched_of (http_or_catalog state) ≡ unread_of state.sources
unfolding http_or_catalog is_http_or_catalog
unfetched_of-eq state = unread-select state.sources

read_count-eq :
    (sources : List Source)
    → read_count sources + length (unread_of sources) ≡ length (select is_web sources)
unfolding unread_of
read_count-eq [] = refl
read_count-eq (s ∷ rest) = ground (arith, read_count-eq rest)

fetched_count-eq : (state : ControllerState) → fetched_count state ≡ read_count state.sources
unfolding fetched_count http_or_catalog is_http_or_catalog
fetched_count-eq state =
    rw (unread-select state.sources) (omega (arith, read_count-eq state.sources))

FetchesFirst-of :
    (state : ControllerState) (s : Source) (d : Decision)
    → fetched_count state < 3
    → head? (unfetched_of (http_or_catalog state)) ≡ some s
    → d.arguments ≡ ("locator", str s.locator) ∷ ("sourceId", str s.id) ∷ []
    → FetchesFirst state.sources d
unfolding unread_of
FetchesFirst-of state s d few e args =
    let (before, after, split, skipped, holds) =
      head?-select (λ s. is_web s && not (is_read s.access_level)) state.sources s
        (rw (unfetched_of-eq state) at e) in
    (
      omega (arith, few, fetched_count-eq state),
      (
        before,
        s,
        after,
        split,
        ground (arith, holds),
        IsUnread-of s (ground (arith, holds, is_read-eq s.access_level)),
        skipped,
        args,
      ),
    )

inspect_or_write-bounded :
    (state : ControllerState) (o : Option Source)
    → ((inspect_or_write state o).type ≢ "search")
      × ((inspect_or_write state o).type ≡ "fetch"
          → (fetched_count state < 3)
            × ((s : Source) × (o ≡ some s)
                × ((inspect_or_write state o).arguments
                    ≡ ("locator", str s.locator) ∷ ("sourceId", str s.id) ∷ [])))
unfolding inspect_or_write baseline_fetch baseline_synthesis baseline_proposal
inspect_or_write-bounded state none = (synthesize_searches, λ e. absurd (synthesize_fetches e))
inspect_or_write-bounded state (some s) = elim (Bool-cases (ltb (fetched_count state) 3)) [
  | inl below ↦ rw below (fetch_searches, λ e. (ground arith, (s, refl, refl)))
  | inr above ↦ rw above (synthesize_searches, λ e. absurd (synthesize_fetches e))
]

no_web-sources :
    (state : ControllerState)
    → nat_eq (length (http_or_catalog state)) 0 ≡ true
    → All (λ s. is_web s ≡ false) state.sources
unfolding http_or_catalog is_http_or_catalog
no_web-sources state h = none_of state.sources h
  where
    none_of :
        (sources : List Source)
        → nat_eq (length (select is_web sources)) 0 ≡ true
        → All (λ s. is_web s ≡ false) sources
    none_of [] h = tt
    none_of (s ∷ rest) h = elim (Bool-cases (is_web s)) [
      | inl web ↦ absurd (ground (arith, rw web at h))
      | inr other ↦ (other, none_of rest (rw other at h))
    ]

-- The baseline controller searches only for a run that has made no search and knows no source on
-- the web or in the catalogue. It fetches only while fewer than three such sources were fetched or tried,
-- and then the first of them, in their order, of which only the listing or a snippet is known.
pub select_baseline_action-bounded :
    (state : ControllerState)
    → ((select_baseline_action state).type ≡ "search"
        → (state.searches ≡ []) × All (λ s. is_web s ≡ false) state.sources)
      × ((select_baseline_action state).type ≡ "fetch"
          → FetchesFirst state.sources (select_baseline_action state))
unfolding select_baseline_action baseline_search baseline_proposal
select_baseline_action-bounded state =
    let inspected = inspect_or_write-bounded state (head? (unfetched_of (http_or_catalog state))) in
    elim (Bool-cases
      (nat_eq (length (http_or_catalog state)) 0 && nat_eq (length state.searches) 0)) [
        | inl fresh ↦ rw fresh (
          λ e. (searched_none state.searches (ground arith), no_web-sources state (ground arith)),
          λ e. absurd (fetch_searches (sym e)),
        )
        | inr known ↦ rw known (
          λ e. absurd (inspected.0 e),
          λ e.
              let (few, (s, first, args)) = inspected.1 e in
              FetchesFirst-of state s
                (inspect_or_write state (head? (unfetched_of (http_or_catalog state)))) few first
                args,
        )
      ]
