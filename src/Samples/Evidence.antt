-- ===== src/Samples/Evidence.antt =====
-- Sources, searches, gaps and contradictions of the sample run.
use deep_research_app.Admission.Guards.{is_given}
use deep_research_app.Impact.Unchanged.{AreKept, changed_inputs-empty_iff}
use deep_research_app.Impact.{ImpactArgs, impact_for_correction, known}
use deep_research_app.Loop.Documents.{names_of, apply_fetched_document-find}
use deep_research_app.Regex.{match_all, test, group_of}
use deep_research_app.Contradictions.Scope.{extract_prices, compat_stance, extract_percents}
use deep_research_app.Policy.Counting.{saturation_reached-snoc, count-snoc}
use deep_research_app.Samples.{run, source, Source, lisbon}
use deep_research_app.Loop.{
  Hit, apply_search_hits, has_locator, Fetched, apply_fetched_document, is_fetched_source,
}
use deep_research_app.Gaps.{detect_gaps}
use deep_research_app.Gaps.Refresh.{AreNamed, disputed, detect_gaps_idempotent}
use deep_research_app.Types.{ControllerState, SearchTrace, Source, full_text}
use deep_research_app.Loop.Sources.{
  AreDistinctSources, apply_search_hits_saturates, apply_search_hits-sources,
}
use deep_research_app.Contradictions.{
  detect_contradictions, found_in, with_each, pair_contradictions, price_contradiction, put_all,
  compatibility_contradiction, percent_contradiction, put,
}
use deep_research_app.Contradictions.Merge.{
  AreDistinct, detect_contradictions-AreDistinct, detect_contradictions_idempotent,
}
use deep_research_app.Text.{template, is_space}
use deep_research_app.Policy.{cluster_of, saturation_reached, independent_cluster_count}
use deep_research_app.Base.{
  refl, ◌≡◌, String, List, ℕ, Option, ◌∷◌, Bool, none, some, ◌++◌, [], All, true, false, ◌↔◌, find,
  if◌then◌else◌, some_of, ◌==◌, suc,
}

abbrev trace : String → List String → ℕ → Bool → SearchTrace
trace query families fresh progress = record {
  query = query;
  source_family_ids = families;
  new_families = fresh;
  coverage_progress = progress;
}

abbrev hit : String → Option String → Hit
hit locator cluster = record {
  locator = locator;
  title = "A hit";
  origin_cluster = cluster;
  source_type = none;
  population = none;
  snippet_text = none;
}

abbrev hits : List Hit
hits = hit "https://a.example/x" (some "a") ∷ hit "https://c.example/z" (some "a") ∷ []

count-snoc_example :
    independent_cluster_count (run.sources ++ source "https://c.example/z" (some "a") ∷ []) ≡ (
      if some_of (λ s. cluster_of s == "a") run.sources
      then independent_cluster_count run.sources
      else suc (independent_cluster_count run.sources))
unfolding cluster_of
count-snoc_example = count-snoc run.sources (source "https://c.example/z" (some "a"))

saturation_reached-snoc_example :
    (saturation_reached (
        trace "one" ("a" ∷ []) 1 true
        ∷ trace "two" ("a" ∷ []) 0 false
        ∷ trace "three" ("a" ∷ []) 0 false
        ∷ [])
      ≡ true)
    ↔ (◌≡◌ {A = ℕ} 0 0 × (false ≡ false) × ◌≡◌ {A = ℕ} 0 0 × (false ≡ false))
saturation_reached-snoc_example =
    saturation_reached-snoc (trace "one" ("a" ∷ []) 1 true ∷ []) (trace "two" ("a" ∷ []) 0 false)
      (trace "three" ("a" ∷ []) 0 false)

detect_contradictions-AreDistinct_example : AreDistinct (detect_contradictions run)
detect_contradictions-AreDistinct_example = detect_contradictions-AreDistinct run

detect_contradictions_idempotent_example :
    detect_contradictions (record run { contradictions = some (detect_contradictions run) })
    ≡ detect_contradictions run
detect_contradictions_idempotent_example = detect_contradictions_idempotent run

apply_search_hits-sources_example :
    AreDistinctSources (apply_search_hits run "Foo" hits).sources
    × All (λ h. has_locator h.locator (apply_search_hits run "Foo" hits).sources ≡ true) hits
    × ((more : List Source) × ((apply_search_hits run "Foo" hits).sources ≡ run.sources ++ more))
apply_search_hits-sources_example = apply_search_hits-sources run "Foo" hits (refl, (refl, tt))

apply_search_hits_saturates_example :
    saturation_reached
      (apply_search_hits
        (apply_search_hits (apply_search_hits run "Foo" hits) "Foo" hits)
        "Foo"
        hits).searches
    ≡ true
apply_search_hits_saturates_example = apply_search_hits_saturates run "Foo" "Foo" "Foo" hits

-- The run once its contradiction is recorded.
abbrev compared : ControllerState
compared = record run { contradictions = some (detect_contradictions run) }

compared-AreNamed : AreNamed (disputed compared)
unfolding detect_contradictions found_in with_each pair_contradictions price_contradiction
    extract_prices put_all template match_all is_space compat_stance test extract_percents
    compatibility_contradiction percent_contradiction put group_of
compared-AreNamed = (refl, tt)

detect_gaps_idempotent_example :
    detect_gaps (record compared { gaps = detect_gaps compared }) ≡ detect_gaps compared
detect_gaps_idempotent_example = detect_gaps_idempotent compared compared-AreNamed

abbrev page : Fetched
page = record {
  locator = "https://b.example/y";
  text = "The plan costs 25 EUR.";
  access_level = full_text;
  source_type = some "vendor-docs";
}

apply_fetched_document-find_example :
    (names_of (apply_fetched_document run page).0.sources ≡ names_of run.sources)
    × ((t : Source) × (find (is_fetched_source page) (apply_fetched_document run page).0.sources
          ≡ some t)
        × (t.access_level ≡ page.access_level)
        × (is_given page.source_type ≡ true → t.source_type ≡ page.source_type)
        × (is_given page.source_type ≡ false → t.source_type ≡ some "review-summary")
        × (t ≡ record (source "https://b.example/y" none) {
          access_level = t.access_level;
          source_type = t.source_type;
        }))
    × ((apply_fetched_document run page).0.passages
        ≡ run.passages ++ (apply_fetched_document run page).1 ∷ [])
    × ((apply_fetched_document run page).1.source_id ≡ "https://b.example/y")
    × ((apply_fetched_document run page).1.exact_text ≡ "The plan costs 25 EUR.")
apply_fetched_document-find_example =
    apply_fetched_document-find run page (source "https://b.example/y" none) refl

-- A correction that moves the run to another place.
abbrev moved : ImpactArgs
moved = record {
  previous_constraints = lisbon ∷ [];
  next_constraints = record lisbon { value = "Porto" } ∷ [];
  reopened_discovery = false;
  dependency_completeness = known;
  previous_questions = [];
  next_questions = [];
  claims = none;
  gaps = [];
  reusable_passage_ids = [];
}

changed_inputs-empty_iff_example : ((impact_for_correction moved).changed_inputs ≡ []) ↔ (
    AreKept moved.next_constraints moved.previous_constraints
    × AreKept moved.previous_constraints moved.next_constraints)
changed_inputs-empty_iff_example = changed_inputs-empty_iff moved
