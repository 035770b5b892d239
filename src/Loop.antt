-- ===== src/Loop.antt =====
-- packages/research-core/src/loop.ts: how search hits and fetched documents enter the state. A method
-- that changes the state returns the new one.
pub mod Sources
pub mod Documents
use deep_research_app.Policy.{new_family_count}
use deep_research_app.Gaps.{detect_gaps}
use deep_research_app.Text.{decimal, template}
use deep_research_app.Admission.Guards.{is_given}
use deep_research_app.Contradictions.{detect_contradictions}
use deep_research_app.Questions.{derive_research_questions}
use deep_research_app.Base.{
  [], ◌∷◌, none, some, String, List, Option, or_else, if◌then◌else◌, Bool, ◌++◌, map, some_of, ◌==◌,
  ◌||◌, length, ltb, ◌+◌, find,
}
use deep_research_app.Types.{
  snippet, discovered, full_text, access_blocked, partial_text, ControllerState, Source,
  AccessLevel, SearchTrace, Passage,
}

pub record Hit : Type 0 where
  pub locator : String
  pub title : String
  pub origin_cluster : Option String
  pub source_type : Option String
  pub population : Option String
  pub snippet_text : Option String

pub record Fetched : Type 0 where
  pub locator : String
  pub text : String
  pub access_level : AccessLevel
  pub source_type : Option String

unfoldable pub refresh_derived : ControllerState → ControllerState
refresh_derived state =
    let asked = record state { questions = some (derive_research_questions state) } in
    let compared = record asked { contradictions = some (detect_contradictions asked) } in
    record compared { gaps = detect_gaps compared }

abbrev pub family_of : Hit → String
family_of h = or_else h.origin_cluster h.locator

-- The ids of the families that the earlier searches found.
unfoldable pub families_seen : List SearchTrace → List String
families_seen [] = []
families_seen (s ∷ rest) = s.source_family_ids ++ families_seen rest

unfoldable pub trace_of : ControllerState → String → List Hit → SearchTrace
unfolding families_seen
trace_of state query hits =
    let families = map family_of hits in
    let fresh = new_family_count (families_seen state.searches) families in
    record {
      query = query;
      source_family_ids = families;
      new_families = fresh;
      coverage_progress = ltb 0 fresh;
    }

unfoldable pub source_from : Hit → Source
source_from h = record {
  id = h.locator;
  title = h.title;
  locator = h.locator;
  access_level = if is_given h.snippet_text then snippet else discovered;
  origin_cluster = h.origin_cluster;
  source_type = h.source_type;
  population = h.population;
  snippet_text = h.snippet_text;
}

abbrev pub has_locator : String → List Source → Bool
has_locator locator sources = some_of (λ s. s.locator == locator) sources

-- The loop over the hits: a known locator is skipped.
unfoldable pub add_hits : List Source → List Hit → List Source
unfolding source_from
add_hits sources [] = sources
add_hits sources (h ∷ hits) =
    add_hits (if has_locator h.locator sources then sources else sources ++ source_from h ∷ []) hits

unfoldable pub apply_search_hits : ControllerState → String → List Hit → ControllerState
apply_search_hits state query hits = refresh_derived (record state {
  searches = state.searches ++ trace_of state query hits ∷ [];
  sources = add_hits state.sources hits;
})

abbrev pub is_fetched_source : Fetched → Source → Bool
is_fetched_source doc s = s.locator == doc.locator || s.id == doc.locator

unfoldable pub opened_as : Fetched → Source → Source
opened_as doc s = record s {
  access_level = doc.access_level;
  source_type = if is_given doc.source_type then doc.source_type else s.source_type;
}

-- The first source of the document is updated in place.
unfoldable pub open_first : Fetched → List Source → List Source
unfolding opened_as
open_first doc [] = []
open_first doc (s ∷ rest) =
    if is_fetched_source doc s then opened_as doc s ∷ rest else s ∷ open_first doc rest

unfoldable pub passage_of : ControllerState → Fetched → Passage
passage_of state doc =
    let n = decimal (length state.passages + 1) in
    record {
      id = template ("p-" ∷ n ∷ []);
      source_id = elim (find (is_fetched_source doc) state.sources) [
        | none ↦ doc.locator
        | some s ↦ s.id
      ];
      source_version_id = template ("v-" ∷ n ∷ []);
      exact_text = doc.text;
      locator = "document";
    }

unfoldable pub apply_fetched_document : ControllerState → Fetched → ControllerState × Passage
apply_fetched_document state doc =
    let passage = passage_of state doc in
    (
      refresh_derived (record state {
        sources = open_first doc state.sources;
        passages = state.passages ++ passage ∷ [];
      }),
      passage,
    )

unfoldable pub record_completed_action : ControllerState → String → ControllerState
record_completed_action state type = record state {
  completed_action_types = state.completed_action_types ++ type ∷ [];
}
