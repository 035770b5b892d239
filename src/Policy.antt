-- ===== src/Policy.antt =====
-- packages/research-core/src/policy.ts: when searching is saturated, the query with the confirmed
-- geography, and counts of source families.
pub mod Counting
use deep_research_app.Base.{
  ℕ, zero, suc, ◌+◌, String, Bool, true, false, not, ◌&&◌, Option, none, some, List, [], ◌∷◌, ◌==◌,
  ltb, nat_eq, if◌then◌else◌, length, every, find, some_of, take_last, or_else, map,
}
use deep_research_app.Text.{lower, includes, trim, template}
use deep_research_app.Types.{ControllerState, SearchTrace, Constraint, Source}

unfoldable pub saturation_reached : List SearchTrace → Bool
saturation_reached searches =
    if ltb (length searches) 2
    then false
    else every (λ s. nat_eq s.new_families 0 && not s.coverage_progress) (take_last 2 searches)

unfoldable pub value_of : Option Constraint → String
value_of none = ""
value_of (some c) = trim c.value

unfoldable pub query_with_geography : ControllerState → String → String
unfolding value_of
query_with_geography state query =
    let value = value_of (find (λ c. c.field == "geography") state.constraints) in
    if value == ""
    then query
    else if includes (lower query) (lower value)
    then query
    else template (query ∷ " " ∷ value ∷ [])

-- `s.originCluster ?? "independent:" + s.id`
unfoldable pub cluster_of : Source → String
cluster_of s = or_else s.origin_cluster (template ("independent:" ∷ s.id ∷ []))

-- `set.has(key)` and `set.add(key)`, on the list of a set's members.
abbrev pub has : String → List String → Bool
has key set = some_of (λ k. k == key) set

unfoldable pub add : String → List String → List String
add key set = if has key set then set else key ∷ set

clusters_from : List String → List Source → List String
unfolding add cluster_of
clusters_from set [] = set
clusters_from set (s ∷ sources) = clusters_from (add (cluster_of s) set) sources

unfoldable pub independent_cluster_count : List Source → ℕ
unfolding clusters_from
independent_cluster_count sources = length (clusters_from [] sources)

-- The ids that the earlier families do not hold.
unfoldable pub new_family_count : List String → List String → ℕ
new_family_count previous [] = 0
new_family_count previous (f ∷ ids) =
    let rest = new_family_count previous ids in if has f previous then rest else suc rest

pub record SearchDelta : Type 0 where
  pub new_families : ℕ
  pub families : List String

unfoldable pub search_delta : List String → List String → SearchDelta
unfolding new_family_count
search_delta previous ids = record { new_families = new_family_count previous ids; families = ids }
