-- ===== src/Independence.antt =====
-- packages/research-core/src/independence.ts and provenance.ts: how independent a source is, and who
-- stands behind a constraint. A `Map` is an association list in the order of insertion.
use deep_research_app.Text.{template}
use deep_research_app.Policy.{has, cluster_of}
use deep_research_app.Regex.{Regex, words, test}
use deep_research_app.Base.{
  [], ◌∷◌, none, some, List, Bool, String, or_else, if◌then◌else◌, true, Option, false, ◌&&◌, ◌||◌,
  ◌==◌, find, ltb, ◌++◌, length, not,
}
use deep_research_app.Types.{
  explicit, confirmed, document, system, user_provided, document_derived, system_generated,
  model_inferred, Source, Origin, Constraint, Provenance, is_unfetched, is_hard,
}

pub data IndependenceClass : Type 0 where
  first_party secondary independent community derived : IndependenceClass

abbrev pub first_party_types : List String
first_party_types =
    "vendor-docs" ∷ "vendor-matrix" ∷ "primary-docs" ∷ "catalog" ∷ "regulator" ∷ "official" ∷ []

abbrev pub secondary_types : List String
secondary_types = "review-summary" ∷ "blog" ∷ "wire" ∷ "news" ∷ "aggregator" ∷ "marketing" ∷ []

abbrev pub community_types : List String
community_types = "community" ∷ "forum" ∷ "complaint" ∷ []

abbrev pub type_of : Source → String
type_of s = or_else s.source_type ""

unfoldable pub community_words : Regex
community_words = words ("forum" ∷ "reddit" ∷ "community" ∷ [])

unfoldable pub copy_words : Regex
copy_words = words ("reprint" ∷ "syndicat" ∷ "quotes the" ∷ "pasted the" ∷ [])

unfoldable pub classify_source_independence : Source → IndependenceClass
classify_source_independence source =
    if has (type_of source) first_party_types
    then first_party
    else if has (type_of source) community_types
        || test true community_words (template (source.title ∷ " " ∷ source.locator ∷ []))
    then community
    else if has (type_of source) secondary_types
    then secondary
    else if test true copy_words (or_else source.snippet_text source.title)
    then derived
    else independent

unfoldable pub is_primary_type : Source → Bool
is_primary_type s = has (type_of s) first_party_types

unfoldable pub weak_words : Regex
weak_words =
    words ("blog" ∷ "roundup" ∷ "review" ∷ "listicle" ∷ "aggregator" ∷ "wire" ∷ "hype" ∷ [])

abbrev pub is_weak_class : IndependenceClass → Bool
is_weak_class derived = true
is_weak_class secondary = true
is_weak_class community = true
is_weak_class _ = false

unfoldable pub is_weak_source_class : Source → Bool
is_weak_source_class source =
    if is_weak_class (classify_source_independence source)
    then true
    else if is_unfetched source.access_level
    then test true weak_words
        (template (source.title ∷ " " ∷ source.locator ∷ " " ∷ type_of source ∷ []))
    else false

-- `byCluster.set(key, [...group, s])`
unfoldable pub put_in_cluster :
    String → Source → List (String × List Source) → List (String × List Source)
put_in_cluster key s [] = (key, s ∷ []) ∷ []
put_in_cluster key s ((k, group) ∷ rest) =
    if k == key then (k, group ++ s ∷ []) ∷ rest else (k, group) ∷ put_in_cluster key s rest

unfoldable pub group_by_cluster :
    List (String × List Source) → List Source → List (String × List Source)
unfolding put_in_cluster
group_by_cluster groups [] = groups
group_by_cluster groups (s ∷ sources) =
    group_by_cluster (put_in_cluster (cluster_of s) s groups) sources

abbrev pub is_first_party : IndependenceClass → Bool
is_first_party first_party = true
is_first_party _ = false

unfoldable pub first_party_of : List Source → Option Source
first_party_of group = find (λ s. is_first_party (classify_source_independence s)) group

-- The class of a source in its group. `is_first` says that it is the group's first object, which
-- the source compares by identity.
unfoldable pub class_in_group : List Source → Bool → Source → IndependenceClass
class_in_group group is_first s =
    let cls = classify_source_independence s in
    elim (first_party_of group) [
      | some f ↦
          if ltb 1 (length group) && not (s.id == f.id) && not (is_first_party cls)
          then derived
          else cls
      | none ↦ if ltb 1 (length group) && not is_first then derived else cls
    ]

-- `out.set(id, cls)`
unfoldable pub set_class :
    String
    → IndependenceClass
    → List (String × IndependenceClass)
    → List (String × IndependenceClass)
set_class id cls [] = (id, cls) ∷ []
set_class id cls ((k, old) ∷ rest) =
    if k == id then (k, cls) ∷ rest else (k, old) ∷ set_class id cls rest

unfoldable pub mark_group :
    List Source
    → Bool
    → List Source
    → List (String × IndependenceClass)
    → List (String × IndependenceClass)
unfolding set_class class_in_group
mark_group group is_first [] out = out
mark_group group is_first (s ∷ rest) out =
    mark_group group false rest (set_class s.id (class_in_group group is_first s) out)

unfoldable pub mark_groups :
    List (String × List Source)
    → List (String × IndependenceClass)
    → List (String × IndependenceClass)
unfolding mark_group
mark_groups [] out = out
mark_groups ((key, group) ∷ groups) out = mark_groups groups (mark_group group true group out)

unfoldable pub mark_derived_copies : List Source → List (String × IndependenceClass)
unfolding mark_groups group_by_cluster
mark_derived_copies sources = mark_groups (group_by_cluster [] sources) []

unfoldable pub provenance_from_origin : Origin → Provenance
provenance_from_origin explicit = user_provided
provenance_from_origin confirmed = user_provided
provenance_from_origin document = document_derived
provenance_from_origin system = system_generated
provenance_from_origin _ = model_inferred

unfoldable pub constraint_provenance : Constraint → Provenance
constraint_provenance c = or_else c.provenance (provenance_from_origin c.origin)

abbrev pub is_user_provided : Provenance → Bool
is_user_provided user_provided = true
is_user_provided _ = false

unfoldable pub is_user_requirement : Constraint → Bool
is_user_requirement c = is_user_provided (constraint_provenance c) && is_hard c.importance
