-- ===== src/Policy/Counting.antt =====
-- What the counts of clusters say, when searching is saturated, and the query that is sent.
use deep_research_app.Base.{
  suc, String, ◌≡◌, ◌↔◌, refl, true, false, ◌||◌, List, [], ◌∷◌, ◌++◌, ◌==◌, arith, length-append,
  some_of, eq_refl, String-cases, take_last-append, if◌then◌else◌, inl, inr,
}
use deep_research_app.Types.{Source, SearchTrace}
use deep_research_app.Policy.{
  saturation_reached, cluster_of, has, add, clusters_from, independent_cluster_count,
}

clusters_from-append :
    (set : List String) (xs ys : List Source)
    → clusters_from set (xs ++ ys) ≡ clusters_from (clusters_from set xs) ys
unfolding clusters_from
clusters_from-append set [] ys = refl
clusters_from-append set (x ∷ xs) ys = clusters_from-append (add (cluster_of x) set) xs ys

has-add_self : (k : String) (set : List String) → has k (add k set) ≡ ((k == k) || has k set)
unfolding add
has-add_self k set = ground (arith, eq_refl k)

has-add : (k j : String) (set : List String) → has k (add j set) ≡ ((j == k) || has k set)
unfolding add
has-add k j set = elim (String-cases j k) [
  | inl same ↦ rw same (has-add_self k set)
  | inr other ↦ ground arith
]

has-clusters_from :
    (k : String) (set : List String) (xs : List Source)
    → has k (clusters_from set xs) ≡ (some_of (λ s. cluster_of s == k) xs || has k set)
unfolding clusters_from
has-clusters_from k set [] = refl
has-clusters_from k set (x ∷ xs) =
    ground (arith, has-clusters_from k (add (cluster_of x) set) xs, has-add k (cluster_of x) set)

-- A source counts as one more confirmation exactly when no earlier source is of its origin: a copy
-- of known origin leaves the count as it is.
pub count-snoc :
    (sources : List Source) (x : Source)
    → independent_cluster_count (sources ++ x ∷ []) ≡ (
        if some_of (λ s. cluster_of s == cluster_of x) sources
        then independent_cluster_count sources
        else suc (independent_cluster_count sources))
unfolding independent_cluster_count clusters_from add
count-snoc sources x =
    rw (clusters_from-append [] sources (x ∷ []))
      (ground (arith, has-clusters_from (cluster_of x) [] sources))

-- Searching is saturated exactly when the last two searches each brought no new family and no
-- progress, whatever came before them.
pub saturation_reached-snoc :
    (before : List SearchTrace) (a b : SearchTrace)
    → (saturation_reached (before ++ a ∷ b ∷ []) ≡ true) ↔ (
        (a.new_families ≡ 0)
        × (a.coverage_progress ≡ false)
        × (b.new_families ≡ 0)
        × (b.coverage_progress ≡ false))
unfolding saturation_reached
saturation_reached-snoc before a b = rw (take_last-append before (a ∷ b ∷ [])) (
  λ h. ground (arith, length-append before (a ∷ b ∷ [])),
  λ h. ground (arith, length-append before (a ∷ b ∷ [])),
)
