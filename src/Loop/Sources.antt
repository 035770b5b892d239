-- ===== src/Loop/Sources.antt =====
-- What search hits do to the sources and to the traces of the searches.
use deep_research_app.Policy.Counting.{saturation_reached-snoc}
use mathlib.Core.List.{append-nil, append_assoc}
use deep_research_app.Types.{Source, ControllerState, SearchTrace}
use deep_research_app.Policy.{new_family_count, saturation_reached}
use deep_research_app.Loop.{
  source_from, add_hits, apply_search_hits, Source, refresh_derived, families_seen, has_locator,
  Hit, ControllerState, SearchTrace, trace_of,
}
use deep_research_app.Base.{
  [], ◌∷◌, refl, List, String, ◌++◌, ◌≡◌, false, true, Bool-cases, All, sym, ap, ◌||◌,
  if◌then◌else◌, some_of-append, arith, inl, ◌∙◌, eq_iff, inr, ◌==◌, eq_refl,
}

-- No two sources have the same locator.
abbrev pub AreDistinctSources : List Source → Type 0
AreDistinctSources [] = Unit
AreDistinctSources (s ∷ rest) = (has_locator s.locator rest ≡ false) × AreDistinctSources rest

has_locator-append :
    (l : String) (xs ys : List Source)
    → has_locator l (xs ++ ys) ≡ (has_locator l xs || has_locator l ys)
has_locator-append l xs ys = some_of-append (λ s. s.locator == l) xs ys

snoc-AreDistinctSources :
    (xs : List Source) (y : Source)
    → AreDistinctSources xs
    → has_locator y.locator xs ≡ false
    → AreDistinctSources (xs ++ y ∷ [])
snoc-AreDistinctSources [] y d n = (refl, tt)
snoc-AreDistinctSources (x ∷ xs) y d n = (
  rw (has_locator-append x.locator xs (y ∷ []))
      (ground (arith, eq_iff x.locator y.locator, eq_iff y.locator x.locator, d.0)),
  snoc-AreDistinctSources xs y d.1 (ground arith),
)

-- One round of the loop over the hits.
abbrev add_hit : List Source → Hit → List Source
add_hit sources h = if has_locator h.locator sources then sources else sources ++ source_from h ∷ []

add_hit-has : (sources : List Source) (h : Hit) → has_locator h.locator (add_hit sources h) ≡ true
unfolding source_from
add_hit-has sources h = elim (Bool-cases (has_locator h.locator sources)) [
  | inl old ↦ rw old old
  | inr new ↦ rw new (
      rw (has_locator-append h.locator sources (source_from h ∷ []))
        (ground (arith, eq_refl h.locator)))
]

add_hit-keeps :
    (l : String) (sources : List Source) (h : Hit)
    → has_locator l sources ≡ true
    → has_locator l (add_hit sources h) ≡ true
add_hit-keeps l sources h old = elim (Bool-cases (has_locator h.locator sources)) [
  | inl known ↦ rw known old
  | inr new ↦ rw new (rw (has_locator-append l sources (source_from h ∷ [])) (ground arith))
]

add_hit-AreDistinctSources :
    (sources : List Source) (h : Hit)
    → AreDistinctSources sources
    → AreDistinctSources (add_hit sources h)
unfolding source_from
add_hit-AreDistinctSources sources h d = elim (Bool-cases (has_locator h.locator sources)) [
  | inl known ↦ rw known d
  | inr new ↦ rw new (snoc-AreDistinctSources sources (source_from h) d new)
]

add_hits-AreDistinctSources :
    (sources : List Source) (hits : List Hit)
    → AreDistinctSources sources
    → AreDistinctSources (add_hits sources hits)
unfolding add_hits
add_hits-AreDistinctSources sources [] d = d
add_hits-AreDistinctSources sources (h ∷ hits) d =
    add_hits-AreDistinctSources (add_hit sources h) hits (add_hit-AreDistinctSources sources h d)

add_hits-keeps :
    (l : String) (sources : List Source) (hits : List Hit)
    → has_locator l sources ≡ true
    → has_locator l (add_hits sources hits) ≡ true
unfolding add_hits
add_hits-keeps l sources [] old = old
add_hits-keeps l sources (h ∷ hits) old =
    add_hits-keeps l (add_hit sources h) hits (add_hit-keeps l sources h old)

add_hits-has :
    (sources : List Source) (hits : List Hit)
    → All (λ h. has_locator h.locator (add_hits sources hits) ≡ true) hits
unfolding add_hits
add_hits-has sources [] = tt
add_hits-has sources (h ∷ hits) = (
  add_hits-keeps h.locator (add_hit sources h) hits (add_hit-has sources h),
  add_hits-has (add_hit sources h) hits,
)

add_hits-extends :
    (sources : List Source) (hits : List Hit)
    → (more : List Source) × (add_hits sources hits ≡ sources ++ more)
unfolding add_hits
add_hits-extends sources [] = ([], sym (append-nil sources))
add_hits-extends sources (h ∷ hits) = elim (Bool-cases (has_locator h.locator sources)) [
  | inl known ↦ rw known (add_hits-extends sources hits)
  | inr new ↦
      let (more, e) = add_hits-extends (sources ++ source_from h ∷ []) hits in
      rw new (source_from h ∷ more, e ∙ append_assoc sources (source_from h ∷ []) more)
]

-- Where the locators of the sources are distinct: after a search they are so still, every hit is
-- among the sources, and the sources that were there stand unchanged at the front.
pub apply_search_hits-sources :
    (state : ControllerState) (query : String) (hits : List Hit)
    → AreDistinctSources state.sources
    → AreDistinctSources (apply_search_hits state query hits).sources
      × All (λ h. has_locator h.locator (apply_search_hits state query hits).sources ≡ true) hits
      × ((more : List Source) × ((apply_search_hits state query hits).sources
            ≡ state.sources ++ more))
unfolding apply_search_hits refresh_derived
apply_search_hits-sources state query hits d = (
  add_hits-AreDistinctSources state.sources hits d,
  add_hits-has state.sources hits,
  add_hits-extends state.sources hits,
)

families_seen-append :
    (xs ys : List SearchTrace) → families_seen (xs ++ ys) ≡ families_seen xs ++ families_seen ys
unfolding families_seen
families_seen-append [] ys = refl
families_seen-append (x ∷ xs) ys =
    ap (λ l. x.source_family_ids ++ l) (families_seen-append xs ys)
    ∙ sym (append_assoc x.source_family_ids (families_seen xs) (families_seen ys))

new_family_count-known :
    (ids before after : List String) → new_family_count (before ++ (ids ++ after)) ids ≡ 0
unfolding new_family_count
new_family_count-known [] before after = refl
new_family_count-known (f ∷ ids) before after =
    let rest : new_family_count (before ++ (f ∷ ids ++ after)) ids ≡ 0 =
      rw (sym (append_assoc before (f ∷ []) (ids ++ after)))
        (new_family_count-known ids (before ++ f ∷ []) after) in
    ground (arith, rest, some_of-append (λ k. k == f) before (f ∷ ids ++ after), eq_refl f)

new_family_count-again :
    (before : List SearchTrace) (t : SearchTrace)
    → new_family_count (families_seen (before ++ t ∷ [])) t.source_family_ids ≡ 0
unfolding families_seen
new_family_count-again before t =
    rw (families_seen-append before (t ∷ []))
      (new_family_count-known t.source_family_ids (families_seen before) [])

-- A search that brings the hits of the one before it makes no progress, so that a query repeated
-- twice with the same hits saturates the searching, whatever was searched before.
pub apply_search_hits_saturates :
    (state : ControllerState) (first second third : String) (hits : List Hit)
    → saturation_reached
        (apply_search_hits
          (apply_search_hits (apply_search_hits state first hits) second hits)
          third
          hits).searches
      ≡ true
unfolding apply_search_hits refresh_derived trace_of
apply_search_hits_saturates state first second third hits =
    let t1 = trace_of state first hits in
    let one = apply_search_hits state first hits in
    let t2 = trace_of one second hits in
    let two = apply_search_hits one second hits in
    let t3 = trace_of two third hits in
    let e2 : t2.new_families ≡ 0 = new_family_count-again state.searches t1 in
    let e3 : t3.new_families ≡ 0 = new_family_count-again one.searches t2 in
    rw (append_assoc one.searches (t2 ∷ []) (t3 ∷ []))
      ((saturation_reached-snoc one.searches t2 t3).1 (e2, rw e2 refl, e3, rw e3 refl))
