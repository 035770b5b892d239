-- ===== src/Loop/Documents.antt =====
-- What a fetched document does to the sources and the passages.
use deep_research_app.Admission.Guards.{is_given}
use deep_research_app.Types.{Source, ControllerState}
use deep_research_app.Loop.{
  open_first, apply_fetched_document, Source, opened_as, refresh_derived, Fetched, passage_of,
  ControllerState, is_fetched_source, is_given,
}
use deep_research_app.Base.{
  [], ◌∷◌, none, some, refl, ◌≡◌, List, String, map, Bool-cases, find, inl, arith, ◌++◌, inr, ap,
  true, false,
}

-- What names a source.
abbrev pub names_of : List Source → List (String × String)
names_of sources = map (λ s. (s.id, s.locator)) sources

open_first-names :
    (doc : Fetched) (sources : List Source) → names_of (open_first doc sources) ≡ names_of sources
unfolding open_first opened_as
open_first-names doc [] = refl
open_first-names doc (s ∷ rest) = elim (Bool-cases (is_fetched_source doc s)) [
  | inl this ↦ rw this refl
  | inr other ↦ rw other (ap (λ l. (s.id, s.locator) ∷ l) (open_first-names doc rest))
]

open_first-find :
    (doc : Fetched) (sources : List Source) (s : Source)
    → find (is_fetched_source doc) sources ≡ some s
    → find (is_fetched_source doc) (open_first doc sources) ≡ some (opened_as doc s)
unfolding open_first opened_as
open_first-find doc [] s h = ground arith
open_first-find doc (x ∷ rest) s h = elim (Bool-cases (is_fetched_source doc x)) [
  | inl this ↦
      rw this (
        rw this (ap (λ o. elim o [ none ↦ none | some y ↦ some (opened_as doc y) ]) (rw this at h)))
  | inr other ↦ rw other (rw other (open_first-find doc rest s (rw other at h)))
]

-- A fetched document that some source names is recorded as one more passage, with the document's
-- text and under the id of that source; the source takes the access level of the document, and its
-- type where it gives one, and is otherwise as it was; all sources keep their names and their order.
pub apply_fetched_document-find :
    (state : ControllerState) (doc : Fetched) (s : Source)
    → find (is_fetched_source doc) state.sources ≡ some s
    → (names_of (apply_fetched_document state doc).0.sources ≡ names_of state.sources)
      × ((t : Source) × (find (is_fetched_source doc) (apply_fetched_document state doc).0.sources
            ≡ some t)
          × (t.access_level ≡ doc.access_level)
          × (is_given doc.source_type ≡ true → t.source_type ≡ doc.source_type)
          × (is_given doc.source_type ≡ false → t.source_type ≡ s.source_type)
          × (t ≡ record s { access_level = t.access_level; source_type = t.source_type }))
      × ((apply_fetched_document state doc).0.passages
          ≡ state.passages ++ (apply_fetched_document state doc).1 ∷ [])
      × ((apply_fetched_document state doc).1.source_id ≡ s.id)
      × ((apply_fetched_document state doc).1.exact_text ≡ doc.text)
unfolding apply_fetched_document refresh_derived passage_of opened_as
apply_fetched_document-find state doc s h = (
  open_first-names doc state.sources,
  (
    opened_as doc s,
    open_first-find doc state.sources s h,
    refl,
    λ given. rw given refl,
    λ absent. rw absent refl,
    refl,
  ),
  refl,
  ap (λ o. elim o [ none ↦ doc.locator | some y ↦ y.id ]) h,
  refl,
)
