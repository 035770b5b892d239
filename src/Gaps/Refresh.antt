-- ===== src/Gaps/Refresh.antt =====
-- Gaps that are derived again replace the earlier ones.
use deep_research_app.Contradictions.{
  detect_contradictions, pair_contradictions, with_each, found_in, put_all, price_contradiction,
  compatibility_contradiction, percent_contradiction, quality_of, source_of,
}
use deep_research_app.Regex.{test}
use deep_research_app.Questions.{constraint_on}
use deep_research_app.Gaps.{
  is_managed_gap_id, ControllerState, geography_gaps, inaccessible_gaps, stale_price_gaps,
  derived_gaps, disagreement_gaps, calculation_gaps, detect_gaps,
}
use deep_research_app.Gaps.Parts.{
  compatibility_gaps, population_gaps, asked, attempts_for, has_opened_primary, only_summaries,
}
use deep_research_app.Gaps.Conflicts.{
  disagreement_gap, calculation_gap, geography_gaps, inaccessible_gaps, stale_price_gaps,
  disagreement_gaps, calculation_gaps, wants_current, is_completed, first_date, mentions_geography,
}
use deep_research_app.Types.{
  Gap, ControllerState, Contradiction, Calculation, is_hard, is_unresolved, Passage,
}
use deep_research_app.Text.{template}
use Prim.Native.String
use mathlib.Core.Path.{ap₂}
use mathlib.Core.List.{append-nil}
use text.Mathlib.TextEquality.{starts_with_iff}
use text.Mathlib.TextLemmas.{append_assoc}
use deep_research_app.Base.{
  [], ◌∷◌, none, some, refl, String, starts_with, ◌≡◌, true, All, arith, inl, inr, ap, List, sym,
  Option, Bool-cases, find, ◌∙◌, map, or_else, ◌==◌, ◌&&◌, select, All-append, ◌++◌, select-append,
  not, select-select, select-none, false, Bool, if◌then◌else◌, All-map_of,
}

-- The gap of a contradiction whose id is one that detection gives is managed.
gap_id-managed :
    (s : String)
    → starts_with s "contradiction" ≡ true
    → starts_with (template ("gap-" ∷ s ∷ [])) "gap-contradiction" ≡ true
unfolding template
gap_id-managed s h =
    let (rest, e) = (starts_with_iff s "contradiction").0 h in
    (starts_with_iff (template ("gap-" ∷ s ∷ [])) "gap-contradiction").1 (
      String.◌++◌ rest "",
      (append_assoc "gap-" "contradiction" (String.◌++◌ rest ""))
          ∙ ap (λ t. String.◌++◌ "gap-" t)
              (sym (append_assoc "contradiction" rest "") ∙ ap (λ t. String.◌++◌ t "") e),
    )

calculation_id-managed :
    (s : String) → starts_with (template ("calc-missing-" ∷ s ∷ [])) "calc-missing-" ≡ true
unfolding template
calculation_id-managed s =
    (starts_with_iff (template ("calc-missing-" ∷ s ∷ [])) "calc-missing-").1
      (template (s ∷ []), refl)

-- The gap carries an id that derivation manages.
abbrev IsManaged : Gap → Type 0
IsManaged g = is_managed_gap_id g.id ≡ true

compatibility_gaps-IsManaged : (state : ControllerState) → All IsManaged (compatibility_gaps state)
unfolding compatibility_gaps is_managed_gap_id
compatibility_gaps-IsManaged state = ground arith

-- What a choice on an optional value pushes.
All-of_option :
    {A : Type 0} (f : A → List Gap) (o : Option A)
    → ((x : A) → All IsManaged (f x))
    → All IsManaged (elim o [ none ↦ [] | some x ↦ f x ])
All-of_option f none h = tt
All-of_option f (some x) h = h x

population_gaps-IsManaged : (state : ControllerState) → All IsManaged (population_gaps state)
unfolding population_gaps is_managed_gap_id
population_gaps-IsManaged state =
    All-of_option _ (constraint_on "population" state) (λ pop. ground arith)

geography_gaps-IsManaged : (state : ControllerState) → All IsManaged (geography_gaps state)
unfolding geography_gaps is_managed_gap_id
geography_gaps-IsManaged state =
    All-of_option _ (find (λ c. c.field == "geography" && is_hard c.importance) state.constraints)
      (λ geo. ground arith)

inaccessible_gaps-IsManaged : (state : ControllerState) → All IsManaged (inaccessible_gaps state)
unfolding inaccessible_gaps is_managed_gap_id
inaccessible_gaps-IsManaged state = ground arith

stale_price_gaps-IsManaged : (state : ControllerState) → All IsManaged (stale_price_gaps state)
unfolding stale_price_gaps is_managed_gap_id
stale_price_gaps-IsManaged state = elim (Bool-cases (test true wants_current (asked state))) [
  | inl wants ↦ rw wants (All-of_option _ (first_date state.passages) (λ date. ground arith))
  | inr other ↦ rw other tt
]

-- Every recorded contradiction has an id of the form that detection gives.
abbrev pub AreNamed : List Contradiction → Type 0
AreNamed cs = All (λ c. starts_with c.id "contradiction" ≡ true) cs

disagreements-IsManaged :
    (cs : List Contradiction)
    → AreNamed cs
    → All IsManaged (map disagreement_gap (select (λ c. is_unresolved c.resolution_status) cs))
unfolding disagreement_gap is_managed_gap_id
disagreements-IsManaged [] h = tt
disagreements-IsManaged (c ∷ cs) h =
    ground (arith, gap_id-managed c.id h.0, disagreements-IsManaged cs h.1)

calculations-IsManaged :
    (cs : List Calculation) → All IsManaged (map calculation_gap (select (λ c. c.is_unknown) cs))
unfolding calculation_gap is_managed_gap_id
calculations-IsManaged [] = tt
calculations-IsManaged (c ∷ cs) =
    ground (arith, calculation_id-managed c.id, calculations-IsManaged cs)

-- The contradictions that the gaps are derived from.
abbrev pub disputed : ControllerState → List Contradiction
disputed state = or_else state.contradictions (detect_contradictions state)

derived_gaps-IsManaged :
    (state : ControllerState) → AreNamed (disputed state) → All IsManaged (derived_gaps state)
unfolding derived_gaps disagreement_gaps calculation_gaps
derived_gaps-IsManaged state named =
    let disagreements : All IsManaged (disagreement_gaps state) =
      elim (Bool-cases (is_completed "verify" state)) [
        | inl done ↦ rw done tt
        | inr still ↦ rw still (disagreements-IsManaged (disputed state) named)
      ] in
    All-append IsManaged _ _ (compatibility_gaps-IsManaged state) (
      All-append IsManaged _ _ (population_gaps-IsManaged state) (
        All-append IsManaged _ _ (geography_gaps-IsManaged state) (
          All-append IsManaged _ _ (inaccessible_gaps-IsManaged state) (
            All-append IsManaged _ _ (stale_price_gaps-IsManaged state) (
              All-append IsManaged _ _ disagreements
                (calculations-IsManaged state.calculations))))))

-- What is derived does not read the gaps.
pair_contradictions-gaps :
    (state : ControllerState) (gaps : List Gap) (a b : Passage)
    → pair_contradictions (record state { gaps = gaps }) a b ≡ pair_contradictions state a b
unfolding pair_contradictions price_contradiction compatibility_contradiction percent_contradiction
    quality_of source_of
pair_contradictions-gaps state gaps a b = refl

with_each-gaps :
    (state : ControllerState) (gaps : List Gap) (a : Passage) (bs : List Passage)
    → with_each (record state { gaps = gaps }) a bs ≡ with_each state a bs
unfolding with_each
with_each-gaps state gaps a [] = refl
with_each-gaps state gaps a (b ∷ bs) =
    ap₂ (λ x y. x ++ y) (pair_contradictions-gaps state gaps a b) (with_each-gaps state gaps a bs)

found_in-gaps :
    (state : ControllerState) (gaps : List Gap) (passages : List Passage)
    → found_in (record state { gaps = gaps }) passages ≡ found_in state passages
unfolding found_in
found_in-gaps state gaps [] = refl
found_in-gaps state gaps (a ∷ rest) =
    ap₂ (λ x y. x ++ y) (with_each-gaps state gaps a rest) (found_in-gaps state gaps rest)

disputed-gaps :
    (state : ControllerState) (gaps : List Gap)
    → disputed (record state { gaps = gaps }) ≡ disputed state
unfolding detect_contradictions
disputed-gaps state gaps =
    ap (λ f. or_else state.contradictions (put_all (or_else state.contradictions [] ++ f) []))
      (found_in-gaps state gaps state.passages)

derived_gaps-gaps :
    (state : ControllerState) (gaps : List Gap)
    → derived_gaps (record state { gaps = gaps }) ≡ derived_gaps state
unfolding derived_gaps compatibility_gaps population_gaps geography_gaps inaccessible_gaps
    stale_price_gaps disagreement_gaps calculation_gaps attempts_for has_opened_primary
    only_summaries mentions_geography
derived_gaps-gaps state gaps = rw (disputed-gaps state gaps) refl

detect_gaps-off :
    (state : ControllerState)
    → state.ablations.disable_gap_detection ≡ true
    → detect_gaps state ≡ state.gaps
unfolding detect_gaps
detect_gaps-off state off =
    ap
      (λ b.
        if b
        then state.gaps
        else select (λ g. not (is_managed_gap_id g.id)) state.gaps ++ derived_gaps state)
      off

detect_gaps-on :
    (state : ControllerState)
    → state.ablations.disable_gap_detection ≡ false
    → detect_gaps state
      ≡ select (λ g. not (is_managed_gap_id g.id)) state.gaps ++ derived_gaps state
unfolding detect_gaps
detect_gaps-on state on =
    ap
      (λ b.
        if b
        then state.gaps
        else select (λ g. not (is_managed_gap_id g.id)) state.gaps ++ derived_gaps state)
      on

select_unmanaged :
    (kept derived : List Gap)
    → All IsManaged derived
    → select
        (λ g. not (is_managed_gap_id g.id))
        (select (λ g. not (is_managed_gap_id g.id)) kept ++ derived)
      ≡ select (λ g. not (is_managed_gap_id g.id)) kept
select_unmanaged kept derived managed =
    let open_ids : Gap → Bool = λ g. not (is_managed_gap_id g.id) in
    let none_left =
      All-map_of IsManaged (λ g. open_ids g ≡ false) derived (λ g e. ground arith) managed in
    select-append open_ids (select open_ids kept) derived
    ∙ ap₂ (λ x y. x ++ y) (select-select open_ids kept) (select-none open_ids derived none_left)
    ∙ append-nil (select open_ids kept)

-- Deriving the gaps a second time changes nothing, where the recorded contradictions carry ids of
-- the form that detection gives: a derived gap replaces the earlier one and never stands twice.
pub detect_gaps_idempotent :
    (state : ControllerState)
    → AreNamed (disputed state)
    → detect_gaps (record state { gaps = detect_gaps state }) ≡ detect_gaps state
detect_gaps_idempotent state named = elim (Bool-cases state.ablations.disable_gap_detection) [
  | inl off ↦ detect_gaps-off (record state { gaps = detect_gaps state }) off
  | inr on ↦
      detect_gaps-on (record state { gaps = detect_gaps state }) on
      ∙ ap₂ (λ x y. x ++ y)
          (ap (select (λ g. not (is_managed_gap_id g.id))) (detect_gaps-on state on)
            ∙ select_unmanaged state.gaps (derived_gaps state) (derived_gaps-IsManaged state named))
          (derived_gaps-gaps state (detect_gaps state))
      ∙ sym (detect_gaps-on state on)
]
