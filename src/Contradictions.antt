-- ===== src/Contradictions.antt =====
-- packages/research-core/src/contradictions.ts: disagreements between passages, and whether their
-- scopes explain them.
pub mod Scope
pub mod Merge
use deep_research_app.Regex.{test, words}
use deep_research_app.Text.{template, cut, includes}
use deep_research_app.Base.{
  [], ◌∷◌, none, some, Option, List, String, head?, if◌then◌else◌, ◌++◌, or_else, select, find,
  Bool, or_try, ◌==◌, false, not, ◌&&◌, tests, true,
}
use deep_research_app.Types.{
  unresolved, explained, of_value, of_geography, of_units, of_version, of_compatibility,
  ControllerState, Passage, Contradiction, Source, Resolution, is_unresolved,
}
use deep_research_app.Contradictions.Scope.{
  TextScope, Price, scope_from, extract_prices, scopes_explain_disagreement, compat_stance,
  extract_percents,
}

unfoldable pub source_of : ControllerState → Passage → Option Source
source_of state passage = find (λ s. s.id == passage.source_id) state.sources

abbrev locator_or_id : Option Source → Passage → String
locator_or_id none p = p.source_id
locator_or_id (some s) p = s.locator

abbrev type_or_unknown : Option Source → String
type_or_unknown none = "unknown"
type_or_unknown (some s) = or_else s.source_type "unknown"

abbrev resolution_of : Option String → Resolution
resolution_of none = unresolved
resolution_of (some e) = explained

abbrev mentions : Option String → String → Bool
mentions none word = false
mentions (some e) word = includes e word

unfoldable pub quality_of : ControllerState → Passage → Passage → String
unfolding source_of
quality_of state a b =
    template
      (type_or_unknown (source_of state a) ∷ " vs " ∷ type_or_unknown (source_of state b) ∷ [])

-- `a !== b` of two texts that are there.
abbrev pub disagree : Option String → Option String → Bool
disagree (some x) (some y) = not (x == y)
disagree _ _ = false

abbrev first_price : Passage → Option Price
first_price p = head? (extract_prices p.exact_text)

module _ (state : ControllerState) (a b : Passage) where
  abbrev scope_a : TextScope
  scope_a = scope_from a.exact_text

  abbrev scope_b : TextScope
  scope_b = scope_from b.exact_text

  abbrev explanation : Option String
  explanation = scopes_explain_disagreement scope_a scope_b

  unfoldable pub price_contradiction : Price → Price → Contradiction
  unfolding source_of quality_of
  price_contradiction pa pb = record {
    id = template ("contradiction-price-" ∷ a.id ∷ "-" ∷ b.id ∷ []);
    claim_a = pa.value;
    claim_b = pb.value;
    source_a = locator_or_id (source_of state a) a;
    source_b = locator_or_id (source_of state b) b;
    passage_a_id = a.id;
    passage_b_id = b.id;
    dates = scope_a.dates ++ scope_b.dates;
    geography = or_try scope_a.geography scope_b.geography;
    population = or_try scope_a.population scope_b.population;
    product_version = or_try scope_a.product_version scope_b.product_version;
    units = some pa.units;
    evidence_quality = quality_of state a b;
    possible_explanation =
        or_else explanation "Genuinely conflicting figures for overlapping scope; both retained.";
    resolution_status = resolution_of explanation;
    resolution_evidence = explanation;
    impact =
        "Displayed price/eligibility remains conditional until resolved or explicitly left uncertain.";
    dimension =
        if mentions explanation "geography"
        then of_geography
        else if mentions explanation "units"
        then of_units
        else of_value;
  }

  price_contradictions : List Contradiction
  price_contradictions = elim (first_price a) [
    | none ↦ []
    | some pa ↦ elim (first_price b) [
      | none ↦ []
      | some pb ↦ if pa.value == pb.value then [] else price_contradiction pa pb ∷ []
    ]
  ]

  unfoldable pub compatibility_contradiction : Contradiction
  unfolding source_of quality_of
  compatibility_contradiction = record {
    id = template ("contradiction-compat-" ∷ a.id ∷ "-" ∷ b.id ∷ []);
    claim_a = cut 180 a.exact_text;
    claim_b = cut 180 b.exact_text;
    source_a = locator_or_id (source_of state a) a;
    source_b = locator_or_id (source_of state b) b;
    passage_a_id = a.id;
    passage_b_id = b.id;
    dates = scope_a.dates ++ scope_b.dates;
    geography = or_try scope_a.geography scope_b.geography;
    population = none;
    product_version = or_try scope_a.product_version scope_b.product_version;
    units = none;
    evidence_quality = quality_of state a b;
    possible_explanation =
        or_else explanation
          "Secondary summaries may overgeneralize; a version-specific primary matrix can disagree without either date winning automatically.";
    resolution_status = resolution_of explanation;
    resolution_evidence = explanation;
    impact =
        "Compatibility conclusion stays disputed until primary evidence is weighed; summaries are not treated as independent confirmation.";
    dimension = if mentions explanation "version" then of_version else of_compatibility;
  }

  compatibility_contradictions : List Contradiction
  compatibility_contradictions =
      if disagree (compat_stance a.exact_text) (compat_stance b.exact_text)
      then compatibility_contradiction ∷ []
      else []

  unfoldable pub percent_contradiction : String → String → Contradiction
  unfolding source_of quality_of
  percent_contradiction pa pb = record {
    id = template ("contradiction-pct-" ∷ a.id ∷ "-" ∷ b.id ∷ []);
    claim_a = pa;
    claim_b = pb;
    source_a = locator_or_id (source_of state a) a;
    source_b = locator_or_id (source_of state b) b;
    passage_a_id = a.id;
    passage_b_id = b.id;
    dates = [];
    geography = none;
    population = none;
    product_version = none;
    units = some "percent";
    evidence_quality = quality_of state a b;
    possible_explanation =
        or_else explanation
          "Conflicting percentages; denominators and years must match before either is preferred.";
    resolution_status = resolution_of explanation;
    resolution_evidence = none;
    impact = "Numeric conclusion cannot be averaged across conflicting figures.";
    dimension = of_value;
  }

  percent_contradictions : List Contradiction
  percent_contradictions = elim (head? (extract_percents a.exact_text)) [
    | none ↦ []
    | some pa ↦ elim (head? (extract_percents b.exact_text)) [
      | none ↦ []
      | some pb ↦
          if not (pa == pb)
            && test true (words ("completion" ∷ "withdrawn" ∷ "rate" ∷ []))
                (template (a.exact_text ∷ b.exact_text ∷ []))
          then percent_contradiction pa pb ∷ []
          else []
    ]
  ]

  -- The body of the inner loop.
  unfoldable pub pair_contradictions : List Contradiction
  unfolding price_contradictions compatibility_contradictions percent_contradictions
      price_contradiction compatibility_contradiction percent_contradiction
  pair_contradictions =
      price_contradictions ++ (compatibility_contradictions ++ percent_contradictions)

unfoldable pub with_each : ControllerState → Passage → List Passage → List Contradiction
with_each state a [] = []
with_each state a (b ∷ bs) = pair_contradictions state a b ++ with_each state a bs

-- The two loops: each passage against those behind it.
unfoldable pub found_in : ControllerState → List Passage → List Contradiction
unfolding with_each pair_contradictions
found_in state [] = []
found_in state (a ∷ rest) = with_each state a rest ++ found_in state rest

-- `byId.set(c.id, c)`: the first position of an id, with its last value.
unfoldable pub put : Contradiction → List Contradiction → List Contradiction
put c [] = c ∷ []
put c (d ∷ rest) = if d.id == c.id then c ∷ rest else d ∷ put c rest

unfoldable pub put_all : List Contradiction → List Contradiction → List Contradiction
unfolding put
put_all [] out = out
put_all (c ∷ cs) out = put_all cs (put c out)

unfoldable pub detect_contradictions : ControllerState → List Contradiction
unfolding put_all found_in
detect_contradictions state =
    put_all (or_else state.contradictions [] ++ found_in state state.passages) []

unfoldable pub unresolved_contradictions : ControllerState → List Contradiction
unresolved_contradictions state =
    select (λ c. is_unresolved c.resolution_status)
      (or_else state.contradictions (detect_contradictions state))
