-- ===== src/Contradictions/Scope.antt =====
-- contradictions.ts, lines 7 to 61: prices, percentages, scopes and stances in a text.
use deep_research_app.Text.{template, lower, upper}
use deep_research_app.Regex.{
  Pos, Regex, all_of, whole, any_of, match_all, word, group, test, group_of, plural, digit_char,
  words, seq, opt, gap, number, digits, spaces, match_group, begin,
}
use deep_research_app.Base.{
  [], ◌∷◌, none, some, String, List, Option, map, if◌then◌else◌, Bool, or_try, or_else, not, ◌&&◌,
  head?, true, ◌==◌, false,
}

pub record Price : Type 0 where
  pub value : String
  pub units : String

-- The field `num` of the source is read nowhere.
abbrev price_at : Pos → Price
price_at m = record {
  value = template (or_else (group_of 1 m) "" ∷ " " ∷ or_else (group_of 2 m) "" ∷ []);
  units = upper (or_else (group_of 2 m) "");
}

unfoldable pub price_pattern : Regex
price_pattern = all_of (
    any_of
      (plural "cost" ∷ seq (word "price") (opt (words ("d" ∷ "s" ∷ []))) ∷ word "listed at" ∷ [])
    ∷ gap
    ∷ group 1 number
    ∷ spaces
    ∷ group 2 (words ("EUR" ∷ "USD" ∷ "GBP" ∷ []))
    ∷ [])

unfoldable pub extract_prices : String → List Price
unfolding price_pattern
extract_prices text = map price_at (match_all true price_pattern text)

unfoldable pub extract_percents : String → List String
extract_percents text =
    map (λ m. or_else (group_of 0 m) "") (match_all false (seq number (word "%")) text)

pub record TextScope : Type 0 where
  pub dates : List String
  pub geography : Option String
  pub population : Option String
  pub product_version : Option String
  pub units : Option String

abbrev pub year_20 : Regex
year_20 = all_of (word "20" ∷ digit_char ∷ digit_char ∷ [])

-- `20\d{2}-\d{2}-\d{2}`
abbrev pub iso_date : Regex
iso_date =
    all_of (year_20 ∷ word "-" ∷ digit_char ∷ digit_char ∷ word "-" ∷ digit_char ∷ digit_char ∷ [])

unfoldable pub date_pattern : Regex
date_pattern =
    whole (
      group 1
        (any_of (iso_date ∷ year_20 ∷ all_of (word "19" ∷ digit_char ∷ digit_char ∷ []) ∷ [])))

unfoldable pub geography_pattern : Regex
geography_pattern = whole (
    group 1 (
      words (
        "germany" ∷ "france" ∷ "united states" ∷ "usa" ∷ "uk" ∷ "eu-central-1" ∷ "us-east-1" ∷ [])))

unfoldable pub population_pattern : Regex
population_pattern = whole (
    group 1 (
      any_of (
        seq (word "children under ") digits
        ∷ word "pediatric"
        ∷ all_of (plural "adult" ∷ word " over " ∷ digits ∷ [])
        ∷ word "adults only"
        ∷ all_of (word "under" ∷ opt (word "-") ∷ word "5" ∷ [])
        ∷ [])))

unfoldable pub version_pattern : Regex
version_pattern = whole (
    group 1 (
      any_of (
        all_of (word "postgres" ∷ opt (word "ql") ∷ spaces ∷ digits ∷ [])
        ∷ all_of (word "version" ∷ spaces ∷ digits ∷ [])
        ∷ seq (word "v") digits
        ∷ [])))

unfoldable pub units_pattern : Regex
units_pattern =
    whole
      (group 1 (words ("EUR" ∷ "USD" ∷ "GBP" ∷ "mg" ∷ "g" ∷ "percent" ∷ "seats" ∷ "users" ∷ [])))

abbrev lowered : Option String → Option String
lowered none = none
lowered (some s) = some (lower s)

unfoldable pub scope_from : String → TextScope
unfolding date_pattern geography_pattern population_pattern version_pattern units_pattern
scope_from text = record {
  dates = map (λ m. or_else (group_of 1 m) "") (match_all false date_pattern text);
  geography = lowered (match_group geography_pattern 1 text);
  population = lowered (match_group population_pattern 1 text);
  product_version = lowered (match_group version_pattern 1 text);
  units = lowered (match_group units_pattern 1 text);
}

-- `a && b && a !== b`: the two values, where both are there, not empty, and different.
abbrev pub differing : Option String → Option String → Option (String × String)
differing (some x) (some y) =
    if not (x == "") && not (y == "") && not (x == y) then some (x, y) else none
differing _ _ = none

abbrev starts_with_year : String → Bool
starts_with_year s =
    test false (all_of (begin ∷ digit_char ∷ digit_char ∷ digit_char ∷ digit_char ∷ [])) s

abbrev differing_years : Option String → Option String → Option (String × String)
differing_years a b = elim (differing a b) [
  | none ↦ none
  | some (x, y) ↦ if starts_with_year x && starts_with_year y then some (x, y) else none
]

abbrev explain : String → String → Option (String × String) → Option String
explain before after none = none
explain before after (some (x, y)) = some (template (before ∷ x ∷ " vs " ∷ y ∷ after ∷ []))

unfoldable pub scopes_explain_disagreement : TextScope → TextScope → Option String
scopes_explain_disagreement a b =
    or_try
      (explain "Different geography (" "); not resolved by recency."
        (differing a.geography b.geography))
      (or_try
        (explain "Different population (" "); not resolved by recency."
          (differing a.population b.population))
        (or_try
          (explain "Different product/version (" "); not resolved by recency."
            (differing a.product_version b.product_version))
          (or_try
            (explain "Different units (" "); values are not averaged." (differing a.units b.units))
            (explain "Different dates (" "); newest source is not automatically correct."
              (differing_years (head? a.dates) (head? b.dates))))))

unfoldable pub compat_stance : String → Option String
compat_stance text =
    if test true
      (words ("not compatible" ∷ "incompatible" ∷ "does not support" ∷ "not supported" ∷ [])) text
    then some "no"
    else if test true
        (any_of (
          word "compatible with all"
          ∷ all_of (word "works " ∷ opt (word "great ") ∷ word "with" ∷ [])
          ∷ word "broadly compatible"
          ∷ word "is compatible"
          ∷ []))
        text
    then some "yes"
    else none
