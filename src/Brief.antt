-- ===== src/Brief.antt =====
-- packages/research-core/src/brief.ts: the constraints that a question states, and how a correction
-- changes them. The clarifications of that file are in Adaptive/Proposals.
pub mod Features
pub mod Question
pub mod Correction
pub mod Changes
pub mod Kept
pub mod Given
use Prim.Native.String.{char_at}
use deep_research_app.Independence.{provenance_from_origin}
use deep_research_app.Types.{Constraint, explicit, hard}
use Prim.Native.Char.{Char, code}
use deep_research_app.Regex.{
  Regex, group_of, exec, test, group, all_of, Pos, seq, whole, digits, spaces, digit_char, word,
  starting, edge, any_of, opt, words, gap, number, alt, one, plus, plural, finish, is_letter, begin,
}
use deep_research_app.Text.{chars, includes, template, of_chars, lower, is_space}
use deep_research_app.Base.{
  refl, ◌≡◌, List, Bool, String, Option, ◌∷◌, if◌then◌else◌, ℕ, [], true, false, nat_eq, none, find,
  ◌==◌, or_else, or_try, not, some, ◌++◌, ◌&&◌, ◌||◌,
}

abbrev pub countries : List String
countries =
    "germany" ∷ "france" ∷ "united states" ∷ "usa" ∷ "uk" ∷ "united kingdom" ∷ "canada" ∷ "japan"
    ∷ "india" ∷ "australia" ∷ "brazil" ∷ "spain" ∷ "italy" ∷ "netherlands" ∷ "sweden" ∷ "norway"
    ∷ "singapore" ∷ []

-- `text.replace(/\s+/g, "-")`; the flag says that the last character was white space.
unfoldable pub dashed_from : Bool → List Char → List Char
dashed_from after [] = []
dashed_from after (c ∷ s) =
    let inside = dashed_from true s in
    let outside = dashed_from false s in
    if not (is_space (code c))
    then c ∷ outside
    else if after
    then inside
    else char_at "-" 0 ∷ inside

unfoldable pub dashed : String → String
unfolding dashed_from chars of_chars
dashed text = of_chars (dashed_from false (chars text))

-- `text.replace(",", "")`: the first comma is taken out.
unfoldable pub drop_comma : List Char → List Char
drop_comma [] = []
drop_comma (c ∷ s) = if nat_eq (code c) b',' then s else c ∷ drop_comma s

unfoldable pub without_comma : String → String
unfolding drop_comma chars of_chars
without_comma text = of_chars (drop_comma (chars text))

unfoldable pub stated : String → String → String → String → Constraint
stated id field value explanation = record {
  id = id;
  field = field;
  operator = "eq";
  value = value;
  units = none;
  origin = explicit;
  importance = hard;
  explanation = explanation;
  provenance = none;
}

unfoldable pub geography_of : String → List Constraint
unfolding stated includes template dashed
geography_of question = elim (find (λ c. includes (lower question) c) countries) [
  | none ↦ []
  | some country ↦
      record (stated (template ("geo-" ∷ dashed country ∷ [])) "geography" country
        (template ("Question names geography: " ∷ country ∷ []))) {
          provenance = some (provenance_from_origin explicit);
        }
      ∷ []
]

-- `(\d+(?:[.,]\d+)?)`
abbrev pub amount : Regex
amount = group 1 (seq digits (opt (seq (one (λ c. nat_eq c b'.' || nat_eq c b',')) digits)))

-- `(\d+(?:[.,]\d+)?)\s*(EUR|USD|GBP|€|\$)`
abbrev money_pattern : Regex
money_pattern =
    all_of (amount ∷ spaces ∷ group 2 (words ("EUR" ∷ "USD" ∷ "GBP" ∷ "€" ∷ "$" ∷ [])) ∷ [])

abbrev currency_of : String → String
currency_of u = if u == "€" then "EUR" else if u == "$" then "USD" else u

-- `match[n]` of a group that takes part in every match.
unfoldable pub part : ℕ → Pos → String
unfolding group_of
part n p = or_else (group_of n p) ""

unfoldable pub budget_from : Pos → Constraint
unfolding part stated without_comma template
budget_from m =
    record (stated "budget" "budget" (without_comma (part 1 m))
      (template ("Question names budget " ∷ part 0 m ∷ []))) {
        operator = "lte";
        units = some (currency_of (part 2 m));
        provenance = some (provenance_from_origin explicit);
      }

unfoldable pub from_match {ℓ} : {A : Type ℓ} → Option Pos → (Pos → A) → List A
from_match none f = []
from_match (some m) f = f m ∷ []

unfoldable pub budget_of : String → List Constraint
unfolding budget_from from_match exec
budget_of question = from_match (exec true money_pattern question) budget_from

abbrev two_digits : Regex
two_digits = seq digit_char digit_char

abbrev month_and_day : Regex
month_and_day = all_of (word "-" ∷ two_digits ∷ word "-" ∷ two_digits ∷ [])

-- `\b(20\d{2}-\d{2}-\d{2})\b`
abbrev iso_pattern : Regex
iso_pattern = whole (group 1 (all_of (word "20" ∷ two_digits ∷ month_and_day ∷ [])))

abbrev year : Regex
year = seq two_digits two_digits

-- `\bas of\s+([A-Za-z]+ \d{4}|\d{4}-\d{2}-\d{2}|\d{4})\b`
abbrev as_of_pattern : Regex
as_of_pattern = all_of (
    starting "as of"
    ∷ gap
    ∷ group 1 (
        any_of (
          all_of (plus (one is_letter) ∷ word " " ∷ year ∷ [])
          ∷ seq year month_and_day
          ∷ year
          ∷ []))
    ∷ edge
    ∷ [])

unfoldable pub date_from : Pos → Constraint
unfolding part stated template
date_from m =
    stated "as-of-date" "date" (part 1 m) (template ("Question names date " ∷ part 1 m ∷ []))

unfoldable pub date_of : String → List Constraint
unfolding date_from from_match exec
date_of question =
    from_match (or_try (exec false iso_pattern question) (exec true as_of_pattern question))
      date_from

-- `\b(\d+(?:\.\d+)?)\s*(mg|g|milligrams?|grams?)\b`
abbrev dose_pattern : Regex
dose_pattern = all_of (
    edge
    ∷ group 1 number
    ∷ spaces
    ∷ group 2 (any_of (word "mg" ∷ word "g" ∷ plural "milligram" ∷ plural "gram" ∷ []))
    ∷ edge
    ∷ [])

unfoldable pub dose_units : String → String
unfolding test
dose_units u =
    if test true (alt (seq (word "g") finish) (word "gram")) u
      && not (test true (seq begin (word "mg")) u)
    then "g"
    else "mg"

unfoldable pub dose_from : Pos → Constraint
unfolding part stated template dose_units
dose_from m =
    record (stated "dose" "dose" (part 1 m) (template ("Question names dose " ∷ part 0 m ∷ []))) {
      units = some (dose_units (part 2 m));
    }

unfoldable pub dose_of : String → List Constraint
unfolding dose_from from_match exec
dose_of question = from_match (exec true dose_pattern question) dose_from
