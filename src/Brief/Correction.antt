-- ===== src/Brief/Correction.antt =====
-- brief.ts, `parseCorrection` and `applyCorrectionToConstraints`.
use Prim.Native.Char.{Char, code}
use deep_research_app.Text.{of_chars, chars, is_space}
use deep_research_app.Brief.{
  part, alt, all_of, any_of, Pos, without_comma, words, chars, whole, word, group, starting, Char,
  plural, number, seq, gap, countries, opt, spaces, digit_char, begin, amount, is_space,
}
use deep_research_app.Regex.{
  Regex, test, exec, alt, all_of, any_of, Pos, words, whole, word, group, starting, empty, plural,
  number, seq, gap, opt, spaces, digit_char, begin,
}
use deep_research_app.Base.{
  Option, none, String, Bool, false, true, List, or_else, if◌then◌else◌, some, or_try, find, ◌∷◌,
  ◌&&◌, [],
}

pub data IntentKind : Type 0 where
  constraint_change unknown_dependencies unparsed : IntentKind

pub record Intent : Type 0 where
  pub kind : IntentKind
  pub field : Option String
  pub value : Option String
  pub units : Option String
  pub drop : Bool
  pub relaxed_hard_constraint : Bool
  pub unknown_dependencies : Bool

abbrev plain_intent : IntentKind → Intent
plain_intent kind = record {
  kind = kind;
  field = none;
  value = none;
  units = none;
  drop = false;
  relaxed_hard_constraint = false;
  unknown_dependencies = false;
}

unfoldable pub change_of : String → String → Bool → Intent
change_of field value relaxed = record (plain_intent constraint_change) {
  field = some field;
  value = some value;
  relaxed_hard_constraint = relaxed;
}

-- `dependency completeness unknown|dependencies? (are )?unknown`
abbrev unknown_pattern : Regex
unknown_pattern =
    alt (word "dependency completeness unknown")
      (all_of (plural "dependencie" ∷ word " " ∷ opt (word "are ") ∷ word "unknown" ∷ []))

unfoldable pub unknown_intent : String → Option Intent
unfolding test
unknown_intent text =
    if test true unknown_pattern text
    then some (record (plain_intent unknown_dependencies) { unknown_dependencies = true })
    else none

-- `(\d+(?:\.\d+)?)\s*(mg|milligrams?|g|grams?)`
abbrev corrected_dose : Regex
corrected_dose = all_of (
    group 1 number
    ∷ spaces
    ∷ group 2 (any_of (word "mg" ∷ plural "milligram" ∷ word "g" ∷ plural "gram" ∷ []))
    ∷ [])

-- `dose|instead of|not \d`
abbrev dose_context : Regex
dose_context = any_of (word "dose" ∷ word "instead of" ∷ seq (word "not ") digit_char ∷ [])

unfoldable pub dose_change : Pos → Intent
unfolding part change_of test
dose_change m = record (change_of "dose" (part 1 m) false) {
  units =
      some (
        if test true (alt (seq begin (word "mg")) (word "milligram")) (part 2 m)
        then "mg"
        else "g");
}

unfoldable pub dose_intent : String → Option Intent
unfolding dose_change exec test
dose_intent text = elim (exec true corrected_dose text) [
  | none ↦ none
  | some m ↦ if test true dose_context text then some (dose_change m) else none
]

-- `\bbudget\s+is\s+(\d+(?:[.,]\d+)?)`
abbrev budget_is : Regex
budget_is = all_of (starting "budget" ∷ gap ∷ word "is" ∷ gap ∷ amount ∷ [])

abbrev budget_then : Regex
budget_then = all_of (starting "budget" ∷ gap ∷ amount ∷ [])

unfoldable pub budget_intent : String → Option Intent
unfolding exec part without_comma change_of
budget_intent text = elim (or_try (exec true budget_is text) (exec true budget_then text)) [
  | none ↦ none
  | some m ↦ some (change_of "budget" (without_comma (part 1 m)) true)
]

-- A country's name, where each space stands for `\s+`.
unfoldable pub spaced : List Char → Regex
unfolding of_chars
spaced [] = empty
spaced (c ∷ s) =
    let rest = spaced s in
    if is_space (code c) then seq gap rest else seq (word (of_chars (c ∷ []))) rest

abbrev country_context : Regex
country_context = words ("required" ∷ "instead" ∷ "actually" ∷ "must" ∷ "use" ∷ [])

unfoldable pub geography_intent : String → Option Intent
unfolding test spaced chars change_of
geography_intent text =
    elim (find (λ c. test true (whole (spaced (chars c))) text && test true country_context text)
      countries) [ none ↦ none | some country ↦ some (change_of "geography" country true) ]

abbrev names_linux : Regex
names_linux = whole (word "linux")

-- `\bno longer required|not required|optional|drop linux|without linux`
abbrev not_required : Regex
not_required =
    alt (starting "no longer required")
      (words ("not required" ∷ "optional" ∷ "drop linux" ∷ "without linux" ∷ []))

unfoldable pub platform_intent : String → Option Intent
unfolding test change_of
platform_intent text =
    if test true names_linux text && test true not_required text
    then some (record (change_of "platform" "linux" true) { drop = true })
    else if test true names_linux text
        && test true (whole (words ("required" ∷ "also" ∷ "hard" ∷ "desktop" ∷ []))) text
    then some (change_of "platform" "linux" false)
    else none

-- `actually,?\s+include`, `relax` and `no longer required`
abbrev relaxing : Regex
relaxing = any_of (
    all_of (word "actually" ∷ opt (word ",") ∷ gap ∷ word "include" ∷ [])
    ∷ word "relax"
    ∷ word "no longer required"
    ∷ [])

unfoldable pub relaxing_intent : String → Option Intent
unfolding test
relaxing_intent text =
    if test true relaxing text
    then some (record (plain_intent constraint_change) { relaxed_hard_constraint = true })
    else none

unfoldable pub parse_correction : String → Intent
unfolding unknown_intent dose_intent budget_intent geography_intent platform_intent relaxing_intent
parse_correction text =
    or_else
      (or_try (unknown_intent text) (
        or_try (dose_intent text) (
          or_try (budget_intent text) (
            or_try (geography_intent text)
              (or_try (platform_intent text) (relaxing_intent text))))))
      (plain_intent unparsed)
