-- ===== src/Brief/Changes.antt =====
-- brief.ts, `applyCorrectionToConstraints`.
use Prim.Native.Char.{Char}
use deep_research_app.Brief.{dashed, hard, chars, all_of, begin, number, finish, Char}
use deep_research_app.Calculation.Quantities.{number_from, split_point}
use deep_research_app.Types.{Constraint, confirmed, hard}
use deep_research_app.Regex.{test, all_of, begin, number, finish}
use deep_research_app.Brief.Correction.{Intent, parse_correction}
use deep_research_app.Text.{template, trim, chars}
use deep_research_app.Base.{
  String, Option, List, ℕ, Bool, ◌∷◌, none, or_try, if◌then◌else◌, ◌||◌, some, some_of, or_else,
  false, ◌==◌, same_text, [], ltb, find, select, ◌++◌, ◌&&◌, not, ◌*◌, true, nat_eq, length, ◌^◌,
}

-- The value of a correction of this field; an empty value counts as none.
unfoldable pub value_for : String → Intent → Option String
value_for field i = elim i.value [
  | none ↦ none
  | some v ↦ if same_text i.field field && not (v == "") then some v else none
]

abbrev pub has_field : String → Constraint → Bool
has_field field c = c.field == field

-- The first constraint of a field is changed where it stands.
unfoldable pub change_first : String → (Constraint → Constraint) → List Constraint → List Constraint
change_first field f [] = []
change_first field f (c ∷ cs) =
    let rest = change_first field f cs in if c.field == field then f c ∷ cs else c ∷ rest

unfoldable pub change_or_add :
    String → (Constraint → Constraint) → Constraint → List Constraint → List Constraint
unfolding change_first
change_or_add field f new cs =
    if some_of (has_field field) cs then change_first field f cs else cs ++ new ∷ []

unfoldable pub supplied : String → String → String → String → Constraint
supplied id field value explanation = record {
  id = id;
  field = field;
  operator = "eq";
  value = value;
  units = none;
  origin = confirmed;
  importance = hard;
  explanation = explanation;
  provenance = none;
}

unfoldable pub corrected : String → String → Constraint → Constraint
corrected value explanation c = record c {
  value = value;
  origin = confirmed;
  explanation = explanation;
}

-- A text that is not empty.
abbrev nonempty : Option String → Option String
nonempty none = none
nonempty (some s) = if s == "" then none else some s

unfoldable pub correct_dose : String → Option String → Constraint → Constraint
unfolding corrected template trim
correct_dose value units c =
    let all = or_try (nonempty units) c.units in
    let shown = or_else (or_try units all) "" in
    record (corrected value (trim (template ("Corrected dose to " ∷ value ∷ " " ∷ shown ∷ []))) c) {
      units = all;
    }

unfoldable pub dose_step : Intent → List Constraint → List Constraint
unfolding value_for change_or_add correct_dose supplied
dose_step i cs = elim (value_for "dose" i) [
  | none ↦ cs
  | some v ↦
      change_or_add "dose" (correct_dose v i.units)
        (record (supplied "dose" "dose" v "Dose supplied in correction") { units = i.units }) cs
]

unfoldable pub budget_step : Intent → List Constraint → List Constraint
unfolding value_for change_or_add corrected supplied template
budget_step i cs = elim (value_for "budget" i) [
  | none ↦ cs
  | some v ↦
      change_or_add "budget" (corrected v (template ("Corrected budget to " ∷ v ∷ [])))
        (record (supplied "budget" "budget" v "Budget supplied in correction") { operator = "lte" })
        cs
]

-- `Number(text)` of a decimal literal without a sign, as a numerator over a power of ten; any other
-- text counts as NaN here. Budgets are written in this form by the two functions of the file.
unfoldable pub fraction_of : List Char × List Char → ℕ × ℕ
unfolding number_from
fraction_of (whole, fraction) = (number_from 0 (whole ++ fraction), 10 ^ length fraction)

unfoldable pub number_of : String → Option (ℕ × ℕ)
unfolding test fraction_of split_point chars trim
number_of text =
    if test false (all_of (begin ∷ number ∷ finish ∷ [])) (trim text)
    then some (fraction_of (split_point (chars (trim text))))
    else none

unfoldable pub is_above : Option (ℕ × ℕ) → Option (ℕ × ℕ) → Bool
is_above (some (m, i)) (some (n, j)) = ltb (n * i) (m * j)
is_above _ _ = false

unfoldable pub reopens_budget : Intent → List Constraint → Bool
unfolding value_for number_of is_above
reopens_budget i cs = elim (value_for "budget" i) [
  | none ↦ false
  | some v ↦ elim (find (has_field "budget") cs) [
    | none ↦ false
    | some c ↦ is_above (number_of v) (number_of c.value)
  ]
]

unfoldable pub geography_step : Intent → List Constraint → List Constraint
unfolding value_for change_or_add corrected supplied template dashed
geography_step i cs = elim (value_for "geography" i) [
  | none ↦ cs
  | some v ↦
      change_or_add "geography" (corrected v (template ("Corrected geography to " ∷ v ∷ [])))
        (supplied (template ("geo-" ∷ dashed v ∷ [])) "geography" v
          (template ("Correction requires " ∷ v ∷ [])))
        cs
]

unfoldable pub reopens_geography : Intent → List Constraint → Bool
unfolding value_for
reopens_geography i cs = elim (value_for "geography" i) [
  | none ↦ false
  | some v ↦ elim (find (has_field "geography") cs) [ none ↦ true | some c ↦ not (c.value == v) ]
]

unfoldable pub is_platform : String → Constraint → Bool
is_platform v c = c.field == "platform" && c.value == v

unfoldable pub platform_step : Intent → List Constraint → List Constraint
unfolding value_for is_platform supplied template
platform_step i cs = elim (value_for "platform" i) [
  | none ↦ cs
  | some v ↦
      if i.drop
      then select (λ c. not (is_platform v c)) cs
      else if some_of (is_platform v) cs
      then cs
      else cs
        ++ supplied (template ("platform-" ∷ v ∷ [])) "platform" v
            (template ("Correction requires " ∷ v ∷ []))
          ∷ []
]

unfoldable pub reopens_platform : Intent → List Constraint → Bool
unfolding value_for is_platform
reopens_platform i cs = elim (value_for "platform" i) [
  | none ↦ false
  | some v ↦ i.drop && not (nat_eq (length (select (λ c. not (is_platform v c)) cs)) (length cs))
]

pub record Correction : Type 0 where
  pub next : List Constraint
  pub reopened_discovery : Bool

unfoldable pub apply_intent : Intent → List Constraint → Correction
unfolding dose_step budget_step geography_step platform_step reopens_budget reopens_geography
    reopens_platform
apply_intent i cs =
    let dosed = dose_step i cs in
    let budgeted = budget_step i dosed in
    let located = geography_step i budgeted in
    record {
      next = platform_step i located;
      reopened_discovery =
          reopens_budget i dosed
          || reopens_geography i budgeted
          || reopens_platform i located
          || i.relaxed_hard_constraint;
    }

unfoldable pub apply_correction_to_constraints : List Constraint → String → Correction
unfolding apply_intent parse_correction
apply_correction_to_constraints constraints correction =
    apply_intent (parse_correction correction) constraints
