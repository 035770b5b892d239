-- ===== src/Samples/Corrections.antt =====
-- Corrections of a brief with a place and a budget.
use deep_research_app.Brief.Given.{apply_intent-find}
use deep_research_app.Brief.Kept.{apply_intent-select}
use deep_research_app.Brief.{stated}
use deep_research_app.Text.{is_space}
use deep_research_app.Types.{Constraint}
use deep_research_app.Brief.Changes.{apply_correction_to_constraints, has_field, apply_intent}
use deep_research_app.Brief.Correction.{Intent, parse_correction, change_of}
use deep_research_app.Base.{refl, ◌≡◌, List, true, select, find, none, ◌∷◌, some, [], inr}

abbrev in_germany : List Constraint
in_germany =
    record (stated "geo-germany" "geography" "germany" "Question names geography: germany") {
      provenance = none;
    }
    ∷ record (stated "budget" "budget" "1500" "Question names budget 1500 EUR") { operator = "lte" }
    ∷ []

abbrev to_france : Intent
to_france = change_of "geography" "france" true

parsed : parse_correction "Actually, use France instead" ≡ to_france
unfolding parse_correction is_space
parsed = refl

apply_intent-select_example :
    select (has_field "budget") (apply_intent to_france in_germany).next
    ≡ select (has_field "budget") in_germany
unfolding change_of
apply_intent-select_example = apply_intent-select to_france in_germany "budget" refl

apply_intent-find_example :
    (c : Constraint) × (find (has_field "geography") (apply_intent to_france in_germany).next
      ≡ some c)
    × (c.value ≡ "france")
unfolding change_of
apply_intent-find_example =
    apply_intent-find to_france in_germany "geography" "france" (inr (inr refl)) refl refl refl

-- A lowered budget reopens the discovery like a raised one.
lowered_budget :
    (apply_correction_to_constraints in_germany "The budget is 900").reopened_discovery ≡ true
unfolding apply_correction_to_constraints is_space stated
lowered_budget = refl
