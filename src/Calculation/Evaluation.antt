-- ===== src/Calculation/Evaluation.antt =====
-- The result of `calculateEvidence` of evidence-calculation.ts.
use deep_research_app.Calculation.Quantities.{Assertion}
use deep_research_app.Calculation.Gathering.{Gathered, gather, refused, gathered}
use deep_research_app.Calculation.Integers.{ℤ, pos, negsuc}
use deep_research_app.Calculation.Formulas.{evaluate, Answer, unanswered, answered}
use deep_research_app.Calculation.Shapes.{
  Formula, is_action, has_wrong_arity, Input, Result, Action, is_result,
}
use deep_research_app.Text.{decimal, template}
use deep_research_app.Base.{
  List, String, Option, none, some, ◌∷◌, [], if◌then◌else◌, suc, not, Bool,
}

-- `bigint.toString()`
unfoldable pub printed : ℤ → String
unfolding decimal template
printed (pos n) = decimal n
printed (negsuc n) = template ("-" ∷ decimal (suc n) ∷ [])

unfoldable pub unknown : Formula → List Input → String → Result
unknown f inputs reason = record {
  formula = f;
  reason = reason;
  inputs = inputs;
  output = none;
  assumptions = [];
}

unfoldable pub result_of : Formula → List Input → Answer → Result
unfolding unknown printed
result_of f inputs (unanswered reason) = unknown f inputs reason
result_of f inputs (answered r unit currency period assumptions) = record {
  formula = f;
  reason = "exact_arithmetic";
  inputs = inputs;
  output = some (record {
    numerator = printed r.n;
    denominator = printed r.d;
    unit = unit;
    currency = currency;
    billing_period = period;
  });
  assumptions = assumptions;
}

unfoldable pub evaluated : Formula → List Input → Option Answer → Option Result
unfolding result_of
evaluated f inputs none = none
evaluated f inputs (some a) = some (result_of f inputs a)

unfoldable pub finished : Formula → Gathered → Option Result
unfolding evaluate evaluated unknown
finished f (refused reason inputs) = some (unknown f inputs reason)
finished f (gathered (i ∷ js) (r ∷ ss)) = evaluated f (i ∷ js) (evaluate f i js r ss)
finished f (gathered _ _) = none

-- The result before its schema reads it. `none` stands for an error that is thrown: by the schema of
-- the action, by `reduce`, or by a read of an input that is not there.
unfoldable pub built_result : Action → List Assertion → List String → Option Result
unfolding is_action has_wrong_arity gather finished unknown
built_result a assertions supported =
    if not (is_action a)
    then none
    else if has_wrong_arity a
    then some (unknown a.formula [] "invalid_formula_arity")
    else finished a.formula (gather assertions supported a.inputs [] [] [])

-- `EvidenceCalculationResultSchema.parse(result)`, with `none` for the error it throws.
unfoldable pub parse_result : (String → Bool) → Result → Option Result
unfolding is_result
parse_result is_uuid r = if is_result is_uuid r then some r else none

unfoldable pub parse_built : (String → Bool) → Option Result → Option Result
unfolding parse_result
parse_built is_uuid none = none
parse_built is_uuid (some r) = parse_result is_uuid r

-- Every result, computed or unknown, passes its schema; `is_uuid` is the schema library's test.
-- `none` stands for any error that is thrown.
unfoldable pub calculate_evidence :
    (String → Bool) → Action → List Assertion → List String → Option Result
unfolding built_result parse_built
calculate_evidence is_uuid a assertions supported =
    parse_built is_uuid (built_result a assertions supported)
