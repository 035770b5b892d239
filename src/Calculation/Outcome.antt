-- ===== src/Calculation/Outcome.antt =====
-- When `calculateEvidence` has a result, and what a computed result says.
use deep_research_app.Calculation.Grounded.{AreGrounded, AreSeparate, gather-Gathers}
use deep_research_app.Calculation.Fractions.{Rational}
use deep_research_app.Calculation.Quantities.{Assertion}
use deep_research_app.Calculation.Shapes.{
  Action, Formula, Input, Result, Output, has_wrong_arity, is_result,
}
use deep_research_app.Calculation.Evaluation.{
  finished, unknown, calculate_evidence, evaluated, result_of, built_result, parse_built,
  parse_result,
}
use deep_research_app.Calculation.Gathering.{Gathered, refused, gathered, gather}
use mathlib.Core.Path.{ap}
use deep_research_app.Base.{
  ◌∙◌, refl, ◌≡◌, String, List, ◌⊎◌, inl, some, inr, ◌≢◌, arith, map, [], Bool-cases, ◌∙◌, Bool,
  Option, if◌then◌else◌, none, true, false,
}

pub Gathered-cases :
    (x : Gathered)
    → ((reason : String) × (inputs : List Input) × (x ≡ refused reason inputs))
      ⊎ ((inputs : List Input) × (numbers : List Rational) × (x ≡ gathered inputs numbers))
Gathered-cases (refused reason inputs) = inl (reason, inputs, refl)
Gathered-cases (gathered inputs numbers) = inr (inputs, numbers, refl)

finished-refused :
    (f : Formula) (reason : String) (inputs : List Input) (result : Result) (out : Output)
    → finished f (refused reason inputs) ≡ some result
    → result.output ≢ some out
unfolding finished unknown
finished-refused f reason inputs result out e o = ground (arith, e, o)

unknown-output :
    (f : Formula) (reason : String) (inputs : List Input) (result : Result) (out : Output)
    → some (unknown f inputs reason) ≡ some result
    → result.output ≢ some out
unfolding unknown
unknown-output f reason inputs result out e o = ground (arith, e, o)

finished-inputs :
    (f : Formula) (inputs : List Input) (numbers : List Rational) (result : Result)
    → finished f (gathered inputs numbers) ≡ some result
    → result.inputs ≡ inputs
unfolding finished evaluated result_of unknown
finished-inputs f inputs numbers result e = ground (arith, e)

calculate-finished :
    (a : Action) (assertions : List Assertion) (supported : List String) (result : Result)
    (out : Output)
    → built_result a assertions supported ≡ some result
    → result.output ≡ some out
    → finished a.formula (gather assertions supported a.inputs [] [] []) ≡ some result
unfolding built_result
calculate-finished a assertions supported result out e o = elim (Bool-cases (has_wrong_arity a)) [
  | inl w ↦
      absurd
        (unknown-output a.formula "invalid_formula_arity" [] result out (ground (arith, e, w)) o)
  | inr w ↦ ground (arith, e, w)
]

pub when-some {ℓ} :
    {A : Type ℓ} (b : Bool) (x : Option A) (a : A) → (if b then x else none) ≡ some a → x ≡ some a
when-some true x a e = e
when-some false x a e = absurd (ground (arith, e))

parse_built-some :
    (is_uuid : String → Bool) (built : Option Result) (result : Result)
    → parse_built is_uuid built ≡ some result
    → built ≡ some result
unfolding parse_built parse_result
parse_built-some is_uuid none result e = ground (arith, e)
parse_built-some is_uuid (some r) result e = when-some (is_result is_uuid r) (some r) result e

calculate-built :
    (is_uuid : String → Bool) (a : Action) (assertions : List Assertion) (supported : List String)
    (result : Result)
    → calculate_evidence is_uuid a assertions supported ≡ some result
    → built_result a assertions supported ≡ some result
unfolding calculate_evidence
calculate-built is_uuid a assertions supported result e = parse_built-some is_uuid _ result e

-- A result is computed only from grounded inputs: it has one input for each reference of the action,
-- in order; the claim of each is the only one with its key and is supported; its quantity reads as a
-- number and is bound to the words of the claim and of the evidence; no two inputs share evidence;
-- and the output is what the formula gives for those inputs and numbers.
pub calculate_evidence-AreGrounded :
    (is_uuid : String → Bool) (a : Action) (assertions : List Assertion) (supported : List String)
    (result : Result) (out : Output)
    → calculate_evidence is_uuid a assertions supported ≡ some result
    → result.output ≡ some out
    → (numbers : List Rational) × (map (λ i. i.reference) result.inputs ≡ a.inputs)
      × AreGrounded assertions supported result.inputs numbers
      × AreSeparate [] result.inputs
      × (finished a.formula (gathered result.inputs numbers) ≡ some result)
calculate_evidence-AreGrounded is_uuid a assertions supported result out e o =
    let built = calculate-built is_uuid a assertions supported result e in
    let done = calculate-finished a assertions supported result out built o in
    elim (Gathered-cases (gather assertions supported a.inputs [] [] [])) [
      | inl (reason, inputs, g) ↦
          absurd (finished-refused a.formula reason inputs result out (rw g at done) o)
      | inr (inputs, numbers, g) ↦
          let h = gather-Gathers assertions supported a.inputs [] [] inputs [] numbers g in
          let done' = rw g at done in
          let same = finished-inputs a.formula inputs numbers result done' in
          let all = same ∙ h.inputs_eq in
          (
            numbers,
            rw all h.references_eq,
            rw (all, h.numbers_eq) h.grounded,
            rw all h.separate,
            ap (λ x. finished a.formula (gathered x numbers)) same ∙ done',
          )
    ]
