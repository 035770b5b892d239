-- ===== src/Calculation/Totality.antt =====
-- `calculateEvidence` builds a result for every action that its schema admits.
use deep_research_app.Text.{chars}
use deep_research_app.Calculation.Outcome.{Gathered-cases, when-some}
use Prim.Native.Char.{Char}
use deep_research_app.Calculation.Gathering.{gathered, gather, refused}
use deep_research_app.Calculation.Grounded.{AreGrounded, gather-Gathers}
use deep_research_app.Calculation.Quantities.{
  decimal_value, decimal_of, Assertion, split_point, unsigned,
}
use deep_research_app.Calculation.Evaluation.{
  finished, calculate_evidence, built_result, parse_built, parse_result,
}
use deep_research_app.Calculation.Fractions.Lowest.{IsLowest-is_zero, reduce_iff}
use deep_research_app.Calculation.Sums.{HasDenominator}
use deep_research_app.Calculation.Fractions.{Rational}
use deep_research_app.Calculation.Shapes.{
  Formula, Input, is_sum, sum, annual_cost, has_wrong_arity, Action, arity, is_action, Result,
  is_result,
}
use deep_research_app.Calculation.Formulas.{evaluate}
use deep_research_app.Base.{
  refl, ◌≡◌, Bool, String, false, List, is_some, All, true, arith, ◌∷◌, Bool-cases, inl, inr, [],
  if◌then◌else◌, some, leb, none, length, map, ◌⊎◌, ◌<◌, ap, sym, suc, ◌∙◌, Option-cases,
}
use deep_research_app.Calculation.Denominators.{
  annual-some, evaluate-some, evaluated-some, is_pair, sum-some,
}

decimal_of-HasDenominator :
    (text : String) (parts : List Char × List Char) (r : Rational)
    → decimal_of text parts ≡ some r
    → HasDenominator r
unfolding decimal_of
decimal_of-HasDenominator text (whole, fraction) r e =
    IsLowest-is_zero _ _ r ((reduce_iff _ _ r).0 e).1

decimal_value-HasDenominator :
    (text : String) (r : Rational) → decimal_value text ≡ some r → HasDenominator r
unfolding decimal_value
decimal_value-HasDenominator text r e =
    decimal_of-HasDenominator text (split_point (unsigned (chars text))) r (when-some _ _ r e)

grounded-HasDenominator :
    (assertions : List Assertion) (supported : List String) (inputs : List Input)
    (numbers : List Rational)
    → AreGrounded assertions supported inputs numbers
    → All HasDenominator numbers
unfolding AreGrounded
grounded-HasDenominator assertions supported [] [] g = tt
grounded-HasDenominator assertions supported [] (v ∷ vs) g = elim g [ ]
grounded-HasDenominator assertions supported (i ∷ is) [] g = elim g [ ]
grounded-HasDenominator assertions supported (i ∷ is) (v ∷ vs) (g, gs) = (
  decimal_value-HasDenominator g.quantity.value v g.has_value,
  grounded-HasDenominator assertions supported is vs gs,
)

refused-some :
    (f : Formula) (reason : String) (inputs : List Input)
    → is_some (finished f (refused reason inputs)) ≡ true
unfolding finished
refused-some f reason inputs = refl

pair-arity :
    (a : Action) → has_wrong_arity a ≡ false → is_pair a.formula ≡ true → length a.inputs ≡ 2
unfolding has_wrong_arity arity is_pair is_sum
pair-arity a w p = ground (arith, w, p)

Formula-cases : (f : Formula) → (f ≡ sum) ⊎ ((f ≡ annual_cost) ⊎ (is_pair f ≡ true))
unfolding is_pair
Formula-cases f = ground arith

-- Where the formula takes two inputs there is a second one.
evaluate-total :
    (f : Formula) (i : Input) (js : List Input) (r : Rational) (ss : List Rational)
    → (is_pair f ≡ true → 0 < length js)
    → length js ≡ length ss
    → All HasDenominator (r ∷ ss)
    → is_some (evaluate f i js r ss) ≡ true
unfolding evaluate
evaluate-total f i js r ss two same (h, hs) = elim (Formula-cases f) [
  | inl e ↦ rw e (sum-some i js r ss h hs)
  | inr (inl e) ↦ rw e (annual-total i js r ss h)
  | inr (inr p) ↦ paired js ss (two p) same hs p
]
  where
    annual-total :
        (i : Input) (js : List Input) (r : Rational) (ss : List Rational)
        → HasDenominator r
        → is_some (evaluate annual_cost i js r ss) ≡ true
    annual-total i js r ss h = annual-some i r h

    paired :
        (js : List Input) (ss : List Rational)
        → 0 < length js
        → length js ≡ length ss
        → All HasDenominator ss
        → is_pair f ≡ true
        → is_some (evaluate f i js r ss) ≡ true
    paired [] ss l e hs p = absurd (omega (arith, l))
    paired (j ∷ js) [] l e hs p = absurd (omega (arith, e))
    paired (j ∷ js) (s ∷ ss) l e (k, ks) p = evaluate-some f i j js r s ss p h k

grounded-length :
    (assertions : List Assertion) (supported : List String) (inputs : List Input)
    (numbers : List Rational)
    → AreGrounded assertions supported inputs numbers
    → length inputs ≡ length numbers
unfolding AreGrounded
grounded-length assertions supported [] [] g = refl
grounded-length assertions supported [] (v ∷ vs) g = elim g [ ]
grounded-length assertions supported (i ∷ is) [] g = elim g [ ]
grounded-length assertions supported (i ∷ is) (v ∷ vs) (g, gs) =
    ap suc (grounded-length assertions supported is vs gs)

length-map {ℓ κ} :
    {A : Type ℓ} {B : Type κ} (f : A → B) (xs : List A) → length (map f xs) ≡ length xs
length-map f [] = refl
length-map f (x ∷ xs) = ap suc (length-map f xs)

finished-some :
    (a : Action) (assertions : List Assertion) (supported : List String) (inputs : List Input)
    (numbers : List Rational)
    → has_wrong_arity a ≡ false
    → leb 1 (length a.inputs) ≡ true
    → map (λ i. i.reference) inputs ≡ a.inputs
    → AreGrounded assertions supported inputs numbers
    → is_some (finished a.formula (gathered inputs numbers)) ≡ true
unfolding finished
finished-some a assertions supported inputs numbers w l m g =
    shaped inputs numbers (sym (length-map _ inputs) ∙ ap length m)
      (grounded-length assertions supported inputs numbers g)
      (grounded-HasDenominator assertions supported inputs numbers g)
  where
    shaped :
        (inputs : List Input) (numbers : List Rational)
        → length inputs ≡ length a.inputs
        → length inputs ≡ length numbers
        → All HasDenominator numbers
        → is_some (finished a.formula (gathered inputs numbers)) ≡ true
    shaped [] numbers n e hs = absurd (ground (arith, n, l))
    shaped (i ∷ js) [] n e hs = absurd (omega (arith, e))
    shaped (i ∷ js) (r ∷ ss) n e hs =
        evaluated-some a.formula (i ∷ js) (evaluate a.formula i js r ss) (
          evaluate-total a.formula i js r ss (λ p. omega (arith, n, pair-arity a w p))
            (omega (arith, e)) hs)

action-nonempty : (a : Action) → is_action a ≡ true → leb 1 (length a.inputs) ≡ true
unfolding is_action
action-nonempty a v = ground (arith, v)

gathered-some :
    (a : Action) (assertions : List Assertion) (supported : List String)
    → is_action a ≡ true
    → has_wrong_arity a ≡ false
    → is_some (finished a.formula (gather assertions supported a.inputs [] [] [])) ≡ true
gathered-some a assertions supported v w =
    elim (Gathered-cases (gather assertions supported a.inputs [] [] [])) [
      | inl (reason, inputs, g) ↦ rw g (refused-some a.formula reason inputs)
      | inr (inputs, numbers, g) ↦
          let h = gather-Gathers assertions supported a.inputs [] [] inputs [] numbers g in
          rw (g, h.inputs_eq, h.numbers_eq)
            (finished-some a assertions supported h.fresh h.values w (action-nonempty a v)
              h.references_eq h.grounded)
    ]

is_some-guarded {ℓ} : {A : Type ℓ} (b : Bool) (x : A) → is_some (if b then some x else none) ≡ b
is_some-guarded true x = refl
is_some-guarded false x = refl

built_result-some :
    (a : Action) (assertions : List Assertion) (supported : List String)
    → is_action a ≡ true
    → is_some (built_result a assertions supported) ≡ true
unfolding built_result
built_result-some a assertions supported v = elim (Bool-cases (has_wrong_arity a)) [
  | inl w ↦ rw (v, w) refl
  | inr w ↦ rw (v, w) (gathered-some a assertions supported v w)
]

-- For an action that its schema admits, `calculateEvidence` ends in no error but that of the
-- result's schema, whatever the assertions say: a result is built, so no denominator that it
-- reduces is zero and the formula has the inputs it reads, and that result is returned exactly when
-- the result's schema accepts it.
pub is_some-calculate_evidence :
    (is_uuid : String → Bool) (a : Action) (assertions : List Assertion) (supported : List String)
    → is_action a ≡ true
    → (r : Result) × (built_result a assertions supported ≡ some r)
      × (is_some (calculate_evidence is_uuid a assertions supported) ≡ is_result is_uuid r)
      × (is_result is_uuid r ≡ true → calculate_evidence is_uuid a assertions supported ≡ some r)
unfolding calculate_evidence parse_built parse_result
is_some-calculate_evidence is_uuid a assertions supported v =
    elim (Option-cases (built_result a assertions supported)) [
      | inl e ↦ absurd (ground (arith, e, built_result-some a assertions supported v))
      | inr (r, e) ↦ (r, e, rw e (is_some-guarded (is_result is_uuid r) r), λ h. rw (e, h) refl)
    ]
