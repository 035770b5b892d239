-- ===== src/Calculation/Denominators.antt =====
-- The formulas have an answer wherever no number has a zero denominator.
use deep_research_app.Calculation.Evaluation.{evaluated}
use deep_research_app.Calculation.Fractions.Lowest.{reduce-some, is_zero-*ℤ, IsLowest-is_zero}
use deep_research_app.Calculation.Sums.{HasDenominator, sum_of-some}
use deep_research_app.Calculation.Fractions.{is_zero, Rational, reduce}
use deep_research_app.Calculation.Shapes.{
  Formula, Input, is_sum, sum, annual_cost, difference, product, ratio, percentage,
}
use deep_research_app.Calculation.Integers.{ℤ, ◌*ℤ◌, pos}
use deep_research_app.Calculation.Formulas.{
  answer, total, annual_of, product_of, quotient_of, pair_of, evaluate, over, difference_of,
  is_monthly_currency, is_count, Answer, is_same, unanswered,
}
use deep_research_app.Base.{
  refl, ◌≡◌, Option, Bool, String, false, List, is_some, All, ℕ, true, arith, ◌∷◌, Bool-cases, inl,
  inr, [], if◌then◌else◌, not, every, some, none,
}

answer-some :
    (o : Option Rational) (unit : String) (currency period : Option String) (more : List String)
    → is_some o ≡ true
    → is_some (answer o unit currency period more) ≡ true
unfolding answer
answer-some o unit currency period more h = ground (arith, h)

reduce-is_some : (n d : ℤ) → is_zero d ≡ false → is_some (reduce n d) ≡ true
reduce-is_some n d h = let (q, e, _) = reduce-some n d h in rw e refl

total-is_some :
    (r : Rational) (ss : List Rational)
    → HasDenominator r
    → All HasDenominator ss
    → is_some (total r ss) ≡ true
unfolding total
total-is_some r [] h hs = refl
total-is_some r (s ∷ ss) h hs =
    let (t, e, i) = sum_of-some r s h hs.0 in
    rw (total, e) (total-is_some t ss (IsLowest-is_zero _ _ t i) hs.1)

either-some {ℓ} :
    {A : Type ℓ} (b : Bool) (x y : Option A)
    → is_some x ≡ true
    → is_some y ≡ true
    → is_some (if b then x else y) ≡ true
either-some true x y hx hy = hx
either-some false x y hx hy = hy

pub annual-some : (i : Input) (r : Rational) → HasDenominator r → is_some (annual_of i r) ≡ true
unfolding annual_of
annual-some i r h =
    either-some (is_monthly_currency i) _ _
      (answer-some _ _ _ _ _ (reduce-is_some (r.n *ℤ pos 12) r.d h)) refl

product-some :
    (i j : Input) (r s : Rational)
    → HasDenominator r
    → HasDenominator s
    → is_some (product_of i j r s) ≡ true
unfolding product_of
product-some i j r s h k =
    either-some (is_count j s) _ _
      (answer-some _ _ _ _ _ (reduce-is_some (r.n *ℤ s.n) (r.d *ℤ s.d) (is_zero-*ℤ r.d s.d h k)))
      refl

quotient-some :
    (unit : String) (scale : ℕ) (r s : Rational)
    → HasDenominator r
    → is_some (quotient_of unit scale r s) ≡ true
unfolding quotient_of answer over
quotient-some unit scale r s h = elim (Bool-cases (is_zero s.n)) [
  | inl z ↦ ground (arith, z)
  | inr z ↦
      ground
        (arith, z, reduce-is_some (r.n *ℤ s.d *ℤ pos scale) (r.d *ℤ s.n) (is_zero-*ℤ r.d s.n h z))
]

-- The formulas of two inputs.
unfoldable pub is_pair : Formula → Bool
is_pair sum = false
is_pair annual_cost = false
is_pair _ = true

pair-some :
    (f : Formula) (i j : Input) (js : List Input) (r s : Rational) (ss : List Rational)
    → is_pair f ≡ true
    → HasDenominator r
    → HasDenominator s
    → is_some (pair_of f i (j ∷ js) r (s ∷ ss)) ≡ true
unfolding pair_of is_pair difference_of
pair-some sum i j js r s ss p h k = absurd (ground (arith, p))
pair-some annual_cost i j js r s ss p h k = absurd (ground (arith, p))
pair-some difference i j js r s ss p h k =
    answer-some _ _ _ _ _ (reduce-is_some _ _ (is_zero-*ℤ r.d s.d h k))
pair-some product i j js r s ss p h k = product-some i j r s h k
pair-some ratio i j js r s ss p h k = quotient-some "ratio" 1 r s h
pair-some percentage i j js r s ss p h k = quotient-some "percent" 100 r s h

pub sum-some :
    (i : Input) (js : List Input) (r : Rational) (ss : List Rational)
    → HasDenominator r
    → All HasDenominator ss
    → is_some (evaluate sum i js r ss) ≡ true
unfolding evaluate is_sum
sum-some i js r ss h hs =
    either-some (not (every (is_same i) (i ∷ js))) _ _ refl
      (answer-some _ _ _ _ _ (total-is_some r ss h hs))

same-some :
    (f : Formula) (i j : Input) (js : List Input) (r s : Rational) (ss : List Rational)
    → is_pair f ≡ true
    → HasDenominator r
    → HasDenominator s
    → is_some (
        if not (every (is_same i) (i ∷ j ∷ js))
        then some (unanswered "incompatible_units_currency_or_period")
        else pair_of f i (j ∷ js) r (s ∷ ss))
      ≡ true
same-some f i j js r s ss p h k =
    either-some (not (every (is_same i) (i ∷ j ∷ js))) _ _ refl (pair-some f i j js r s ss p h k)

pub evaluate-some :
    (f : Formula) (i j : Input) (js : List Input) (r s : Rational) (ss : List Rational)
    → is_pair f ≡ true
    → HasDenominator r
    → HasDenominator s
    → is_some (evaluate f i (j ∷ js) r (s ∷ ss)) ≡ true
unfolding evaluate is_pair is_sum
evaluate-some sum i j js r s ss p h k = absurd (ground (arith, p))
evaluate-some annual_cost i j js r s ss p h k = absurd (ground (arith, p))
evaluate-some difference i j js r s ss p h k = same-some difference i j js r s ss p h k
evaluate-some product i j js r s ss p h k = pair-some product i j js r s ss p h k
evaluate-some ratio i j js r s ss p h k = same-some ratio i j js r s ss p h k
evaluate-some percentage i j js r s ss p h k = same-some percentage i j js r s ss p h k

pub evaluated-some :
    (f : Formula) (inputs : List Input) (o : Option Answer)
    → is_some o ≡ true
    → is_some (evaluated f inputs o) ≡ true
unfolding evaluated
evaluated-some f inputs none h = absurd (ground (arith, h))
evaluated-some f inputs (some a) h = refl
