-- ===== src/Calculation/Formulas.antt =====
-- The formulas of `calculateEvidence`, on the inputs and numbers that the loop gathered.
use deep_research_app.Calculation.Integers.{ℤ, ◌*ℤ◌, pos, ◌+ℤ◌, ◌-ℤ◌, negsuc}
use deep_research_app.Calculation.Fractions.{Rational, is_zero, reduce, is_negative}
use deep_research_app.Calculation.Shapes.{
  Input, Formula, product, is_sum, difference, ratio, annual_cost, percentage,
}
use deep_research_app.Base.{
  String, Option, List, Bool, ◌∷◌, some, if◌then◌else◌, ℕ, ◌==◌, [], ◌&&◌, none, true, not, false,
  ◌||◌, every, some_of, nat_eq, is_some, same_option,
}

-- What the formula gives: a reason why it is unknown, or its value and what it is a value of.
pub data Answer : Type 0 where
  unanswered : (reason : String) → Answer
  answered :
      Rational
      → (unit : String) → (currency : Option String) → (billing_period : Option String)
      → (assumptions : List String) → Answer

unfoldable pub is_same : Input → Input → Bool
unfolding same_option
is_same first i =
    i.unit == first.unit
    && same_option i.currency first.currency
    && same_option i.billing_period first.billing_period

abbrev currencies : List String
currencies =
    "USD" ∷ "EUR" ∷ "GBP" ∷ "CAD" ∷ "AUD" ∷ "NZD" ∷ "JPY" ∷ "CHF" ∷ "CNY" ∷ "INR" ∷ "HKD" ∷ "SGD"
    ∷ "SEK" ∷ "NOK" ∷ "DKK" ∷ "KRW" ∷ "BRL" ∷ "MXN" ∷ "ZAR" ∷ []

abbrev arithmetic_only : String
arithmetic_only =
    "Arithmetic on the cited inputs only; matching units do not establish matching scope, independent observations or a verified real-world total."

abbrev twelve_charges : String
twelve_charges =
    "Assumes twelve identical monthly charges; unreported taxes, fees, discounts and rate changes are excluded."

unfoldable pub answer :
    Option Rational → String → Option String → Option String → List String → Option Answer
answer none unit currency period more = none
answer (some value) unit currency period more =
    some (answered value unit currency period (arithmetic_only ∷ more))

unfoldable pub is_monthly_currency : Input → Bool
unfolding same_option
is_monthly_currency i =
    same_option i.billing_period (some "month")
    && elim i.currency [ none ↦ false | some c ↦ some_of (λ k. k == c) currencies ]

-- Here and below, `none` stands for an error that `reduce` throws.
unfoldable pub annual_of : Input → Rational → Option Answer
unfolding is_monthly_currency answer
annual_of i r =
    if is_monthly_currency i
    then answer (reduce (r.n *ℤ pos 12) r.d) i.unit i.currency (some "year") (twelve_charges ∷ [])
    else some (unanswered "annual_cost_requires_explicit_monthly_currency")

unfoldable pub is_count : Input → Rational → Bool
is_count i r =
    i.unit == "count"
    && not (is_some i.currency)
    && not (is_some i.billing_period)
    && not (is_negative r.n)
    && is_one r.d
  where
    is_one : ℤ → Bool
    is_one (pos n) = nat_eq n 1
    is_one (negsuc n) = false

unfoldable pub product_of : Input → Input → Rational → Rational → Option Answer
unfolding is_count answer
product_of first second r s =
    if is_count second s
    then answer (reduce (r.n *ℤ s.n) (r.d *ℤ s.d)) first.unit first.currency first.billing_period []
    else some (unanswered "product_requires_explicit_count_multiplier")

unfoldable pub sum_of : Rational → Rational → Option Rational
sum_of r s = reduce (r.n *ℤ s.d +ℤ s.n *ℤ r.d) (r.d *ℤ s.d)

unfoldable pub total : Rational → List Rational → Option Rational
unfolding sum_of
total r [] = some r
total r (s ∷ ss) = elim (sum_of r s) [ none ↦ none | some t ↦ total t ss ]

unfoldable pub difference_of : Rational → Rational → Option Rational
difference_of r s = reduce (r.n *ℤ s.d -ℤ s.n *ℤ r.d) (r.d *ℤ s.d)

unfoldable pub over : Rational → Rational → ℕ → Option Rational
over r s scale = reduce (r.n *ℤ s.d *ℤ pos scale) (r.d *ℤ s.n)

unfoldable pub points : String → String
points unit =
    if unit == "%" || unit == "percent" || unit == "percentage" then "percentage points" else unit

unfoldable pub quotient_of : String → ℕ → Rational → Rational → Option Answer
unfolding over answer is_zero
quotient_of unit scale r s =
    if is_zero s.n
    then some (unanswered "zero_denominator")
    else answer (over r s scale) unit none none []

-- The formulas of two inputs. The wrong arities do not get here.
unfoldable pub pair_of : Formula → Input → List Input → Rational → List Rational → Option Answer
unfolding product_of difference_of answer points quotient_of
pair_of product i (j ∷ js) r (s ∷ ss) = product_of i j r s
pair_of difference i (j ∷ js) r (s ∷ ss) =
    answer (difference_of r s) (points i.unit) i.currency i.billing_period []
pair_of ratio i (j ∷ js) r (s ∷ ss) = quotient_of "ratio" 1 r s
pair_of percentage i (j ∷ js) r (s ∷ ss) = quotient_of "percent" 100 r s
pair_of _ i js r ss = none

abbrev is_product : Formula → Bool
is_product product = true
is_product _ = false

unfoldable pub evaluate : Formula → Input → List Input → Rational → List Rational → Option Answer
unfolding annual_of pair_of is_same total answer
evaluate annual_cost i js r ss = annual_of i r
evaluate f i js r ss =
    if is_product f
    then pair_of f i js r ss
    else if not (every (is_same i) (i ∷ js))
    then some (unanswered "incompatible_units_currency_or_period")
    else if is_sum f
    then answer (total r ss) i.unit i.currency i.billing_period []
    else pair_of f i js r ss
