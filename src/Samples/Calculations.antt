-- ===== src/Samples/Calculations.antt =====
-- A calculation on two cited prices.
use deep_research_app.Regex.{is_digit}
use Prim.Native.Char.{Char, code}
use deep_research_app.Calculation.Outcome.{calculate_evidence-AreGrounded}
use deep_research_app.Calculation.Gathering.{gathered}
use deep_research_app.Text.{is_space, chars}
use deep_research_app.Calculation.Totality.{is_some-calculate_evidence}
use deep_research_app.Calculation.Fractions.Lowest.{IsLowest, reduce_iff}
use deep_research_app.Calculation.Grounded.{AreGrounded, AreSeparate}
use deep_research_app.Calculation.Sums.{exact_sum, total-exact_sum, sum_of-difference_of}
use deep_research_app.Calculation.Fractions.Gcd.{IsGcd, euclid-IsGcd}
use deep_research_app.Calculation.Formulas.{total}
use deep_research_app.Calculation.Integers.{pos, negsuc, quot, ◌*ℤ◌, ◌-ℤ◌}
use deep_research_app.Calculation.Quantities.{Quantity, Assertion}
use deep_research_app.Calculation.Formulas.{difference_of, total, sum_of}
use deep_research_app.Calculation.Fractions.{Rational, reduce, is_zero, euclid}
use deep_research_app.Calculation.Evaluation.{calculate_evidence, finished, built_result}
use deep_research_app.Calculation.Shapes.{
  Action, Input, Output, Result, difference, is_action, is_result,
}
use deep_research_app.Base.{
  refl, ◌≡◌, String, List, ℕ, is_some, ◌∷◌, some, map, [], none, ◌↔◌, false, arith, Bool, true,
  nat_eq, length, ◌||◌, ◌&&◌, leb, every,
}

abbrev pro_passage : String
pro_passage = "8f14e45f-ceea-467d-9b1a-0c5e3f7a2d01"

abbrev team_passage : String
team_passage = "8f14e45f-ceea-467d-9b1a-0c5e3f7a2d02"

-- A coarse test of an identifier: 36 hexadecimal digits and dashes.
abbrev is_uuid_char : Char → Bool
is_uuid_char c =
    is_digit (code c) || (leb b'a' (code c) && leb (code c) b'f') || nat_eq (code c) b'-'

abbrev is_uuid : String → Bool
is_uuid s = nat_eq (length (chars s)) 36 && every is_uuid_char (chars s)

abbrev price : String → Quantity
price value = record {
  value = value;
  unit = "USD";
  currency = some "USD";
  billing_period = some "month";
  qualifier = none;
}

abbrev cited : String → String → String → String → Assertion
cited key passage text value = record {
  key = key;
  text = text;
  quantities = price value ∷ [];
  evidence = record { passage_id = passage; start = 40; end = 70; quote = text } ∷ [];
}

abbrev prices : List Assertion
prices =
    cited "pro" pro_passage "Pro costs 12.50 USD per month" "12.50"
    ∷ cited "team" team_passage "Team costs 30 USD per month" "30"
    ∷ []

abbrev gap_of_prices : Action
gap_of_prices = record {
  formula = difference;
  inputs =
      record { claim_key = "team"; quantity_index = 0 }
      ∷ record { claim_key = "pro"; quantity_index = 0 }
      ∷ [];
}

abbrev team_input : Input
team_input = record {
  reference = record { claim_key = "team"; quantity_index = 0 };
  value = "30";
  evidence =
      record { passage_id = team_passage; start = 51; end = 67; quote = "30 USD per month" } ∷ [];
  unit = "USD";
  currency = some "USD";
  billing_period = some "month";
}

abbrev pro_input : Input
pro_input = record {
  reference = record { claim_key = "pro"; quantity_index = 0 };
  value = "12.50";
  evidence =
      record { passage_id = pro_passage; start = 50; end = 69; quote = "12.50 USD per month" } ∷ [];
  unit = "USD";
  currency = some "USD";
  billing_period = some "month";
}

abbrev gap_output : Output
gap_output = record {
  numerator = "35";
  denominator = "2";
  unit = "USD";
  currency = some "USD";
  billing_period = some "month";
}

abbrev gap_result : Result
gap_result = record {
  formula = difference;
  reason = "exact_arithmetic";
  inputs = team_input ∷ pro_input ∷ [];
  output = some gap_output;
  assumptions =
      "Arithmetic on the cited inputs only; matching units do not establish matching scope, independent observations or a verified real-world total."
      ∷ [];
}

gap_computed :
    calculate_evidence is_uuid gap_of_prices prices ("pro" ∷ "team" ∷ []) ≡ some gap_result
unfolding calculate_evidence chars reduce euclid quot ◌*ℤ◌ ◌-ℤ◌ is_space
gap_computed = refl

euclid-IsGcd_example : (g : ℕ) × (euclid 18 24 18 ≡ some g) × IsGcd 24 18 g
euclid-IsGcd_example = euclid-IsGcd 18 24 18 (omega arith)

abbrev half : Rational
half = record { n = pos 1; d = pos 2 }

reduce_iff_example :
    (reduce (negsuc 5) (negsuc 11) ≡ some half)
    ↔ ((is_zero (negsuc 11) ≡ false) × IsLowest (negsuc 5) (negsuc 11) half)
reduce_iff_example = reduce_iff (negsuc 5) (negsuc 11) half

third : Rational
third = record { n = pos 1; d = pos 3 }

half-IsLowest : IsLowest (pos 1) (pos 2) half
unfolding reduce euclid quot
half-IsLowest = ((reduce_iff (pos 1) (pos 2) half).0 refl).1

total-exact_sum_example :
    total half (third ∷ half ∷ [])
    ≡ reduce (exact_sum half (third ∷ half ∷ [])).n (exact_sum half (third ∷ half ∷ [])).d
unfolding third is_zero
total-exact_sum_example = total-exact_sum half (third ∷ half ∷ []) half-IsLowest (refl, (refl, tt))

sum_of-difference_of_example : sum_of (record { n = pos 1; d = pos 6 }) third ≡ some half
unfolding third difference_of reduce euclid quot ◌*ℤ◌ ◌-ℤ◌
sum_of-difference_of_example =
    sum_of-difference_of half third (record { n = pos 1; d = pos 6 }) half-IsLowest refl refl

calculate_evidence-AreGrounded_example :
    (numbers : List Rational) × (map (λ i. i.reference) gap_result.inputs ≡ gap_of_prices.inputs)
    × AreGrounded prices ("pro" ∷ "team" ∷ []) gap_result.inputs numbers
    × AreSeparate [] gap_result.inputs
    × (finished difference (gathered gap_result.inputs numbers) ≡ some gap_result)
calculate_evidence-AreGrounded_example =
    calculate_evidence-AreGrounded is_uuid gap_of_prices prices ("pro" ∷ "team" ∷ []) gap_result
      gap_output gap_computed refl

gap-is_action : is_action gap_of_prices ≡ true
unfolding is_action
gap-is_action = refl

is_some-calculate_evidence_example :
    (r : Result) × (built_result gap_of_prices prices [] ≡ some r)
    × (is_some (calculate_evidence is_uuid gap_of_prices prices []) ≡ is_result is_uuid r)
    × (is_result is_uuid r ≡ true → calculate_evidence is_uuid gap_of_prices prices [] ≡ some r)
is_some-calculate_evidence_example =
    is_some-calculate_evidence is_uuid gap_of_prices prices [] gap-is_action
