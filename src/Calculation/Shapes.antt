-- ===== src/Calculation/Shapes.antt =====
-- The shapes of the action and the result of a calculation, from
-- packages/contracts/src/calculation-action.ts and packages/contracts/src/evidence-calculation.ts.
use Prim.Native.Char.{Char, code}
use deep_research_app.Regex.{is_letter, is_digit}
use deep_research_app.Calculation.Quantities.{Evidence}
use deep_research_app.Text.{decimal, chars, template}
use deep_research_app.Base.{
  String, List, ℕ, Option, Bool, every, true, some, ◌||◌, ◌∷◌, ◌&&◌, none, false, leb, not, nat_eq,
  length, map, ltb, [], is_distinct, if◌then◌else◌,
}

pub data Formula : Type 0 where
  sum difference product ratio percentage annual_cost : Formula

pub record Reference : Type 0 where
  pub claim_key : String
  pub quantity_index : ℕ

pub record Action : Type 0 where
  pub formula : Formula
  pub inputs : List Reference

pub record Input : Type 0 where
  pub reference : Reference
  pub value : String
  pub evidence : List Evidence
  pub unit : String
  pub currency : Option String
  pub billing_period : Option String

pub record Output : Type 0 where
  pub numerator : String
  pub denominator : String
  pub unit : String
  pub currency : Option String
  pub billing_period : Option String

-- The status of a result is `computed` exactly when it has an output.
pub record Result : Type 0 where
  pub formula : Formula
  pub reason : String
  pub inputs : List Input
  pub output : Option Output
  pub assumptions : List String

abbrev is_key_char : ℕ → Bool
is_key_char c = is_letter c || is_digit c || nat_eq c b'_' || nat_eq c b'-'

unfoldable pub is_key : String → Bool
unfolding chars
is_key key =
    every (λ c. is_key_char (code c)) (chars key)
    && leb 1 (length (chars key))
    && leb (length (chars key)) 100

-- What the action's schema checks.
unfoldable pub is_action : Action → Bool
unfolding is_key is_distinct decimal template
is_action a =
    every (λ r. is_key r.claim_key && leb r.quantity_index 11) a.inputs
    && leb 1 (length a.inputs)
    && leb (length a.inputs) 50
    && is_distinct
        (map (λ r. template (r.claim_key ∷ ":" ∷ decimal r.quantity_index ∷ [])) a.inputs)

unfoldable pub arity : Formula → Option ℕ
arity annual_cost = some 1
arity sum = none
arity _ = some 2

unfoldable pub is_sum : Formula → Bool
is_sum sum = true
is_sum _ = false

unfoldable pub has_wrong_arity : Action → Bool
unfolding arity is_sum
has_wrong_arity a =
    elim (arity a.formula) [ none ↦ false | some n ↦ not (nat_eq (length a.inputs) n) ]
    || (is_sum a.formula && ltb (length a.inputs) 2)

-- A text of at least `low` and at most `high` characters.
abbrev is_sized : ℕ → ℕ → String → Bool
is_sized low high s = leb low (length (chars s)) && leb (length (chars s)) high

abbrev is_short_or_null : Option String → Bool
is_short_or_null none = true
is_short_or_null (some s) = is_sized 0 300 s

-- `\d+`
abbrev is_digits : List Char → Bool
is_digits s = every (λ c. is_digit (code c)) s && leb 1 (length s)

-- `/^-?\d+$/`
unfoldable pub is_numerator : String → Bool
unfolding chars
is_numerator text = elim (chars text) [
  | [] ↦ false
  | c ∷ s ↦ if nat_eq (code c) b'-' then is_digits s else is_digits (c ∷ s)
]

-- `/^[1-9]\d*$/`
unfoldable pub is_denominator : String → Bool
unfolding chars
is_denominator text = elim (chars text) [
  | [] ↦ false
  | c ∷ s ↦ leb b'1' (code c) && leb (code c) b'9' && every (λ d. is_digit (code d)) s
]

module _ (is_uuid : String → Bool) where
  unfoldable pub is_quote : Evidence → Bool
  unfolding chars
  is_quote e = is_uuid e.passage_id && leb 1 e.end && is_sized 1 4000 e.quote

  unfoldable pub is_input : Input → Bool
  unfolding is_key is_quote chars
  is_input i =
      is_key i.reference.claim_key
      && leb i.reference.quantity_index 11
      && is_sized 0 300 i.value
      && every is_quote i.evidence
      && leb 1 (length i.evidence)
      && leb (length i.evidence) 12
      && is_sized 0 300 i.unit
      && is_short_or_null i.currency
      && is_short_or_null i.billing_period

  unfoldable pub is_output : Option Output → Bool
  unfolding is_numerator is_denominator chars
  is_output none = true
  is_output (some o) =
      is_numerator o.numerator
      && is_sized 0 1500 o.numerator
      && is_denominator o.denominator
      && is_sized 0 1500 o.denominator
      && is_sized 0 610 o.unit
      && is_short_or_null o.currency
      && is_short_or_null o.billing_period

  -- What the result's schema checks.
  unfoldable pub is_result : Result → Bool
  unfolding is_input is_output chars
  is_result r =
      is_sized 1 100 r.reason
      && every is_input r.inputs
      && leb (length r.inputs) 50
      && is_output r.output
      && every (is_sized 1 500) r.assumptions
      && leb (length r.assumptions) 5
