-- ===== src/Calculation/Quantities.antt =====
-- `decimal` and `quantityBound` of evidence-calculation.ts: how a number is read, and when a
-- quantity is bound to the words of its claim and of its evidence.
use deep_research_app.Calculation.Integers.{ℤ, quot, negate, pos, negsuc}
use Prim.Native.Char.{Char, code}
use deep_research_app.Calculation.Fractions.{reduce, Rational, euclid}
use deep_research_app.Text.{chars, of_chars, trim, is_space}
use deep_research_app.Regex.{
  Regex, match_all, test, empty, all_of, alt, is_letter, group_of, Pos, begin, whole, is_digit,
  not_after, opt, words, gap, word, spaces, seq, one, not_before, any_of, edge, digit_char, finish,
}
use deep_research_app.Base.{
  refl, ◌≡◌, String, ℕ, List, Option, Bool, none, ◌∷◌, ◌||◌, false, ◌+◌, true, if◌then◌else◌, suc,
  ◌*◌, nat_eq, starts_with, ◌++◌, [], some, or_else, not, length, ◌&&◌, ◌-◌, is_some, ◌==◌, ◌^◌,
  leb, zero,
}

pub record Evidence : Type 0 where
  pub passage_id : String
  pub start : ℕ
  pub end : ℕ
  pub quote : String

pub record Quantity : Type 0 where
  pub value : String
  pub unit : String
  pub currency : Option String
  pub billing_period : Option String
  pub qualifier : Option String

pub record Assertion : Type 0 where
  pub key : String
  pub text : String
  pub quantities : List Quantity
  pub evidence : List Evidence

-- `r{0,n}`
abbrev up_to : ℕ → Regex → Regex
up_to zero r = empty
up_to (suc n) r = opt (seq r (up_to n r))

-- `/^-?(?:0|[1-9]\d{0,11})(?:\.\d{1,6})?$/`
abbrev decimal_pattern : Regex
decimal_pattern = all_of (
    begin
    ∷ opt (word "-")
    ∷ alt (word "0") (seq (one (λ c. leb b'1' c && leb c b'9')) (up_to 11 digit_char))
    ∷ opt (all_of (word "." ∷ digit_char ∷ up_to 5 digit_char ∷ []))
    ∷ finish
    ∷ [])

-- `BigInt(digits)`
unfoldable pub number_from : ℕ → List Char → ℕ
number_from n [] = n
number_from n (c ∷ s) = number_from (n * 10 + (code c - b'0')) s

-- The two sides of the first "." of a text, without the "."; the second is empty where there is
-- none.
unfoldable pub split_point : List Char → List Char × List Char
split_point [] = ([], [])
split_point (c ∷ s) =
    let (whole, fraction) = split_point s in
    if nat_eq (code c) b'.' then ([], s) else (c ∷ whole, fraction)

unfoldable pub unsigned : List Char → List Char
unsigned [] = []
unsigned (c ∷ s) = if nat_eq (code c) b'-' then s else c ∷ s

unfoldable pub signed : String → ℕ → ℤ
signed text n = if starts_with text "-" then negate (pos n) else pos n

-- The text has at most one "." here.
unfoldable pub decimal_of : String → List Char × List Char → Option Rational
unfolding number_from signed
decimal_of text (whole, fraction) =
    reduce (signed text (number_from 0 (whole ++ fraction))) (pos (10 ^ length fraction))

unfoldable pub decimal_value : String → Option Rational
unfolding decimal_of split_point unsigned chars test
decimal_value text =
    if test false decimal_pattern text
    then decimal_of text (split_point (unsigned (chars text)))
    else none

abbrev uncertain_words : List String
uncertain_words =
    "not" ∷ "never" ∷ "no" ∷ "without" ∷ "may" ∷ "might" ∷ "could" ∷ "approximately" ∷ "about"
    ∷ "starting" ∷ "from" ∷ "up to" ∷ "at least" ∷ "at most" ∷ "between" ∷ "unless" ∷ "except"
    ∷ "subject to" ∷ []

abbrev uncertain : Regex
uncertain =
    alt (whole (words uncertain_words))
      (one (λ c. nat_eq c b'~' || nat_eq c 8804 || nat_eq c 8805 || nat_eq c b'<' || nat_eq c b'>'))

abbrev is_letter_or_digit : ℕ → Bool
is_letter_or_digit c = is_letter c || is_digit c

-- `[\p{L}\p{N}.,+-]`
abbrev joins_before : ℕ → Bool
joins_before c =
    is_letter_or_digit c || nat_eq c b'.' || nat_eq c b',' || nat_eq c b'+' || nat_eq c b'-'

-- `[\p{L}\p{N}_/]`
abbrev joins_after : ℕ → Bool
joins_after c = is_letter_or_digit c || nat_eq c b'_' || nat_eq c b'/'

unfoldable pub period_pattern : Option String → Regex
period_pattern none = empty
period_pattern (some period) =
    all_of (gap ∷ alt (seq (word "per") gap) (seq (word "/") spaces) ∷ word period ∷ [])

unfoldable pub quantity_pattern : Quantity → Regex
unfolding period_pattern
quantity_pattern q = all_of (
    not_after joins_before
    ∷ word q.value
    ∷ gap
    ∷ word q.unit
    ∷ period_pattern q.billing_period
    ∷ not_before joins_after
    ∷ [])

-- What may not follow a quantity that names no billing period.
abbrev period_follows : Regex
period_follows = all_of (
    begin
    ∷ spaces
    ∷ any_of (
        word "/"
        ∷ seq (word "per") edge
        ∷ seq (word "each") edge
        ∷ all_of (word "a" ∷ gap ∷ words ("month" ∷ "year" ∷ "week" ∷ "day" ∷ []) ∷ edge ∷ [])
        ∷ seq (words ("monthly" ∷ "yearly" ∷ "annually" ∷ "weekly" ∷ "daily" ∷ [])) edge
        ∷ [])
    ∷ [])

-- A match: `match.index` and `match[0]`.
pub record Match : Type 0 where
  pub index : ℕ
  pub found : String

unfoldable pub match_of : String → Pos → Match
unfolding chars group_of
match_of text p =
    let found = or_else (group_of 0 p) "" in
    record { index = length (chars text) - length p.rest - length (chars found); found = found }

unfoldable pub single_match : Quantity → String → List Pos → Option Match
unfolding match_of of_chars test
single_match q text (p ∷ []) =
    if not (is_some q.billing_period) && test true period_follows (of_chars p.rest)
    then none
    else some (match_of text p)
single_match q text _ = none

unfoldable pub matches : Quantity → String → Option Match
unfolding single_match quantity_pattern match_all
matches q text = single_match q text (match_all false (quantity_pattern q) text)

unfoldable pub narrowed : Evidence → Match → Evidence
unfolding chars
narrowed e m = record {
  passage_id = e.passage_id;
  start = e.start + m.index;
  end = e.start + m.index + length (chars m.found);
  quote = m.found;
}

unfoldable pub bound_evidence : Quantity → List Evidence → List Evidence
unfolding matches narrowed
bound_evidence q [] = []
bound_evidence q (e ∷ es) =
    let rest = bound_evidence q es in
    elim (matches q e.quote) [ none ↦ rest | some m ↦ narrowed e m ∷ rest ]

unfoldable pub names_currency : Quantity → Bool
names_currency q = elim q.currency [ none ↦ true | some c ↦ c == q.unit ]

unfoldable pub is_plain : Assertion → Quantity → Bool
unfolding test trim names_currency
is_plain claim q =
    not (is_some q.qualifier)
    && not (test true uncertain claim.text)
    && test false (one (λ c. is_letter c || nat_eq c b'%')) q.unit
    && (trim q.unit == q.unit)
    && names_currency q

unfoldable pub some_evidence : List Evidence → Option (List Evidence)
some_evidence [] = none
some_evidence (e ∷ es) = some (e ∷ es)

unfoldable pub quantity_bound : Assertion → Quantity → Option (List Evidence)
unfolding is_plain matches bound_evidence some_evidence
quantity_bound claim q =
    if is_plain claim q && is_some (matches q claim.text)
    then some_evidence (bound_evidence q claim.evidence)
    else none

decimal_runs : decimal_value "-12.50" ≡ some (record { n = negsuc 24; d = pos 2 })
unfolding decimal_value reduce euclid quot
decimal_runs = refl

decimal_refuses : decimal_value "1e3" ≡ none
unfolding decimal_value
decimal_refuses = refl

seats : Quantity
seats = record {
  value = "12.50";
  unit = "USD";
  currency = some "USD";
  billing_period = some "month";
  qualifier = none;
}

bound_runs :
    quantity_bound
      (record {
        key = "k";
        text = "It costs 12.50 USD per month.";
        quantities = seats ∷ [];
        evidence =
            record {
              passage_id = "p";
              start = 100;
              end = 140;
              quote = "The plan is 12.50 USD / month, billed";
            }
            ∷ [];
      })
      seats
    ≡ some (record { passage_id = "p"; start = 112; end = 129; quote = "12.50 USD / month" } ∷ [])
unfolding quantity_bound seats is_space
bound_runs = refl
