-- ===== src/Calculation/Gathering.antt =====
-- The loop of `calculateEvidence` over the references of an action.
use deep_research_app.Calculation.Fractions.{Rational}
use deep_research_app.Calculation.Quantities.{
  decimal_value, Evidence, Quantity, quantity_bound, Assertion,
}
use deep_research_app.Calculation.Shapes.{Reference, Input}
use deep_research_app.Text.{decimal, template}
use deep_research_app.Base.{
  String, List, ℕ, Option, none, ◌∷◌, Bool, select, some, [], some_of, ◌==◌, ◌++◌, suc,
  if◌then◌else◌, map, zero,
}

-- The loop over the references: either the reason it ends with, with the inputs so far, or all
-- inputs with their numbers.
pub data Gathered : Type 0 where
  refused : (reason : String) → List Input → Gathered
  gathered : List Input → List Rational → Gathered

unfoldable pub nth {ℓ} : {A : Type ℓ} → List A → ℕ → Option A
nth [] n = none
nth (x ∷ xs) zero = some x
nth (x ∷ xs) (suc n) = nth xs n

unfoldable pub binding : Evidence → String
unfolding decimal template
binding e = template (e.passage_id ∷ ":" ∷ decimal e.start ∷ ":" ∷ decimal e.end ∷ [])

unfoldable pub input_of : Reference → Quantity → List Evidence → Input
input_of r q evidence = record {
  reference = r;
  value = q.value;
  evidence = evidence;
  unit = q.unit;
  currency = q.currency;
  billing_period = q.billing_period;
}

-- The one element of a list that has one.
unfoldable pub only {ℓ} : {A : Type ℓ} → List A → Option A
only (a ∷ []) = some a
only _ = none

unfoldable pub is_used : List String → List Evidence → Bool
unfolding binding
is_used used evidence = some_of (λ e. some_of (λ k. k == binding e) used) evidence

-- What one reference gives: a reason to refuse it, or its quantity, number and evidence.
pub data Reading : Type 0 where
  unread : (reason : String) → Reading
  read : Quantity → Rational → List Evidence → Reading

unfoldable pub read_quantity : Assertion → Quantity → List String → Reading
unfolding decimal_value quantity_bound is_used
read_quantity claim q used = elim (decimal_value q.value) [
  | none ↦ unread "ambiguous_or_unbounded_number"
  | some value ↦ elim (quantity_bound claim q) [
    | none ↦ unread "quantity_binding_or_qualification_unresolved"
    | some evidence ↦
        if is_used used evidence
        then unread "duplicate_quantity_evidence"
        else read q value evidence
  ]
]

unfoldable pub read_reference : List Assertion → List String → Reference → List String → Reading
unfolding only nth read_quantity
read_reference assertions supported r used =
    elim (only (select (λ a. a.key == r.claim_key) assertions)) [
      | none ↦ unread "unsupported_input_claim"
      | some claim ↦
          if some_of (λ k. k == r.claim_key) supported
          then elim (nth claim.quantities r.quantity_index) [
            | none ↦ unread "missing_quantity"
            | some q ↦ read_quantity claim q used
          ]
          else unread "unsupported_input_claim"
    ]

unfoldable pub gather :
    List Assertion
    → List String
    → List Reference
    → List String
    → List Input
    → List Rational
    → Gathered
unfolding read_reference binding input_of
gather assertions supported [] used inputs numbers = gathered inputs numbers
gather assertions supported (r ∷ rs) used inputs numbers =
    elim (read_reference assertions supported r used) [
      | unread reason ↦ refused reason inputs
      | read q value evidence ↦
          gather assertions supported rs (used ++ map binding evidence)
            (inputs ++ input_of r q evidence ∷ []) (numbers ++ value ∷ [])
    ]
