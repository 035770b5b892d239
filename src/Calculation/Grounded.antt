-- ===== src/Calculation/Grounded.antt =====
-- What the inputs of a computed result rest on.
use deep_research_app.Calculation.Fractions.{Rational}
use deep_research_app.Calculation.Shapes.{Input, Reference}
use deep_research_app.Calculation.Quantities.{
  Assertion, Quantity, Evidence, decimal_value, quantity_bound,
}
use deep_research_app.Calculation.Gathering.{
  read_reference, read_quantity, input_of, only, read, is_used, nth, gather, gathered, binding,
  Reading, unread,
}
use mathlib.Core.Path.{ap₂}
use mathlib.Core.List.{append-nil, append_assoc}
use deep_research_app.Base.{
  refl, ◌≡◌, List, String, select, ◌==◌, some, false, some_of, true, arith, Option-cases, ◌∷◌, ◌++◌,
  inl, map, inr, [], sym, ◌∙◌, ◌⊎◌,
}

-- An input is grounded in the assertions: its claim is the only one with that key and is supported,
-- and its quantity reads as the number and is bound to the evidence of the input.
pub record IsGrounded (assertions : List Assertion) (supported : List String) (i : Input)
    (value : Rational) : Type 0 where
  pub claim : Assertion
  pub quantity : Quantity
  pub is_only : only (select (λ a. a.key == i.reference.claim_key) assertions) ≡ some claim
  pub is_supported : some_of (λ k. k == i.reference.claim_key) supported ≡ true
  pub has_quantity : nth claim.quantities i.reference.quantity_index ≡ some quantity
  pub has_value : decimal_value quantity.value ≡ some value
  pub is_bound : quantity_bound claim quantity ≡ some i.evidence
  pub is_copy : input_of i.reference quantity i.evidence ≡ i

read_quantity-read :
    (claim : Assertion) (q : Quantity) (used : List String) (p : Quantity) (value : Rational)
    (evidence : List Evidence)
    → read_quantity claim q used ≡ read p value evidence
    → (q ≡ p)
      × (decimal_value q.value ≡ some value)
      × (quantity_bound claim q ≡ some evidence)
      × (is_used used evidence ≡ false)
unfolding read_quantity
read_quantity-read claim q used p value evidence e = ground arith

read_nth :
    (assertions : List Assertion) (supported : List String) (r : Reference) (used : List String)
    (claim : Assertion) (p : Quantity) (value : Rational) (evidence : List Evidence)
    → only (select (λ a. a.key == r.claim_key) assertions) ≡ some claim
    → read_reference assertions supported r used ≡ read p value evidence
    → (q : Quantity) × (nth claim.quantities r.quantity_index ≡ some q)
      × (read_quantity claim q used ≡ read p value evidence)
      × (some_of (λ k. k == r.claim_key) supported ≡ true)
unfolding read_reference
read_nth assertions supported r used claim p value evidence o e =
    elim (Option-cases (nth claim.quantities r.quantity_index)) [
      | inl n ↦ absurd (ground (arith, o, e, n))
      | inr (q, n) ↦ (q, n, ground (arith, o, e, n), ground (arith, o, e, n))
    ]

read-IsGrounded :
    (assertions : List Assertion) (supported : List String) (r : Reference) (used : List String)
    (p : Quantity) (value : Rational) (evidence : List Evidence)
    → read_reference assertions supported r used ≡ read p value evidence
    → IsGrounded assertions supported (input_of r p evidence) value
      × (is_used used evidence ≡ false)
unfolding input_of read_reference
read-IsGrounded assertions supported r used p value evidence e =
    elim (Option-cases (only (select (λ a. a.key == r.claim_key) assertions))) [
      | inl o ↦ absurd (ground (arith, o, e))
      | inr (claim, o) ↦
          let (q, n, f, s) = read_nth assertions supported r used claim p value evidence o e in
          let (same, v, b, u) = read_quantity-read claim q used p value evidence f in
          (
            record {
              claim = claim;
              quantity = q;
              is_only = o;
              is_supported = s;
              has_quantity = n;
              has_value = v;
              is_bound = b;
              is_copy = rw same refl;
            },
            u,
          )
    ]

-- The inputs share no evidence: none is bound to a passage and span that `used` or an earlier input
-- is bound to.
unfoldable pub AreSeparate : List String → List Input → Type 0
AreSeparate used [] = Unit
AreSeparate used (i ∷ is) =
    (is_used used i.evidence ≡ false) × AreSeparate (used ++ map binding i.evidence) is

unfoldable pub AreGrounded : List Assertion → List String → List Input → List Rational → Type 0
AreGrounded assertions supported [] [] = Unit
AreGrounded assertions supported (i ∷ is) (v ∷ vs) =
    IsGrounded assertions supported i v × AreGrounded assertions supported is vs
AreGrounded assertions supported _ _ = ⊥

pub record Gathers (assertions : List Assertion) (supported : List String) (rs : List Reference)
    (used : List String) (before after : List Input) (sofar numbers : List Rational) : Type 0 where
  pub fresh : List Input
  pub values : List Rational
  pub inputs_eq : after ≡ before ++ fresh
  pub numbers_eq : numbers ≡ sofar ++ values
  pub references_eq : map (λ i. i.reference) fresh ≡ rs
  pub grounded : AreGrounded assertions supported fresh values
  pub separate : AreSeparate used fresh

Reading-cases :
    (x : Reading)
    → ((reason : String) × (x ≡ unread reason))
      ⊎ ((q : Quantity) × (value : Rational) × (evidence : List Evidence) × (x
            ≡ read q value evidence))
Reading-cases (unread reason) = inl (reason, refl)
Reading-cases (read q value evidence) = inr (q, value, evidence, refl)

gather-nil :
    (before after : List Input) (sofar numbers : List Rational)
    → gathered before sofar ≡ gathered after numbers
    → (before ≡ after) × (sofar ≡ numbers)
gather-nil before after sofar numbers e = (ground (arith, e), ground (arith, e))

pub gather-Gathers :
    (assertions : List Assertion) (supported : List String) (rs : List Reference)
    (used : List String) (before after : List Input) (sofar numbers : List Rational)
    → gather assertions supported rs used before sofar ≡ gathered after numbers
    → Gathers assertions supported rs used before after sofar numbers
unfolding gather AreSeparate AreGrounded
gather-Gathers assertions supported [] used before after sofar numbers e =
    let (same, same') = gather-nil before after sofar numbers e in
    record {
      fresh = [];
      values = [];
      inputs_eq = sym same ∙ sym (append-nil before);
      numbers_eq = sym same' ∙ sym (append-nil sofar);
      references_eq = refl;
      grounded = tt;
      separate = tt;
    }
gather-Gathers assertions supported (r ∷ rs) used before after sofar numbers e =
    elim (Reading-cases (read_reference assertions supported r used)) [
      | inl (reason, f) ↦ absurd (ground (arith, rw (gather, f) at e))
      | inr (q, value, evidence, f) ↦
          let g =
            gather-Gathers assertions supported rs (used ++ map binding evidence)
              (before ++ input_of r q evidence ∷ []) after (sofar ++ value ∷ []) numbers
              (rw (gather, f) at e) in
          let (i, u) = read-IsGrounded assertions supported r used q value evidence f in
          record {
            fresh = input_of r q evidence ∷ g.fresh;
            values = value ∷ g.values;
            inputs_eq = g.inputs_eq ∙ append_assoc before (input_of r q evidence ∷ []) g.fresh;
            numbers_eq = g.numbers_eq ∙ append_assoc sofar (value ∷ []) g.values;
            references_eq = ap₂ ◌∷◌ refl g.references_eq;
            grounded = (i, g.grounded);
            separate = (u, g.separate);
          }
    ]
