-- ===== src/Calculation/Sums.antt =====
-- Sums and differences of fractions: reducing after every step changes no result.
use deep_research_app.Calculation.Fractions.Lowest.{
  IsLowest, reduce_iff, reduce-some, reduce-cross, is_zero-*ℤ, IsLowest-is_zero, IsLowest-self,
}
use deep_research_app.Calculation.Integers.{
  ◌*ℤ◌, ◌+ℤ◌, *ℤ-cross, +ℤ-*ℤ, ◌-ℤ◌, *ℤ-gather, minus-*ℤ, *ℤ-swap, minus-plus,
}
use deep_research_app.Calculation.Formulas.{total, sum_of, difference_of}
use deep_research_app.Calculation.Fractions.{Rational, is_zero, reduce}
use mathlib.Core.Path.{ap, ap₂, ◌≡⟨◌⟩◌, ◌∎}
use deep_research_app.Base.{◌≡◌, List, false, ◌∷◌, All, some, [], sym, ◌∙◌}

-- The sum of two fractions over the product of their denominators, not reduced.
abbrev pub exact_plus : Rational → Rational → Rational
exact_plus r s = record { n = r.n *ℤ s.d +ℤ s.n *ℤ r.d; d = r.d *ℤ s.d }

abbrev pub HasDenominator : Rational → Type 0
HasDenominator r = is_zero r.d ≡ false

unfoldable pub exact_sum : Rational → List Rational → Rational
exact_sum r [] = r
exact_sum r (s ∷ ss) = exact_sum (exact_plus r s) ss

abbrev SameValue : Rational → Rational → Type 0
SameValue r t = r.n *ℤ t.d ≡ t.n *ℤ r.d

step-SameValue : (r t s : Rational) → SameValue r t → SameValue (exact_plus r s) (exact_plus t s)
step-SameValue r t s e =
    +ℤ-*ℤ (r.n *ℤ s.d) (s.n *ℤ r.d) (t.d *ℤ s.d)
    ∙ ap₂ (λ x y. x +ℤ y) first second
    ∙ sym (+ℤ-*ℤ (t.n *ℤ s.d) (s.n *ℤ t.d) (r.d *ℤ s.d))
  where
    first : r.n *ℤ s.d *ℤ (t.d *ℤ s.d) ≡ t.n *ℤ s.d *ℤ (r.d *ℤ s.d)
    first = *ℤ-cross r.n s.d t.d s.d ∙ ap (λ x. x *ℤ (s.d *ℤ s.d)) e ∙ *ℤ-cross t.n r.d s.d s.d

    second : s.n *ℤ r.d *ℤ (t.d *ℤ s.d) ≡ s.n *ℤ t.d *ℤ (r.d *ℤ s.d)
    second = *ℤ-cross s.n r.d t.d s.d

exact-SameValue :
    (r t : Rational) (ss : List Rational)
    → SameValue r t
    → SameValue (exact_sum r ss) (exact_sum t ss)
unfolding exact_sum
exact-SameValue r t [] e = e
exact-SameValue r t (s ∷ ss) e =
    exact-SameValue (exact_plus r s) (exact_plus t s) ss (step-SameValue r t s e)

exact-HasDenominator :
    (r : Rational) (ss : List Rational)
    → HasDenominator r
    → All HasDenominator ss
    → HasDenominator (exact_sum r ss)
unfolding exact_sum
exact-HasDenominator r [] h hs = h
exact-HasDenominator r (s ∷ ss) h hs =
    exact-HasDenominator (exact_plus r s) ss (is_zero-*ℤ r.d s.d h hs.0) hs.1

pub sum_of-some :
    (r s : Rational)
    → HasDenominator r
    → HasDenominator s
    → (t : Rational) × (sum_of r s ≡ some t) × IsLowest (exact_plus r s).n (exact_plus r s).d t
unfolding sum_of
sum_of-some r s hr hs = reduce-some _ _ (is_zero-*ℤ r.d s.d hr hs)

-- The total of fractions, the first in lowest terms, is their exact sum in lowest terms, whether it
-- is reduced after every addition, as the code does, or only at the end.
pub total-exact_sum :
    (r : Rational) (ss : List Rational)
    → IsLowest r.n r.d r
    → All HasDenominator ss
    → total r ss ≡ reduce (exact_sum r ss).n (exact_sum r ss).d
unfolding total exact_sum
total-exact_sum r [] i hs = sym ((reduce_iff r.n r.d r).1 (IsLowest-is_zero r.n r.d r i, i))
total-exact_sum r (s ∷ ss) i hs =
    let hr = IsLowest-is_zero r.n r.d r i in
    let nonzero = is_zero-*ℤ r.d s.d hr hs.0 in
    let (t, e, j) = sum_of-some r s hr hs.0 in
    let lowest = IsLowest-self _ _ t j in
    rw (total, e)
      (total-exact_sum t ss lowest hs.1
        ∙ reduce-cross _ _ _ _ (exact-HasDenominator t ss (IsLowest-is_zero _ _ t lowest) hs.1)
            (exact-HasDenominator (exact_plus r s) ss nonzero hs.1)
            (exact-SameValue t (exact_plus r s) ss j.same_value))

-- Adding what was taken away gives the fraction back: of a difference that the code computes, and
-- the fraction that was subtracted, the sum is the fraction it was subtracted from.
pub sum_of-difference_of :
    (r s q : Rational)
    → IsLowest r.n r.d r
    → HasDenominator s
    → difference_of r s ≡ some q
    → sum_of q s ≡ some r
unfolding sum_of difference_of
sum_of-difference_of r s q i h e =
    let hr = IsLowest-is_zero r.n r.d r i in
    let (_, j) = (reduce_iff _ _ q).0 e in
    let hq = IsLowest-is_zero _ _ q j in
    (reduce_iff (exact_plus q s).n (exact_plus q s).d r).1 (
      is_zero-*ℤ q.d s.d hq h,
      record {
        same_value = sym (restored j.same_value);
        is_pos = i.is_pos;
        no_common = i.no_common;
      },
    )
  where
    restored :
        q.n *ℤ (r.d *ℤ s.d) ≡ (r.n *ℤ s.d -ℤ s.n *ℤ r.d) *ℤ q.d
        → (q.n *ℤ s.d +ℤ s.n *ℤ q.d) *ℤ r.d ≡ r.n *ℤ (q.d *ℤ s.d)
    restored e =
        (q.n *ℤ s.d +ℤ s.n *ℤ q.d) *ℤ r.d
        ≡⟨ +ℤ-*ℤ (q.n *ℤ s.d) (s.n *ℤ q.d) r.d ⟩ q.n *ℤ s.d *ℤ r.d +ℤ s.n *ℤ q.d *ℤ r.d
        ≡⟨ ap₂ (λ x y. x +ℤ y) (*ℤ-gather q.n s.d r.d ∙ e ∙ minus-*ℤ (r.n *ℤ s.d) (s.n *ℤ r.d) q.d)
            (*ℤ-swap s.n q.d r.d) ⟩
          r.n *ℤ s.d *ℤ q.d -ℤ s.n *ℤ r.d *ℤ q.d +ℤ s.n *ℤ r.d *ℤ q.d
        ≡⟨ minus-plus (r.n *ℤ s.d *ℤ q.d) (s.n *ℤ r.d *ℤ q.d) ⟩ r.n *ℤ s.d *ℤ q.d
        ≡⟨ *ℤ-gather r.n s.d q.d ⟩ r.n *ℤ (q.d *ℤ s.d) ∎
