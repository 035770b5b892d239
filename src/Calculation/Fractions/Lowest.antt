-- ===== src/Calculation/Fractions/Lowest.antt =====
-- `reduce` gives the lowest terms of a fraction: its only form without a common divisor.
use deep_research_app.Calculation.Integers.{
  ℤ, ◌*ℤ◌, pos, above, abs, quot, negate, pos-*, *ℤ-assoc, *ℤ-swap, quot-*ℤ, abs-quot, *ℤ-cancel,
  abs-*ℤ, pos-abs, negate-negate, *ℤ-negate, negate-*ℤ, negsuc,
}
use deep_research_app.Calculation.Fractions.{
  reduce_signed, Rational, quotients, pos, abs, quot, negate, reduce, is_zero, negsuc,
}
use Prim.Native.Nat.{◌∣◌, ℕ, suc}
use native.Mathlib.Nat
use mathlib.Core.Path.{subst, ap, ◌≡⟨◌⟩◌, ◌∎}
use deep_research_app.Base.{
  refl, ◌≡◌, ℕ, ◌*◌, suc, ◌<◌, some, ◌/◌, arith, zero, sym, ◌∙◌, false, ◌↔◌, true, Bool-cases, none,
  inl, inr,
}
use deep_research_app.Calculation.Fractions.Gcd.{IsGcd-quotients, euclid-IsGcd, IsGcd}

-- `q` is the fraction `n / d` in lowest terms, with a positive denominator.
pub record IsLowest (n d : ℤ) (q : Rational) : Type 0 where
  pub same_value : q.n *ℤ d ≡ n *ℤ q.d
  pub is_pos : 0 < above q.d
  pub no_common : (k : ℕ) → k ∣ abs q.n → k ∣ abs q.d → k ≡ 1

quotients-IsLowest :
    (n : ℤ) (d g : ℕ)
    → 0 < d
    → IsGcd (abs n) d g
    → IsLowest n (pos d) (record { n = quot n g; d = pos (d / g) })
quotients-IsLowest n d g h i = record {
  same_value =
      quot n g *ℤ pos d
      ≡⟨ rw whole (sym (*ℤ-assoc (quot n g) (pos (d / g)) (pos g))) ⟩
        quot n g *ℤ pos (d / g) *ℤ pos g
      ≡⟨ *ℤ-swap (quot n g) (pos (d / g)) (pos g) ⟩ quot n g *ℤ pos g *ℤ pos (d / g)
      ≡⟨ rw (quot-*ℤ n g i.divides_left) refl ⟩ n *ℤ pos (d / g) ∎;
  is_pos = Nat.pos_of_dvd_of_pos (subst (◌∣◌ (d / g)) back (Nat.dvd-mul_right (d / g) g)) h;
  no_common = λ k hn hd. IsGcd-quotients (abs n) d g h i k (rw abs-quot at hn) hd;
}
  where
    back : d / g * g ≡ d
    back = Nat.div-mul_cancel g i.divides_right

    whole : pos d ≡ pos (d / g) *ℤ pos g
    whole = sym (ap pos back) ∙ pos-* (d / g) g

signed-IsLowest :
    (n : ℤ) (d : ℕ)
    → 0 < d
    → (q : Rational) × (reduce_signed n (pos d) ≡ some q) × IsLowest n (pos d) q
unfolding reduce_signed quotients quot
signed-IsLowest n d h =
    let (g, e, i) = euclid-IsGcd (suc d) (abs n) d (omega arith) in
    (record { n = quot n g; d = pos (d / g) }, rw e refl, quotients-IsLowest n d g h i)

pub abs_pos : (a : ℤ) → 0 < above a → 0 < abs a
abs_pos a h = ground arith

cross :
    (n d : ℤ) (q r : Rational)
    → 0 < abs d
    → IsLowest n d q
    → IsLowest n d r
    → q.n *ℤ r.d ≡ r.n *ℤ q.d
cross n d q r h i j = *ℤ-cancel _ _ d h (
    q.n *ℤ r.d *ℤ d
    ≡⟨ *ℤ-swap q.n r.d d ⟩ q.n *ℤ d *ℤ r.d
    ≡⟨ rw i.same_value (*ℤ-swap n q.d r.d) ⟩ n *ℤ r.d *ℤ q.d
    ≡⟨ rw (sym j.same_value) (*ℤ-swap r.n d q.d) ⟩ r.n *ℤ q.d *ℤ d ∎)

lowest-dvd :
    (n d : ℤ) (q r : Rational) → 0 < abs d → IsLowest n d q → IsLowest n d r → abs q.d ∣ abs r.d
lowest-dvd n d q r h i j =
    let (g, e, c) = euclid-IsGcd (suc (abs q.d)) (abs q.n) (abs q.d) (omega arith) in
    let one = i.no_common g c.divides_left c.divides_right in
    rw (one, Nat.one-mul) at
      (c.is_greatest (abs q.d) (abs r.d)
        (subst (◌∣◌ (abs q.d)) (sym crossed) (Nat.dvd-mul_left (abs q.d) (abs r.n)))
        (Nat.dvd-mul_right (abs q.d) (abs r.d)))
  where
    crossed : abs q.n * abs r.d ≡ abs r.n * abs q.d
    crossed = sym (abs-*ℤ q.n r.d) ∙ ap abs (cross n d q r h i j) ∙ abs-*ℤ r.n q.d

IsLowest-unique : (n d : ℤ) (q r : Rational) → 0 < abs d → IsLowest n d q → IsLowest n d r → q ≡ r
IsLowest-unique n d q r h i j = λ k. record { n = numerators k; d = denominators k }
  where
    denominators : q.d ≡ r.d
    denominators =
        pos-abs q.d r.d i.is_pos j.is_pos
          (Nat.dvd_antisymm (lowest-dvd n d q r h i j) (lowest-dvd n d r q h j i))

    numerators : q.n ≡ r.n
    numerators =
        *ℤ-cancel q.n r.n r.d (abs_pos r.d j.is_pos) (cross n d q r h i j ∙ rw denominators refl)

IsLowest-negate : (n d : ℤ) (q : Rational) → IsLowest (negate n) (negate d) q → IsLowest n d q
IsLowest-negate n d q i = record {
  same_value =
      q.n *ℤ d
      ≡⟨ sym (negate-negate (q.n *ℤ d)) ⟩ negate (negate (q.n *ℤ d))
      ≡⟨ ap negate (sym (*ℤ-negate q.n d) ∙ i.same_value ∙ negate-*ℤ n q.d) ⟩
        negate (negate (n *ℤ q.d))
      ≡⟨ negate-negate (n *ℤ q.d) ⟩ n *ℤ q.d ∎;
  is_pos = i.is_pos;
  no_common = i.no_common;
}

pub reduce-some :
    (n d : ℤ) → is_zero d ≡ false → (q : Rational) × (reduce n d ≡ some q) × IsLowest n d q
unfolding reduce is_zero
reduce-some n (pos zero) h = absurd (ground arith)
reduce-some n (pos (suc d)) h = signed-IsLowest n (suc d) (omega arith)
reduce-some n (negsuc d) h =
    let (q, e, i) = signed-IsLowest (negate n) (suc d) (omega arith) in
    (q, e, IsLowest-negate n (negsuc d) q i)

reduce-zero : (n d : ℤ) → is_zero d ≡ true → reduce n d ≡ none
unfolding reduce
reduce-zero n d z = ground (arith, z)

-- A form in lowest terms is its own form in lowest terms.
pub IsLowest-self : (n d : ℤ) (q : Rational) → IsLowest n d q → IsLowest q.n q.d q
IsLowest-self n d q i = record { same_value = refl; is_pos = i.is_pos; no_common = i.no_common }

pub IsLowest-is_zero : (n d : ℤ) (q : Rational) → IsLowest n d q → is_zero q.d ≡ false
unfolding is_zero
IsLowest-is_zero n d q i = ground (arith, i.is_pos)

pub abs-is_zero : (d : ℤ) → is_zero d ≡ false → 0 < abs d
unfolding is_zero
abs-is_zero d h = ground arith

pub is_zero-*ℤ : (a b : ℤ) → is_zero a ≡ false → is_zero b ≡ false → is_zero (a *ℤ b) ≡ false
unfolding is_zero
is_zero-*ℤ a b ha hb =
    nonzero (a *ℤ b) (rw (abs-*ℤ a b) (Nat.mul-pos (abs-is_zero a ha) (abs-is_zero b hb)))
  where
    nonzero : (c : ℤ) → 0 < abs c → is_zero c ≡ false
    nonzero c h = ground (arith, h)

-- A fraction reduces to `q` exactly when its denominator is not zero and `q` is its only form of
-- the same value with a positive denominator and no common divisor but one. So the loop ends, the
-- error is thrown for a zero denominator only, and two fractions of one value reduce to the same.
pub reduce_iff :
    (n d : ℤ) (q : Rational) → (reduce n d ≡ some q) ↔ ((is_zero d ≡ false) × IsLowest n d q)
reduce_iff n d q = (
  λ e. elim (Bool-cases (is_zero d)) [
    | inl z ↦ absurd (ground (arith, reduce-zero n d z, e))
    | inr h ↦
        let (r, f, i) = reduce-some n d h in (h, subst (IsLowest n d) (ground (arith, e, f)) i)
  ],
  λ (h, i).
      let (r, f, j) = reduce-some n d h in
      f ∙ ap some (IsLowest-unique n d r q (abs-is_zero d h) j i),
)

IsLowest-cross :
    (n d n' d' : ℤ) (q : Rational)
    → 0 < abs d
    → n *ℤ d' ≡ n' *ℤ d
    → IsLowest n d q
    → IsLowest n' d' q
IsLowest-cross n d n' d' q h e i = record {
  same_value = *ℤ-cancel _ _ d h (
      q.n *ℤ d' *ℤ d
      ≡⟨ *ℤ-swap q.n d' d ⟩ q.n *ℤ d *ℤ d'
      ≡⟨ rw i.same_value (*ℤ-swap n q.d d') ⟩ n *ℤ d' *ℤ q.d
      ≡⟨ rw e (*ℤ-swap n' d q.d) ⟩ n' *ℤ q.d *ℤ d ∎);
  is_pos = i.is_pos;
  no_common = i.no_common;
}

-- Fractions of the same value reduce to the same.
pub reduce-cross :
    (n d n' d' : ℤ)
    → is_zero d ≡ false
    → is_zero d' ≡ false
    → n *ℤ d' ≡ n' *ℤ d
    → reduce n d ≡ reduce n' d'
reduce-cross n d n' d' h h' e =
    let (q, f, i) = reduce-some n d h in
    f ∙ sym ((reduce_iff n' d' q).1 (h', IsLowest-cross n d n' d' q (abs-is_zero d h) e i))
