-- ===== src/Calculation/Integers.antt =====
-- The `bigint` operations of evidence-calculation.ts, and the laws of them that fractions need.
use deep_research_app.Base.{
  refl, ◌≡◌, ℕ, suc, ◌+◌, if◌then◌else◌, ◌*◌, arith, ◌<◌, leb, ◌/◌, zero, ◌-◌, ◌∙◌,
}
use Prim.Native.Nat.{◌∣◌}
use native.Mathlib.Nat.{div-mul_cancel, eq_of_mul-eq-mul_right}
use mathlib.Core.Path.{ap}

pub data ℤ : Type 0 where
  pos negsuc : ℕ → ℤ

abbrev pub above : ℤ → ℕ
above (pos n) = n
above (negsuc n) = 0

abbrev pub below : ℤ → ℕ
below (pos n) = 0
below (negsuc n) = suc n

-- `abs(n)`, as a natural number
abbrev pub abs : ℤ → ℕ
abs (pos n) = n
abs (negsuc n) = suc n

-- `-n`
abbrev pub negate : ℤ → ℤ
negate (pos zero) = pos zero
negate (pos (suc n)) = negsuc n
negate (negsuc n) = pos (suc n)

-- `a - b` of two natural numbers
abbrev minus_ℕ : ℕ → ℕ → ℤ
minus_ℕ a b = if leb b a then pos (a - b) else negsuc (b - a - 1)

infixl 65 ◌+ℤ◌
infixl 65 ◌-ℤ◌
infixl 70 ◌*ℤ◌
unfoldable pub ◌+ℤ◌ : ℤ → ℤ → ℤ
pos m +ℤ pos n = pos (m + n)
pos m +ℤ negsuc n = minus_ℕ m (suc n)
negsuc m +ℤ pos n = minus_ℕ n (suc m)
negsuc m +ℤ negsuc n = negsuc (suc (m + n))

unfoldable pub ◌-ℤ◌ : ℤ → ℤ → ℤ
unfolding ◌+ℤ◌
a -ℤ b = a +ℤ negate b

unfoldable pub ◌*ℤ◌ : ℤ → ℤ → ℤ
pos m *ℤ b = if leb (below b) 0 then pos (m * above b) else negate (pos (m * below b))
negsuc m *ℤ b = if leb (below b) 0 then negate (pos (suc m * above b)) else pos (suc m * below b)

-- `n / a` for a positive `a`: the quotient is rounded towards zero.
unfoldable pub quot : ℤ → ℕ → ℤ
quot (pos n) a = pos (n / a)
quot (negsuc n) a = negate (pos (suc n / a))

pub parts-eq : (a b : ℤ) → above a + below b ≡ above b + below a → a ≡ b
parts-eq (pos m) (pos n) h = ground arith
parts-eq (pos m) (negsuc n) h = ground arith
parts-eq (negsuc m) (pos n) h = ground arith
parts-eq (negsuc m) (negsuc n) h = ground arith

parts-+ℤ : (a b : ℤ) → above (a +ℤ b) + (below a + below b) ≡ below (a +ℤ b) + (above a + above b)
unfolding ◌+ℤ◌
parts-+ℤ a b = ground arith

pub above-*ℤ : (a b : ℤ) → above (a *ℤ b) ≡ above a * above b + below a * below b
unfolding ◌*ℤ◌
above-*ℤ a b = ground arith

pub below-*ℤ : (a b : ℤ) → below (a *ℤ b) ≡ above a * below b + below a * above b
unfolding ◌*ℤ◌
below-*ℤ a b = ground arith

pub above-negate : (a : ℤ) → above (negate a) ≡ below a
above-negate a = ground arith

pub below-negate : (a : ℤ) → below (negate a) ≡ above a
below-negate a = ground arith

pub ruleset product_parts = (above-*ℤ, below-*ℤ, above-negate, below-negate)

pub *ℤ-comm : (a b : ℤ) → a *ℤ b ≡ b *ℤ a
*ℤ-comm a b = parts-eq _ _ (simp product_parts (omega arith))

pub *ℤ-assoc : (a b c : ℤ) → a *ℤ b *ℤ c ≡ a *ℤ (b *ℤ c)
*ℤ-assoc a b c = parts-eq _ _ (simp product_parts (omega arith))

pub *ℤ-swap : (a b c : ℤ) → a *ℤ b *ℤ c ≡ a *ℤ c *ℤ b
*ℤ-swap a b c = parts-eq _ _ (simp product_parts (omega arith))

pub *ℤ-gather : (a b c : ℤ) → a *ℤ b *ℤ c ≡ a *ℤ (c *ℤ b)
*ℤ-gather a b c = *ℤ-swap a b c ∙ *ℤ-assoc a c b

pub *ℤ-cross : (a b c d : ℤ) → a *ℤ b *ℤ (c *ℤ d) ≡ a *ℤ c *ℤ (b *ℤ d)
*ℤ-cross a b c d = parts-eq _ _ (simp product_parts (omega arith))

pub negate-*ℤ : (a b : ℤ) → negate a *ℤ b ≡ negate (a *ℤ b)
negate-*ℤ a b = parts-eq _ _ (simp product_parts (omega arith))

pub *ℤ-negate : (a b : ℤ) → a *ℤ negate b ≡ negate (a *ℤ b)
*ℤ-negate a b = parts-eq _ _ (simp product_parts (omega arith))

pub +ℤ-*ℤ : (a b c : ℤ) → (a +ℤ b) *ℤ c ≡ a *ℤ c +ℤ b *ℤ c
+ℤ-*ℤ a b c = parts-eq _ _ (
    simp product_parts (
      omega (
        arith,
        simp product_parts at (parts-+ℤ (a *ℤ c) (b *ℤ c)),
        ap (λ (t : ℕ). t * above c) (parts-+ℤ a b),
        ap (λ (t : ℕ). t * below c) (parts-+ℤ a b),
      )))

pub minus-plus : (a b : ℤ) → a -ℤ b +ℤ b ≡ a
unfolding ◌-ℤ◌
minus-plus a b =
    parts-eq _ _
      (omega (arith, above-negate, below-negate, parts-+ℤ (a +ℤ negate b) b, parts-+ℤ a (negate b)))

pub minus-*ℤ : (a b c : ℤ) → (a -ℤ b) *ℤ c ≡ a *ℤ c -ℤ b *ℤ c
unfolding ◌-ℤ◌
minus-*ℤ a b c = +ℤ-*ℤ a (negate b) c ∙ rw (negate-*ℤ b c) refl

pub abs-*ℤ : (a b : ℤ) → abs (a *ℤ b) ≡ abs a * abs b
unfolding ◌*ℤ◌
abs-*ℤ a b = ground arith

pub abs-negate : (a : ℤ) → abs (negate a) ≡ abs a
abs-negate a = ground arith

pub abs-quot : (a : ℤ) (g : ℕ) → abs (quot a g) ≡ abs a / g
unfolding quot
abs-quot a g = ground arith

pub quot-*ℤ : (a : ℤ) (g : ℕ) → g ∣ abs a → quot a g *ℤ pos g ≡ a
unfolding quot ◌*ℤ◌
quot-*ℤ (pos n) g h = ap pos (div-mul_cancel g h)
quot-*ℤ (negsuc n) g h =
    negate-*ℤ (pos (suc n / g)) (pos g) ∙ ap (λ k. negate (pos k)) (div-mul_cancel g h)

pub negate-negate : (a : ℤ) → negate (negate a) ≡ a
negate-negate a = ground arith

pub pos-* : (m n : ℕ) → pos (m * n) ≡ pos m *ℤ pos n
unfolding ◌*ℤ◌
pos-* m n = refl

pub pos-abs : (a b : ℤ) → 0 < above a → 0 < above b → abs a ≡ abs b → a ≡ b
pos-abs a b ha hb e = ground arith

pub *ℤ-cancel : (a b c : ℤ) → 0 < abs c → a *ℤ c ≡ b *ℤ c → a ≡ b
*ℤ-cancel a b c h e = parts-eq a b (eq_of_mul-eq-mul_right (abs c) h _ _ (scaled c e))
  where
    scaled : (c : ℤ) → a *ℤ c ≡ b *ℤ c → (above a + below b) * abs c ≡ (above b + below a) * abs c
    scaled (pos n) e = omega (arith, product_parts, ap above e, ap below e)
    scaled (negsuc n) e = omega (arith, product_parts, ap above e, ap below e)
