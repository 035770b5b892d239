-- ===== src/Calculation/Fractions.antt =====
-- `reduce` of evidence-calculation.ts: fractions in lowest terms, by Euclid's loop.
pub mod Gcd
pub mod Lowest
use deep_research_app.Calculation.Integers.{ℤ, pos, negsuc, quot, abs, negate}
use Prim.Native.Nat.{◌%◌, ℕ, suc}
use deep_research_app.Base.{
  refl, ◌≡◌, ℕ, Option, Bool, some, true, false, if◌then◌else◌, suc, none, zero,
}

pub record Rational : Type 0 where
  pub n : ℤ
  pub d : ℤ

-- `while (b) { const r = a % b; a = b; b = r; }`, and the `a` it ends with. `none` stands for a
-- loop that is not over after `fuel` rounds.
unfoldable pub euclid : ℕ → ℕ → ℕ → Option ℕ
euclid fuel a zero = some a
euclid zero a (suc b) = none
euclid (suc fuel) a (suc b) = euclid fuel (suc b) (a % suc b)

unfoldable pub is_zero : ℤ → Bool
is_zero (pos zero) = true
is_zero _ = false

abbrev pub is_negative : ℤ → Bool
is_negative (pos n) = false
is_negative (negsuc n) = true

unfoldable pub quotients : ℤ → ℤ → Option ℕ → Option Rational
quotients n d none = none
quotients n d (some a) = some (record { n = quot n a; d = quot d a })

unfoldable pub reduce_signed : ℤ → ℤ → Option Rational
unfolding quotients
reduce_signed n d = quotients n d (euclid (suc (abs d)) (abs n) (abs d))

-- `none` stands for the error `zero_denominator` that is thrown.
unfoldable pub reduce : ℤ → ℤ → Option Rational
unfolding is_zero reduce_signed
reduce n d =
    if is_zero d
    then none
    else if is_negative d
    then reduce_signed (negate n) (negate d)
    else reduce_signed n d

reduce_runs : reduce (pos 6) (negsuc 3) ≡ some (record { n = negsuc 2; d = pos 2 })
unfolding reduce euclid quot
reduce_runs = refl
