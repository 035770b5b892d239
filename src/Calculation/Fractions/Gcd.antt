-- ===== src/Calculation/Fractions/Gcd.antt =====
-- Euclid's loop ends with the greatest common divisor.
use deep_research_app.Calculation.Fractions.{euclid}
use Prim.Native.Nat.{◌∣◌, ◌%◌, ℕ, suc}
use native.Mathlib.Nat
use mathlib.Core.Path.{subst, ap}
use deep_research_app.Base.{refl, ◌≡◌, ℕ, ◌*◌, suc, ◌<◌, some, ◌/◌, arith, ◌+◌, zero, ◌≤◌}

pub record IsGcd (a b g : ℕ) : Type 0 where
  pub divides_left : g ∣ a
  pub divides_right : g ∣ b
  pub is_greatest : (k c : ℕ) → k ∣ a * c → k ∣ b * c → k ∣ g * c

dvd-rest : (k a b c : ℕ) → k ∣ a * c → k ∣ b * c → k ∣ a % b * c
dvd-rest k a b c ha hb =
    (Nat.dvd-add_iff_right k (Nat.dvd-mul_right_of_dvd k hb (a / b))).1 (subst (◌∣◌ k) divided ha)
  where
    divided : a * c ≡ b * c * (a / b) + a % b * c
    divided = omega (arith, ap (λ (t : ℕ). t * c) (Nat.div-add-mod a b))

IsGcd-step : (a b g : ℕ) → IsGcd (suc b) (a % suc b) g → IsGcd a (suc b) g
IsGcd-step a b g h = record {
  divides_left = (Nat.dvd-mod_iff g h.divides_left).0 h.divides_right;
  divides_right = h.divides_left;
  is_greatest = λ k c ha hb. h.is_greatest k c hb (dvd-rest k a (suc b) c ha hb);
}

-- Euclid's loop is over after at most `b` rounds, and then holds the greatest common divisor.
pub euclid-IsGcd : (fuel a b : ℕ) → b ≤ fuel → (g : ℕ) × (euclid fuel a b ≡ some g) × IsGcd a b g
unfolding euclid
euclid-IsGcd fuel a zero h = (
  a,
  refl,
  record {
    divides_left = Nat.dvd_refl a;
    divides_right = Nat.dvd-zero a;
    is_greatest = λ k c ha hb. ha;
  },
)
euclid-IsGcd zero a (suc b) h = absurd (omega arith)
euclid-IsGcd (suc fuel) a (suc b) h =
    let (g, e, i) = euclid-IsGcd fuel (suc b) (a % suc b) (omega arith) in
    (g, e, IsGcd-step a b g i)

IsGcd-pos : (a b g : ℕ) → 0 < b → IsGcd a b g → 0 < g
IsGcd-pos a b g h i = Nat.pos_of_dvd_of_pos i.divides_right h

-- The quotients by the greatest common divisor have no common divisor but one.
pub IsGcd-quotients : (a b g : ℕ) → 0 < b → IsGcd a b g → (k : ℕ) → k ∣ a / g → k ∣ b / g → k ≡ 1
IsGcd-quotients a b g h i k ha hb =
    Nat.eq-one_of_dvd-one
      (Nat.dvd_of_mul-dvd-mul_right k (IsGcd-pos a b g h i) (rw Nat.one-mul both))
  where
    scaled : (n : ℕ) → g ∣ n → k ∣ n / g → k * g ∣ n * 1
    scaled n hg hk =
        rw Nat.mul-one
          (subst (◌∣◌ (k * g)) (Nat.div-mul_cancel g hg) (Nat.mul-dvd-mul_right k hk g))

    both : k * g ∣ g
    both =
        rw Nat.mul-one at
          (i.is_greatest (k * g) 1 (scaled a i.divides_left ha) (scaled b i.divides_right hb))
