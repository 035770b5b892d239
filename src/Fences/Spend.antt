-- ===== src/Fences/Spend.antt =====
-- The run's budget: what exploring may use, and that writing stays payable.
use Prim.Native.Nat.{max}
use deep_research_app.Base.{ℕ, ◌+◌, ◌*◌, ◌≤◌, ◌≡◌, ◌↔◌, refl, true, false, some, arith}
use deep_research_app.Fences.{SpendArgs, can_spend_exploration, writing_reserve, reserve_of}

-- An action may be paid for exactly when it fits the budget, together with the reserve if it is not
-- a finishing action.
pub can_spend_iff :
    (args : SpendArgs)
    → (can_spend_exploration args ≡ true) ↔ (
        (args.spent + args.cost ≤ args.total)
        × (args.is_finishing ≡ false → args.spent + args.cost + reserve_of args ≤ args.total))
unfolding can_spend_exploration
can_spend_iff args = (λ h. ground arith, λ h. ground arith)

module _ (total finishing : ℕ) where
  abbrev pub exploring : ℕ → ℕ → SpendArgs
  exploring spent cost = record {
    total = total;
    spent = spent;
    cost = cost;
    is_finishing = false;
    finishing_cost = some finishing;
  }

  abbrev pub finishing_at : ℕ → SpendArgs
  finishing_at spent = record {
    total = total;
    spent = spent;
    cost = finishing;
    is_finishing = true;
    finishing_cost = some finishing;
  }

  -- Paid exploring actions, one after the other.
  pub data Explores (start : ℕ) : ℕ → Type 0 where
    begin : Explores start start
    pay :
        {spent : ℕ} (cost : ℕ)
        → Explores start spent
        → can_spend_exploration (exploring spent cost) ≡ true
        → Explores start (spent + cost)

  Explores-reserve :
      {start spent : ℕ}
      → start + max (writing_reserve total) finishing ≤ total
      → Explores start spent
      → spent + max (writing_reserve total) finishing ≤ total
  Explores-reserve h begin = h
  Explores-reserve h (pay {spent} cost r paid) =
      ((can_spend_iff (exploring spent cost)).0 paid).1 refl

-- Where the reserve is free at the start: however many exploring actions the check lets through, a fifth of the budget (rounded up) and the
-- cost of writing are left, and writing passes the check.
pub can_spend-finishing :
    (total finishing start spent : ℕ)
    → start + max (writing_reserve total) finishing ≤ total
    → Explores total finishing start spent
    → (can_spend_exploration (finishing_at total finishing spent) ≡ true)
      × (5 * spent + total ≤ 5 * total)
unfolding writing_reserve
can_spend-finishing total finishing start spent h r =
    let left = Explores-reserve total finishing h r in
    (
      (can_spend_iff (finishing_at total finishing spent)).1
          (omega (arith, left), λ e. ground arith),
      omega (arith, left),
    )
