-- ===== src/Stop/Verdicts.antt =====
-- What the stop decision promises.
use deep_research_app.Policy.{saturation_reached}
use deep_research_app.Admission.Guards.{spend_args}
use deep_research_app.Types.{ControllerState}
use deep_research_app.Stop.{spend_args, saturation_reached}
use deep_research_app.Base.{◌+◌, ℕ, ◌≤◌}
use deep_research_app.Fences.{writing_reserve}
use Prim.Native.Nat.{max, ℕ}

-- A search of 5000 can be paid for, with the reserve for writing left over.
abbrev pub AffordsSearch : ControllerState → Type 0
AffordsSearch state =
    state.spent_micro + 5000 + max (writing_reserve state.budget_micro) 8000 ≤ state.budget_micro
