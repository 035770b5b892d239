-- ===== src/Admission/Stops.antt =====
-- Every guard of the admission gate, when it refuses a proposal, makes it a stop.
use deep_research_app.Admission.{
  refusal_of, Refusal, List, Decision, capability_guard, some, Options, type_guard,
  privileged_guard, synthesize_guard, live_guard, deleted_guard, ◌∷◌, simple, cancelled_guard,
  run_guard, revision_guard, duplicate_guard, locator_guard, coverage_guard, leak_guard, cost_guard,
  Schemas,
}
use deep_research_app.Types.{ControllerState, Decision}
use deep_research_app.Admission.Guards.{
  first_refusal, Refusal, capability_guard, refuse, Options, type_guard, privileged_guard,
  synthesize_guard, live_guard, deleted_guard, with_detail, simple, cancelled_guard, run_guard,
  revision_guard, duplicate_guard, locator_guard, coverage_guard, leak_guard, cost_guard, Schemas,
}
use deep_research_app.Base.{
  refl, ◌≡◌, Option, Bool, List, All, some, arith, ◌∷◌, true, [], false, none,
}

-- What a guard returns is a stop.
abbrev IsStop : Option Refusal → Type 0
IsStop o = (r : Refusal) → o ≡ some r → r.type ≡ "stop"

first_refusal-IsStop :
    (guards : List (Option Refusal)) → All IsStop guards → IsStop (first_refusal guards)
unfolding first_refusal
first_refusal-IsStop [] h r e = ground (arith, e)
first_refusal-IsStop (none ∷ guards) h r e = first_refusal-IsStop guards h.1 r e
first_refusal-IsStop (some s ∷ guards) h r e = h.0 r e

refuse-IsStop : (b : Bool) (s : Refusal) → s.type ≡ "stop" → IsStop (refuse b s)
refuse-IsStop true s h r e = ground (arith, e, h)
refuse-IsStop false s h r e = ground (arith, e)

module _ (state : ControllerState) (p : Decision) (opts : Options) where
  privileged-IsStop : IsStop (privileged_guard p)
  unfolding privileged_guard
  privileged-IsStop r e = ground (arith, e)

  synthesize-IsStop : IsStop (synthesize_guard state p)
  unfolding synthesize_guard with_detail simple
  synthesize-IsStop r e = ground (arith, e)

  live-IsStop : IsStop (live_guard p opts)
  unfolding live_guard simple
  live-IsStop r e = ground (arith, e)

-- Whatever the guards refuse, they make a stop.
pub refusal_of-type :
    (z : Schemas) (state : ControllerState) (p : Decision) (opts : Options) (r : Refusal)
    → refusal_of z state p opts ≡ some r
    → r.type ≡ "stop"
unfolding refusal_of capability_guard type_guard deleted_guard cancelled_guard run_guard
    revision_guard duplicate_guard locator_guard coverage_guard leak_guard cost_guard with_detail
    simple
refusal_of-type z state p opts = first_refusal-IsStop _ (
  refuse-IsStop _ _ refl,
  (
    refuse-IsStop _ _ refl,
    (
      privileged-IsStop state p opts,
      (
        refuse-IsStop _ _ refl,
        (
          refuse-IsStop _ _ refl,
          (
            refuse-IsStop _ _ refl,
            (
              refuse-IsStop _ _ refl,
              (
                refuse-IsStop _ _ refl,
                (
                  refuse-IsStop _ _ refl,
                  (
                    synthesize-IsStop state p opts,
                    (
                      refuse-IsStop _ _ refl,
                      (
                        refuse-IsStop _ _ refl,
                        (live-IsStop state p opts, (refuse-IsStop _ _ refl, tt)),
                      ),
                    ),
                  ),
                ),
              ),
            ),
          ),
        ),
      ),
    ),
  ),
)
