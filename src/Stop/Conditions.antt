-- ===== src/Stop/Conditions.antt =====
-- What the tests of the stop decision decide, in terms of the state.
use deep_research_app.Disconfirm.{disconfirmation_completed}
use deep_research_app.Gaps.Conflicts.{is_completed}
use deep_research_app.Stop.{
  is_blocking_open, gap_unresolvable, blocking_open, contradiction_pending, disconfirm_pending,
  still_resolvable, disconfirmation_completed,
}
use deep_research_app.Contradictions.{detect_contradictions, unresolved_contradictions}
use deep_research_app.Admission.Guards.{differs}
use deep_research_app.Policy.{saturation_reached}
use deep_research_app.Types.{
  SearchTrace, Gap, ControllerState, blocking, unresolved, untried, Resolution, ChallengeResult,
  is_unresolved, is_untried, Contradiction, Disconfirmation, counterevidence_found,
  no_counterexample_found,
}
use deep_research_app.Base.{
  refl, ◌≡◌, List, Bool, Option, false, ◌∷◌, ◌≢◌, Any, true, nat_eq, String, some, ◌⊎◌, [], ◌↔◌,
  ◌&&◌, same_text, length, or_else, arith, not, ◌<◌, ◌==◌, ap, ne_iff, eq_iff, none, take_last, ltb,
  every, ◌||◌, ◌-◌, Bool-cases, select, some_of-eq-true_iff, suc, inl, leb, some_of, inr,
}

-- A search that found nothing new.
abbrev pub IsBarren : SearchTrace → Type 0
IsBarren s = (s.new_families ≡ 0) × (s.coverage_progress ≡ false)

-- The last two searches found nothing new.
abbrev pub EndsBarren : List SearchTrace → Type 0
EndsBarren [] = ⊥
EndsBarren (s ∷ []) = ⊥
EndsBarren (s ∷ t ∷ []) = IsBarren s × IsBarren t
EndsBarren (s ∷ t ∷ u ∷ rest) = EndsBarren (t ∷ u ∷ rest)

abbrev pub IsOpen : Gap → Type 0
IsOpen g =
    (g.importance ≡ blocking)
    × (g.latest_outcome ≢ some "resolved")
    × (g.resolution ≢ some "resolved")

-- A gap that was not found closed, and that was tried at most once or with some success.
abbrev pub IsResolvable : Gap → Type 0
IsResolvable g =
    (g.latest_outcome ≢ some "inaccessible")
    × (g.latest_outcome ≢ some "blocked")
    × ((length g.attempts < 2)
        ⊎ Any (λ a. (a.outcome ≢ "no_progress") × (a.outcome ≢ "blocked")) g.attempts)

-- The first open gap is resolvable.
abbrev pub HasResolvable : List Gap → Type 0
HasResolvable [] = ⊥
HasResolvable (g ∷ gs) = (IsOpen g × IsResolvable g) ⊎ (¬ IsOpen g × HasResolvable gs)

-- A contradiction of the state is unresolved, no action has verified one, and they are handled.
abbrev pub AwaitsVerification : ControllerState → Type 0
AwaitsVerification state =
    Any (λ c. c.resolution_status ≡ unresolved)
      (or_else state.contradictions (detect_contradictions state))
    × ¬ Any (λ t. t ≡ "verify") state.completed_action_types
    × (state.ablations.disable_contradiction_handling ≡ false)

-- There is evidence, the conclusion has not been challenged, and challenges are wanted.
abbrev pub AwaitsChallenge : ControllerState → Type 0
AwaitsChallenge state =
    (state.passages ≢ [])
    × ¬ Any (λ d. d.result ≢ untried) state.disconfirmations
    × ¬ Any (λ t. t ≡ "challenge") state.completed_action_types
    × (state.ablations.disable_disconfirmation ≡ false)

-- Tests against the propositions that they decide.
pub test-false_iff {ℓ} : {P : Type ℓ} (b : Bool) → (b ≡ true) ↔ P → (b ≡ false) ↔ ¬ P
test-false_iff true h = (λ e. absurd (ground (arith, e)), λ no. absurd (no (h.0 refl)))
test-false_iff false h = (λ e p. ground (arith, h.1 p), λ no. refl)

IsBarren-iff :
    (s : SearchTrace) → (nat_eq s.new_families 0 && not s.coverage_progress ≡ true) ↔ IsBarren s
IsBarren-iff s = (λ h. ground (arith, h), λ h. ground (arith, h))

last_two-cons :
    (s t u : SearchTrace) (rest : List SearchTrace)
    → take_last 2 (s ∷ t ∷ u ∷ rest) ≡ take_last 2 (t ∷ u ∷ rest)
last_two-cons s t u rest =
    let e : length (s ∷ t ∷ u ∷ rest) - 2 ≡ suc (length (t ∷ u ∷ rest) - 2) = omega arith in
    rw e refl

few_searches :
    (s t u : SearchTrace) (rest : List SearchTrace)
    → ltb (length (s ∷ t ∷ u ∷ rest)) 2 ≡ ltb (length (t ∷ u ∷ rest)) 2
few_searches s t u rest = ground arith

saturation-cons :
    (s t u : SearchTrace) (rest : List SearchTrace)
    → saturation_reached (s ∷ t ∷ u ∷ rest) ≡ saturation_reached (t ∷ u ∷ rest)
unfolding saturation_reached
saturation-cons s t u rest = rw (few_searches s t u rest, last_two-cons s t u rest) refl

pub saturation_iff :
    (searches : List SearchTrace) → (saturation_reached searches ≡ true) ↔ EndsBarren searches
unfolding saturation_reached
saturation_iff [] = (λ h. ground (arith, h), λ h. elim h [ ])
saturation_iff (s ∷ []) = (λ h. ground (arith, h), λ h. elim h [ ])
saturation_iff (s ∷ t ∷ []) = (λ h. ground (arith, h), λ h. ground (arith, h))
saturation_iff (s ∷ t ∷ u ∷ rest) = rw (saturation-cons s t u rest) (saturation_iff (t ∷ u ∷ rest))

differs_iff : (o : Option String) (text : String) → (differs o text ≡ true) ↔ (o ≢ some text)
differs_iff none text = (λ h e. ground (arith, e), λ h. refl)
differs_iff (some s) text =
    (λ h e. ground (arith, eq_iff s text, h, e), λ h. not_equal s text (λ e. h (ap some e)))
  where
    not_equal : (s t : String) → s ≢ t → not (s == t) ≡ true
    not_equal s t h = rw ((ne_iff s t).1 h) refl

same_text_iff : (o : Option String) (text : String) → (same_text o text ≡ true) ↔ (o ≡ some text)
same_text_iff none text = (λ h. ground (arith, h), λ h. ground (arith, h))
same_text_iff (some s) text =
    (λ h. ap some ((eq_iff s text).0 h), λ h. ground (arith, eq_iff s text, h))

IsOpen-iff : (g : Gap) → (is_blocking_open g ≡ true) ↔ IsOpen g
unfolding is_blocking_open
IsOpen-iff g = (
  λ h. (
    ground (arith, h),
    (differs_iff g.latest_outcome "resolved").0 (ground (arith, h)),
    (differs_iff g.resolution "resolved").0 (ground (arith, h)),
  ),
  λ (important, tried, unsettled).
      rw
        (
          important,
          (differs_iff g.latest_outcome "resolved").1 tried,
          (differs_iff g.resolution "resolved").1 unsettled,
        )
        refl,
)

every-false_iff {ℓ} :
    {A : Type ℓ} (p : A → Bool) (P : A → Type 0)
    → ((x : A) → (p x ≡ false) ↔ P x)
    → (xs : List A) → (every p xs ≡ false) ↔ Any P xs
every-false_iff p P h [] = (λ e. ground (arith, e), λ e. elim e [ ])
every-false_iff p P h (x ∷ xs) = (
  λ e. elim (Bool-cases (p x)) [
    | inl holds ↦ inr ((every-false_iff p P h xs).0 (rw holds at e))
    | inr fails ↦ inl ((h x).0 fails)
  ],
  λ e. elim e [
    | inl here ↦ rw ((h x).1 here) refl
    | inr there ↦ ground (arith, (every-false_iff p P h xs).1 there)
  ],
)

useless_iff :
    (outcome : String)
    → (outcome == "no_progress" || outcome == "blocked" ≡ false)
      ↔ ((outcome ≢ "no_progress") × (outcome ≢ "blocked"))
useless_iff outcome = (
  λ h. (
    (ne_iff outcome "no_progress").0 (ground (arith, h)),
    (ne_iff outcome "blocked").0 (ground (arith, h)),
  ),
  λ (a, b). rw ((ne_iff outcome "no_progress").1 a, (ne_iff outcome "blocked").1 b) refl,
)

some_useful_iff :
    (g : Gap)
    → (every (λ a. a.outcome == "no_progress" || a.outcome == "blocked") g.attempts ≡ false)
      ↔ Any (λ a. (a.outcome ≢ "no_progress") × (a.outcome ≢ "blocked")) g.attempts
some_useful_iff g = every-false_iff _ _ (λ a. useless_iff a.outcome) g.attempts

not_found_iff : (o : Option String) (text : String) → (same_text o text ≡ false) ↔ (o ≢ some text)
not_found_iff o text = test-false_iff (same_text o text) (same_text_iff o text)

IsResolvable-iff : (g : Gap) → (gap_unresolvable g ≡ false) ↔ IsResolvable g
unfolding gap_unresolvable
IsResolvable-iff g = (
  λ h. (
    (not_found_iff g.latest_outcome "inaccessible").0 (ground (arith, h)),
    (not_found_iff g.latest_outcome "blocked").0 (ground (arith, h)),
    elim (Bool-cases (leb 2 (length g.attempts))) [
      | inl many ↦ inr ((some_useful_iff g).0 (ground (arith, h, many)))
      | inr few ↦ inl (ground (arith, few))
    ],
  ),
  λ (found, unblocked, tried).
      rw
        (
          (not_found_iff g.latest_outcome "inaccessible").1 found,
          (not_found_iff g.latest_outcome "blocked").1 unblocked,
        )
        (elim tried [
          | inl few ↦ ground (arith, few)
          | inr useful ↦ ground (arith, (some_useful_iff g).1 useful)
        ]),
)

pub still_resolvable_iff :
    (gaps : List Gap) → (still_resolvable (blocking_open gaps) ≡ true) ↔ HasResolvable gaps
unfolding blocking_open
still_resolvable_iff [] = (λ h. ground (arith, h), λ h. elim h [ ])
still_resolvable_iff (g ∷ gs) = elim (Bool-cases (is_blocking_open g)) [
  | inl this ↦ rw this (
    λ h. inl ((IsOpen-iff g).0 this, (IsResolvable-iff g).0 (ground (arith, h))),
    λ h. elim h [
      | inl (known, resolvable) ↦ rw ((IsResolvable-iff g).1 resolvable) refl
      | inr (closed, rest) ↦ absurd (closed ((IsOpen-iff g).0 this))
    ],
  )
  | inr other ↦ rw other (
    λ h. inr ((test-false_iff _ (IsOpen-iff g)).0 other, (still_resolvable_iff gs).0 h),
    λ h. elim h [
      | inl (known, resolvable) ↦ absurd (ground (arith, other, (IsOpen-iff g).1 known))
      | inr (closed, rest) ↦ (still_resolvable_iff gs).1 rest
    ],
  )
]

select-nonempty_iff {ℓ} :
    {A : Type ℓ} (p : A → Bool) (xs : List A)
    → (ltb 0 (length (select p xs)) ≡ true) ↔ (some_of p xs ≡ true)
select-nonempty_iff p [] = (λ h. ground (arith, h), λ h. ground (arith, h))
select-nonempty_iff p (x ∷ xs) = elim (Bool-cases (p x)) [
  | inl this ↦ rw this (λ h. refl, λ h. ground arith)
  | inr other ↦ rw other (select-nonempty_iff p xs)
]

unresolved_iff : (r : Resolution) → (is_unresolved r ≡ true) ↔ (r ≡ unresolved)
unresolved_iff r = (λ h. ground (arith, h), λ h. ground (arith, h))

unresolved-Any :
    (state : ControllerState)
    → (ltb 0 (length (unresolved_contradictions state)) ≡ true)
      ↔ Any
          (λ c. c.resolution_status ≡ unresolved)
          (or_else state.contradictions (detect_contradictions state))
unfolding unresolved_contradictions
unresolved-Any state =
    let cs = or_else state.contradictions (detect_contradictions state) in
    let nonempty = select-nonempty_iff (λ c. is_unresolved c.resolution_status) cs in
    let any =
      some_of-eq-true_iff _ _ (λ (c : Contradiction). unresolved_iff c.resolution_status) cs in
    (λ h. any.0 (nonempty.0 h), λ h. nonempty.1 (any.1 h))

-- An action of a type has been completed.
completed_iff :
    (type : String) (state : ControllerState)
    → (is_completed type state ≡ true) ↔ Any (λ t. t ≡ type) state.completed_action_types
completed_iff type state = some_of-eq-true_iff _ _ (λ t. eq_iff t type) state.completed_action_types

pub contradiction_pending_iff :
    (state : ControllerState) → (contradiction_pending state ≡ true) ↔ AwaitsVerification state
unfolding contradiction_pending
contradiction_pending_iff state =
    let not_done = test-false_iff _ (completed_iff "verify" state) in
    (
      λ h. (
        (unresolved-Any state).0 (ground (arith, h)),
        not_done.0 (ground (arith, h)),
        ground (arith, h),
      ),
      λ (some_left, undone, handled).
          rw ((unresolved-Any state).1 some_left, not_done.1 undone, handled) refl,
    )

challenged_iff : (r : ChallengeResult) → (not (is_untried r) ≡ true) ↔ (r ≢ untried)
challenged_iff counterevidence_found = (λ h e. ground (arith, e), λ h. refl)
challenged_iff no_counterexample_found = (λ h e. ground (arith, e), λ h. refl)
challenged_iff untried = (λ h. ground (arith, h), λ h. absurd (h refl))

nonempty_iff {ℓ} : {A : Type ℓ} (xs : List A) → (ltb 0 (length xs) ≡ true) ↔ (xs ≢ [])
nonempty_iff [] = (λ h. ground (arith, h), λ h. absurd (h refl))
nonempty_iff (x ∷ xs) = (λ h e. ground (arith, e), λ h. ground arith)

pub disconfirm_pending_iff :
    (state : ControllerState) → (disconfirm_pending state ≡ true) ↔ AwaitsChallenge state
unfolding disconfirm_pending disconfirmation_completed
disconfirm_pending_iff state =
    let untold = test-false_iff _ (
      some_of-eq-true_iff _ _ (λ (d : Disconfirmation). challenged_iff d.result)
        state.disconfirmations) in
    let not_done = test-false_iff _ (completed_iff "challenge" state) in
    (
      λ h. (
        (nonempty_iff state.passages).0 (ground (arith, h)),
        untold.0 (ground (arith, h)),
        not_done.0 (ground (arith, h)),
        ground (arith, h),
      ),
      λ (evidence, unchallenged, undone, wanted).
          rw
            (
              (nonempty_iff state.passages).1 evidence,
              untold.1 unchallenged,
              not_done.1 undone,
              wanted,
            )
            refl,
    )
