-- ===== src/Adaptive/Searches.antt =====
-- What the chosen actions send out: the query of a choice.
use deep_research_app.Loop.{refresh_derived}
use deep_research_app.Admission.Guards.{fetch_cost, search_cost}
use deep_research_app.Disconfirm.{plan_disconfirmation}
use deep_research_app.Questions.{constraint_on}
use deep_research_app.Contradictions.{unresolved_contradictions}
use deep_research_app.Adaptive.Finish.{
  uncovered_step, continue_gap_step, continue_verify, continue_pending, continue_step, finish_step,
  uncovered_search, continue_gap, first_id, reserve_for_writing, uncovered_of,
  open_blocking_question, opened_public,
}
use deep_research_app.Injection.{query_leaks_private}
use deep_research_app.Injection.Leaks.{IsAbsent, query_leaks-none_iff, query_leaks-nonempty}
use deep_research_app.Adaptive.Steps.{
  out_of_budget, deleted_step, clarify_step, preferred_fetch, preferred_fetch_step, gap_pivot_step,
  fetch_proposal, needed_type, gap_pivot, blocking_gap, gap_search,
}
use deep_research_app.Adaptive.Checks.{
  weak_pivot_step, known_fetch_step, population_pivot_step, verify_step, challenge_step,
  saturation_step, weak_pivot, population_pivot, verify_proposal, challenge_search,
  challenge_record,
}
use deep_research_app.Adaptive.{
  first_step, List, preferred_fetch_step, gap_pivot_step, weak_pivot_step, known_fetch_step,
  population_pivot_step, verify_step, challenge_step, saturation_step, uncovered_step,
  continue_step, finish_step, choose, steps_of, select_adaptive_action, refresh_again,
  refresh_derived,
}
use deep_research_app.Adaptive.Proposals.{
  leak_or_search, propose, with_reason, preferred_unfetched, unfetched_sources, can_pay,
}
use deep_research_app.Types.{ControllerState, Decision, Contradiction, Source}
use deep_research_app.Types.Values.{lookup, assign, Value, str, spread, Arguments}
use deep_research_app.Base.{
  [], ◌∷◌, none, some, refl, ◌≡◌, All, Option, Bool, String, arith, if◌then◌else◌, List,
  Option-cases, true, false, eq_refl, inl, inr, ne_iff, or_try, head?, ◌++◌, Bool-cases, ◌==◌,
  is_some, ◌||◌, ◌&&◌, ltb, length, not,
}

lookup-assign :
    (key : String) (v : Value) (args : Arguments) → lookup key (assign key v args) ≡ some v
unfolding lookup assign
lookup-assign key v [] = ground (arith, eq_refl key)
lookup-assign key v ((k, w) ∷ rest) = ground (arith, lookup-assign key v rest)

module _ (state : ControllerState) where
  -- A query that the action carries holds no private text of the run.
  abbrev pub IsPublic : Decision → Type 0
  IsPublic d =
      (q : String)
      → lookup "query" d.arguments ≡ some (str q)
      → All (IsAbsent q) state.private_canaries

  abbrev pub IsPublicStep : Option Decision → Type 0
  IsPublicStep none = Unit
  IsPublicStep (some d) = IsPublic d

  -- Nothing is sent where the arguments have no query.
  quiet :
      (q : String)
      → ◌≡◌ {A = Option Value} none (some (str q))
      → All (IsAbsent q) state.private_canaries
  quiet q h = ground arith

  sent :
      (query q : String)
      → query_leaks_private query state.private_canaries ≡ none
      → ◌≡◌ {A = Option Value} (some (str query)) (some (str q))
      → All (IsAbsent q) state.private_canaries
  sent query q clean h =
      let e : query ≡ q = ground (arith, h) in
      rw e at ((query_leaks-none_iff query state.private_canaries).0 clean)

  leak_or_search-IsPublic :
      (query : String) (d : Decision) → IsPublic (leak_or_search state query d)
  unfolding leak_or_search propose lookup
  leak_or_search-IsPublic query d q =
      elim (Option-cases (query_leaks_private query state.private_canaries)) [
        | inl clean ↦
            rw clean (rw (lookup-assign "query" (str query) d.arguments) (sent query q clean))
        | inr (c, leak) ↦
            let given =
              (ne_iff c "").1 (query_leaks-nonempty query state.private_canaries c leak) in
            rw leak (rw given (quiet q))
      ]

  of_option :
      {A : Type 0} (f : A → Option Decision) (o : Option A)
      → ((x : A) → IsPublicStep (f x))
      → IsPublicStep (elim o [ none ↦ none | some x ↦ f x ])
  of_option f none h = tt
  of_option f (some x) h = h x

  when : (b : Bool) (d : Decision) → IsPublic d → IsPublicStep (if b then some d else none)
  when true d h = h
  when false d h = tt

  either :
      (b : Bool) (d e : Decision)
      → IsPublic d
      → IsPublic e
      → IsPublicStep (if b then some d else some e)
  either true d e h k = h
  either false d e h k = k

  unless : (b : Bool) (o : Option Decision) → IsPublicStep o → IsPublicStep (if b then none else o)
  unless true o h = tt
  unless false o h = h

  only_if : (b : Bool) (o : Option Decision) → IsPublicStep o → IsPublicStep (if b then o else none)
  only_if true o h = h
  only_if false o h = tt

  otherwise :
      (b : Bool) (d : Decision) (o : Option Decision)
      → IsPublic d
      → IsPublicStep o
      → IsPublicStep (if b then some d else o)
  otherwise true d o h k = h
  otherwise false d o h k = k

  or_else_try :
      (o k : Option Decision) → IsPublicStep o → IsPublicStep k → IsPublicStep (or_try o k)
  or_else_try none k h i = i
  or_else_try (some d) k h i = h

  first_step-IsPublic :
      (steps : List (Option Decision)) (finish : Decision)
      → All IsPublicStep steps
      → IsPublic finish
      → IsPublic (first_step steps finish)
  unfolding first_step
  first_step-IsPublic [] finish h k = k
  first_step-IsPublic (none ∷ steps) finish h k = first_step-IsPublic steps finish h.1 k
  first_step-IsPublic (some d ∷ steps) finish h k = h.0

  deleted_step-IsPublic : IsPublicStep (deleted_step state)
  unfolding deleted_step propose lookup
  deleted_step-IsPublic = when state.deleted _ quiet

  clarify_step-IsPublic : IsPublicStep (clarify_step state)
  unfolding clarify_step with_reason propose spread assign lookup
  clarify_step-IsPublic = when _ _ quiet

  preferred_fetch-IsPublic : (s : Source) (type : String) → IsPublic (preferred_fetch state s type)
  unfolding preferred_fetch fetch_proposal out_of_budget with_reason propose spread assign lookup
  preferred_fetch-IsPublic s type = elim (Bool-cases (can_pay state fetch_cost false)) [
    | inl pays ↦ rw pays quiet
    | inr short ↦ rw short quiet
  ]

  preferred_fetch_step-IsPublic : IsPublicStep (preferred_fetch_step state)
  unfolding preferred_fetch_step
  preferred_fetch_step-IsPublic = of_option _ (needed_type (blocking_gap state)) (λ type.
      of_option _ (preferred_unfetched state (some type))
        (λ s. when _ _ (preferred_fetch-IsPublic s type)))

  gap_pivot_step-IsPublic : IsPublicStep (gap_pivot_step state)
  unfolding gap_pivot_step gap_pivot gap_search
  gap_pivot_step-IsPublic =
      of_option _ (blocking_gap state)
        (λ g. of_option _ g.source_type_needed (λ type. when _ _ (leak_or_search-IsPublic _ _)))

  weak_pivot_step-IsPublic : IsPublicStep (weak_pivot_step state)
  unfolding weak_pivot_step weak_pivot gap_search
  weak_pivot_step-IsPublic =
      of_option _ (blocking_gap state)
        (λ g. of_option _ g.source_type_needed (λ type. when _ _ (leak_or_search-IsPublic _ _)))

  known_fetch_step-IsPublic : IsPublicStep (known_fetch_step state)
  unfolding known_fetch_step fetch_proposal out_of_budget with_reason propose spread assign lookup
  known_fetch_step-IsPublic =
      of_option _ (head? (unfetched_sources state)) (λ s. either _ _ _ quiet quiet)

  population_pivot_step-IsPublic : IsPublicStep (population_pivot_step state)
  unfolding population_pivot_step population_pivot
  population_pivot_step-IsPublic =
      of_option _ (constraint_on "population" state) (λ pop. when _ _ (leak_or_search-IsPublic _ _))

  verify_step-IsPublic : IsPublicStep (verify_step state)
  unfolding verify_step verify_proposal with_reason propose spread assign lookup
  verify_step-IsPublic =
      unless _ _ (of_option _ (head? (unresolved_contradictions state)) (λ c. quiet))

  challenge_step-IsPublic : IsPublicStep (challenge_step state)
  unfolding challenge_step challenge_search challenge_record with_reason propose spread assign
      lookup
  challenge_step-IsPublic = only_if _ _ (
      of_option _ (plan_disconfirmation state)
        (λ planned. either _ _ _ (leak_or_search-IsPublic _ _) quiet))

  saturation_step-IsPublic : IsPublicStep (saturation_step state)
  unfolding saturation_step with_reason propose spread assign lookup
  saturation_step-IsPublic = when _ _ quiet

  uncovered_search-IsPublic : IsPublic (uncovered_search state)
  unfolding uncovered_search
  uncovered_search-IsPublic = leak_or_search-IsPublic _ _

  reserve_for_writing-IsPublic : IsPublic (reserve_for_writing state)
  unfolding reserve_for_writing with_reason propose spread assign lookup
  reserve_for_writing-IsPublic = quiet

  uncovered_step-IsPublic : IsPublicStep (uncovered_step state)
  unfolding uncovered_step
  uncovered_step-IsPublic =
      only_if
        ((is_some (uncovered_of state) || is_some (open_blocking_question state))
          && ltb (length state.searches) 8
          && not (opened_public state && not (is_some (blocking_gap state))))
        (if can_pay state search_cost false
          then some (uncovered_search state)
          else some (reserve_for_writing state))
        (either (can_pay state search_cost false) (uncovered_search state)
          (reserve_for_writing state) uncovered_search-IsPublic reserve_for_writing-IsPublic)

  continue_gap_step-IsPublic : IsPublicStep (continue_gap_step state)
  unfolding continue_gap_step continue_gap gap_search
  continue_gap_step-IsPublic =
      of_option _ (blocking_gap state) (λ g. when _ _ (leak_or_search-IsPublic _ _))

  first_id-quiet :
      (cs : List Contradiction) (checks : Value)
      → lookup "query" (
          assign "selectionReason"
            (str "continue_contradiction")
            (first_id cs ++ ("checks", checks) ∷ []))
        ≡ none
  unfolding lookup assign
  first_id-quiet [] checks = refl
  first_id-quiet (c ∷ cs) checks = refl

  continue_verify-IsPublic : IsPublic (continue_verify state)
  unfolding continue_verify with_reason propose spread
  continue_verify-IsPublic = rw (first_id-quiet (unresolved_contradictions state) _) quiet

  continue_pending-IsPublic : (reason : String) → IsPublicStep (continue_pending state reason)
  unfolding continue_pending challenge_record with_reason propose spread assign lookup
  continue_pending-IsPublic reason = elim (Bool-cases (reason == "contradiction_unhandled")) [
    | inl disputed ↦ rw disputed continue_verify-IsPublic
    | inr other ↦ elim (Bool-cases (reason == "disconfirm_pending")) [
      | inl untested ↦
          rw (other, untested) (of_option _ (plan_disconfirmation state) (λ planned. quiet))
      | inr neither ↦ rw (other, neither) tt
    ]
  ]

  continue_step-IsPublic : IsPublicStep (continue_step state)
  unfolding continue_step
  continue_step-IsPublic =
      unless _ _ (or_else_try _ _ continue_gap_step-IsPublic (continue_pending-IsPublic _))

  finish_step-IsPublic : IsPublic (finish_step state)
  unfolding finish_step with_reason propose spread assign lookup
  finish_step-IsPublic = quiet

choose-IsPublic : (state : ControllerState) → IsPublic state (choose state)
unfolding choose steps_of
choose-IsPublic state =
    first_step-IsPublic state (steps_of state) (finish_step state)
      (
        deleted_step-IsPublic state,
        (
          clarify_step-IsPublic state,
          (
            preferred_fetch_step-IsPublic state,
            (
              gap_pivot_step-IsPublic state,
              (
                weak_pivot_step-IsPublic state,
                (
                  known_fetch_step-IsPublic state,
                  (
                    population_pivot_step-IsPublic state,
                    (
                      verify_step-IsPublic state,
                      (
                        challenge_step-IsPublic state,
                        (
                          saturation_step-IsPublic state,
                          (uncovered_step-IsPublic state, (continue_step-IsPublic state, tt)),
                        ),
                      ),
                    ),
                  ),
                ),
              ),
            ),
          ),
        ),
      )
      (finish_step-IsPublic state)

-- No action that the controller selects carries a query in which a private text of the run occurs,
-- whichever of the steps it comes from.
pub select_adaptive_action-IsPublic :
    (state : ControllerState) (q : String)
    → lookup "query" (select_adaptive_action state).1.arguments ≡ some (str q)
    → All (IsAbsent q) state.private_canaries
unfolding select_adaptive_action refresh_again refresh_derived
select_adaptive_action-IsPublic state = choose-IsPublic (refresh_again (refresh_derived state))
