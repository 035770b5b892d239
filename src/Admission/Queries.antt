-- ===== src/Admission/Queries.antt =====
-- What reaches the network through the admission gate.
use deep_research_app.Fences.Spend.{can_spend_iff}
use deep_research_app.Fences.{writing_reserve}
use deep_research_app.Injection.Leaks.{IsAbsent, query_leaks-none_iff}
use deep_research_app.Admission.{
  admit_proposed_action, admit_executable_action, none, false, is_true_value, Bool, search_for,
  is_some, not,
}
use deep_research_app.Admission.Gate.{IsStrict, admit_iff}
use deep_research_app.Types.{ControllerState, Decision}
use deep_research_app.Types.Values.{text_argument, Arguments, lookup, is_true_value}
use deep_research_app.Admission.Guards.{
  is_allowed_locator, Schemas, run_budget_cost, Options, is_finishing_type, spend_args,
}
use deep_research_app.Base.{
  refl, String, ◌≡◌, true, none, All, ◌≢◌, ◌<◌, ◌+◌, ap, ◌≤◌, false, arith, ◌∙◌, Bool-cases, Bool,
  inl, is_some, eq_iff, ◌||◌, inr, not, ◌==◌, sym,
}

text_argument-cong :
    (key : String) (a b : Arguments)
    → lookup key b ≡ lookup key a
    → text_argument key b ≡ text_argument key a
unfolding text_argument
text_argument-cong key a b e = rw e

-- Where the schemas are strict, an admitted search is sent with a query in which no private text of the run occurs.
pub admit-IsAbsent :
    (z : Schemas) (state : ControllerState) (p : Decision) (opts : Options) (d : Decision)
    → IsStrict z
    → admit_proposed_action z state p opts ≡ d
    → d.reject_reason ≡ none
    → d.type ≡ "search"
    → All (IsAbsent (text_argument "query" d.arguments)) state.private_canaries
admit-IsAbsent z state p opts d strict e clean search =
    let (parsed, permitted, executable, same) = (admit_iff z state p opts d).0 (e, clean) in
    let kept = strict.arguments_kept p.type p.arguments d.arguments "query" executable in
    let searched : p.type ≡ "search" = rw (ap (λ (x : Decision). x.type) same) at search in
    (query_leaks-none_iff (text_argument "query" d.arguments) state.private_canaries).0
      (rw (text_argument-cong "query" p.arguments d.arguments kept) (permitted.no_leak searched))

-- Where the schemas are strict, an admitted fetch goes to a locator that is not empty and that the list of locators allows.
pub admit-is_allowed_locator :
    (z : Schemas) (state : ControllerState) (p : Decision) (opts : Options) (d : Decision)
    → IsStrict z
    → admit_proposed_action z state p opts ≡ d
    → d.reject_reason ≡ none
    → d.type ≡ "fetch"
    → (text_argument "locator" d.arguments ≢ "")
      × (is_allowed_locator (text_argument "locator" d.arguments) ≡ true)
admit-is_allowed_locator z state p opts d strict e clean fetched =
    let (parsed, permitted, executable, same) = (admit_iff z state p opts d).0 (e, clean) in
    let kept = strict.arguments_kept p.type p.arguments d.arguments "locator" executable in
    let fetches : p.type ≡ "fetch" = rw (ap (λ (x : Decision). x.type) same) at fetched in
    rw (text_argument-cong "locator" p.arguments d.arguments kept) (permitted.safe_locator fetches)

run_budget_cost-arguments :
    (p : Decision) (a : Arguments) (opts : Options)
    → run_budget_cost (record p { arguments = a }) opts ≡ run_budget_cost p opts
unfolding run_budget_cost
run_budget_cost-arguments p a opts = refl

-- An admitted action that costs anything fits the budget, and leaves the writing reserve unless it
-- is a finishing action.
pub admit-within_budget :
    (z : Schemas) (state : ControllerState) (p : Decision) (opts : Options) (d : Decision)
    → admit_proposed_action z state p opts ≡ d
    → d.reject_reason ≡ none
    → 0 < run_budget_cost d opts
    → (state.spent_micro + run_budget_cost d opts ≤ state.budget_micro)
      × (is_finishing_type d.type ≡ false
          → state.spent_micro + run_budget_cost d opts + writing_reserve state.budget_micro
            ≤ state.budget_micro)
admit-within_budget z state p opts d e clean pos =
    let (parsed, permitted, executable, same) = (admit_iff z state p opts d).0 (e, clean) in
    let cost : run_budget_cost d opts ≡ run_budget_cost p opts =
      ap (λ (x : Decision). run_budget_cost x opts) same
      ∙ run_budget_cost-arguments p d.arguments opts in
    let paid = permitted.affordable (omega (arith, cost)) in
    let (fits, left) =
      (can_spend_iff (spend_args state (run_budget_cost p opts) (is_finishing_type p.type))).0
        paid in
    (
      omega (arith, fits, cost),
      λ exploring.
          let exploring' : is_finishing_type p.type ≡ false =
            rw (ap (λ (x : Decision). x.type) same) at exploring in
          omega (arith, left exploring', cost),
    )

module _ (z : Schemas) (state : ControllerState) (p : Decision) (opts : Options) where
  abbrev first_pass : Decision
  first_pass = admit_proposed_action z state p opts

  abbrev is_final : Bool
  is_final =
      is_some first_pass.reject_reason
      || not (first_pass.type == "challenge")
      || is_true_value (lookup "recordOnly" first_pass.arguments)

  executable-final : is_final ≡ true → admit_executable_action z state p opts ≡ first_pass
  unfolding admit_executable_action
  executable-final h = rw h

  executable-search :
      is_final ≡ false
      → admit_executable_action z state p opts
        ≡ admit_proposed_action z state (search_for z first_pass) opts
  unfolding admit_executable_action
  executable-search h = rw h

not_a_challenge :
    (z : Schemas) (state : ControllerState) (d : Decision) (opts : Options)
    → (admit_proposed_action z state (search_for z d) opts).reject_reason ≡ none
    → (admit_proposed_action z state (search_for z d) opts).type ≢ "challenge"
unfolding search_for
not_a_challenge z state d opts clean challenge =
    let (parsed, permitted, executable, same) =
      (admit_iff z state (search_for z d) opts _).0 (refl, clean) in
    let kind : ◌≡◌ {A = String} "search" "challenge" =
      sym (ap (λ (x : Decision). x.type) same) ∙ challenge in
    ground (arith, eq_iff "search" "challenge")

-- Where the schemas are strict, and the executor is given an action that is not refused: if it is a
-- search, no private text occurs in its query; if it is a challenge, it only records.
pub admit_executable-cases :
    (z : Schemas) (state : ControllerState) (p : Decision) (opts : Options)
    → IsStrict z
    → (admit_executable_action z state p opts).reject_reason ≡ none
    → ((admit_executable_action z state p opts).type ≡ "search"
        → All
            (IsAbsent (text_argument "query" (admit_executable_action z state p opts).arguments))
            state.private_canaries)
      × ((admit_executable_action z state p opts).type ≡ "challenge"
          → is_true_value (lookup "recordOnly" (admit_executable_action z state p opts).arguments)
            ≡ true)
admit_executable-cases z state p opts strict clean = elim (Bool-cases (is_final z state p opts)) [
  | inl final ↦
      let e = executable-final z state p opts final in
      let kept : (first_pass z state p opts).reject_reason ≡ none = rw e at clean in
      rw e (
        λ search. admit-IsAbsent z state p opts _ strict refl kept search,
        λ challenge. ground (arith, eq_iff (first_pass z state p opts).type "challenge"),
      )
  | inr goes ↦
      let e = executable-search z state p opts goes in
      let kept = rw e at clean in
      let searching = search_for z (first_pass z state p opts) in
      rw e (
        λ search. admit-IsAbsent z state searching opts _ strict refl kept search,
        λ challenge.
            absurd (not_a_challenge z state (first_pass z state p opts) opts kept challenge),
      )
]
