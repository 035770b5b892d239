-- ===== src/Disconfirm.antt =====
-- packages/research-core/src/disconfirm.ts: the conclusion that a challenge targets, the plan to
-- refute it, and the evaluation of the plan.
use deep_research_app.Gaps.Conflicts.{is_completed}
use deep_research_app.Independence.{is_primary_type}
use deep_research_app.Contradictions.{source_of}
use deep_research_app.Regex.{
  Regex, one, all_of, word, any_of, words, opt, plus, seq, test, edge, is_word, many, spaces,
  match_here,
}
use deep_research_app.Text.{chars, of_chars, template, join, cut, decimal, includes}
use Prim.Native.Char.{Char}
use deep_research_app.Base.{
  [], ◌∷◌, none, some, Bool, String, List, ℕ, some_of, same_text, Option, if◌then◌else◌, find, true,
  nat_eq, not, false, select, ◌==◌, map, length, ◌||◌, ◌&&◌, starts_with, ltb, suc, zero,
}
use deep_research_app.Types.{
  untried, counterevidence_found, no_counterexample_found, ControllerState, Candidate, Passage,
  Disconfirmation, Claim, is_untried,
}

-- `text.replace(re, "")` with the flag `g`: the text without the matches.
without : Bool → ℕ → Regex → Option Char → List Char → List Char
without ignore_case zero r before s = s
without ignore_case (suc fuel) r before [] = []
without ignore_case (suc fuel) r before (c ∷ s) = elim (match_here ignore_case r before (c ∷ s)) [
  | none ↦ c ∷ without ignore_case fuel r (some c) s
  | some q ↦ without ignore_case fuel r q.before q.rest
]

-- Every round consumes a character, so the length is fuel enough.
unfoldable pub strip : Regex → String → String
unfolding without chars of_chars
strip r s = of_chars (without true (length (chars s)) r none (chars s))

abbrev quote_char : Regex
quote_char = one (λ c. nat_eq c 34 || nat_eq c 39)

unfoldable pub script_tag : Regex
script_tag = all_of (
    word "<"
    ∷ opt (word "/")
    ∷ word "script"
    ∷ edge
    ∷ many (one (λ c. not (nat_eq c b'>')))
    ∷ word ">"
    ∷ [])

unfoldable pub event_handler : Regex
event_handler = all_of (
    word "on"
    ∷ plus (one is_word)
    ∷ spaces
    ∷ word "="
    ∷ spaces
    ∷ quote_char
    ∷ many (one (λ c. not (nat_eq c 34 || nat_eq c 39)))
    ∷ quote_char
    ∷ [])

unfoldable pub sanitize : String → String
unfolding strip script_tag event_handler
sanitize text = strip (word "javascript:") (strip event_handler (strip script_tag text))

-- A private text that is not empty occurs in the text.
unfoldable pub holds_canary : ControllerState → String → Bool
holds_canary state text = some_of (λ c. not (c == "") && includes text c) state.private_canaries

unfoldable pub is_attachment_passage : ControllerState → Passage → Bool
unfolding source_of
is_attachment_passage state p = elim (source_of state p) [
  | none ↦ false
  | some s ↦ starts_with s.locator "attachment://"
]

unfoldable pub public_passages : ControllerState → List Passage
unfolding is_attachment_passage holds_canary
public_passages state =
    select (λ p. not (is_attachment_passage state p) && not (holds_canary state p.exact_text))
      state.passages

unfoldable pub states_limitation : Regex
states_limitation = any_of (
    words ("not compatible" ∷ "incompatible" ∷ "does not support" ∷ "not a real product" ∷ [])
    ∷ seq (word "no such ") (words ("product" ∷ "feature" ∷ []))
    ∷ [])

abbrev is_eligible : Candidate → Bool
is_eligible c = same_text c.feasibility "satisfies"

-- The first claim of a kind that is concluded from sources.
unfoldable pub primary_claim : ControllerState → Option Claim
primary_claim state =
    find (λ c. c.type == "external-fact" || c.type == "conditional-conclusion") state.claims

unfoldable pub fallback_conclusion : List Passage → String
fallback_conclusion [] = "public evidence only"
fallback_conclusion (p ∷ rest) =
    let quoted = cut 240 p.exact_text in
    if quoted == "" then "public evidence only" else sanitize quoted

unfoldable pub from_claims : ControllerState → String
unfolding holds_canary
from_claims state =
    let fallback = fallback_conclusion (public_passages state) in
    elim (primary_claim state) [
      | none ↦ fallback
      | some c ↦ if holds_canary state c.text then fallback else sanitize (cut 240 c.text)
    ]

unfoldable pub material_conclusion : ControllerState → String
material_conclusion state =
    elim (find (λ p. test true states_limitation p.exact_text) (public_passages state)) [
      | some p ↦ sanitize (cut 240 p.exact_text)
      | none ↦
          let eligible = select is_eligible state.candidates in
          if ltb 0 (length eligible)
          then template (
              "Eligible under hard constraints: " ∷ join ", " (map (λ c. c.identity) eligible) ∷ [])
          else from_claims state
    ]

abbrev says_incompatible : Regex
says_incompatible = words ("not compatible" ∷ "incompatible" ∷ [])

unfoldable pub hypothesis_for : String → String
hypothesis_for target =
    if test true says_incompatible target
    then "Official compatibility documentation that lists the named version as supported."
    else if test true (words ("does not exist" ∷ "no such" ∷ "not a real product" ∷ [])) target
    then "A current official catalog entry for the named product."
    else if test true (word "eligible") target
    then "A hard-constraint violation for a candidate currently marked eligible."
    else "A primary source that directly contradicts this conclusion."

unfoldable pub strategy_for : String → String → String
strategy_for question target = template (
    question
    ∷ (if test true says_incompatible target
        then " official compatibility matrix supported"
        else if test true (words ("does not exist" ∷ "no such" ∷ "not a real product" ∷ [])) target
        then " official product catalog"
        else if test true (word "eligible") target
        then " ineligible constraint violation"
        else " official documentation counterexample")
    ∷ [])

unfoldable pub plan_disconfirmation : ControllerState → Option Disconfirmation
plan_disconfirmation state =
    let target = material_conclusion state in
    if target == ""
    then none
    else elim (find (λ d. d.target_conclusion == target) state.disconfirmations) [
      | some d ↦ some d
      | none ↦ some (record {
        id = template ("disconfirm-" ∷ decimal state.basis.evidence_revision ∷ []);
        target_conclusion = target;
        falsification_hypothesis = hypothesis_for target;
        search_strategy = strategy_for state.brief.original_question target;
        result = untried;
        counterevidence = false;
        impact =
            "Conclusion remains provisional until a disconfirmation attempt is recorded. No counterexample found is not proof.";
      })
    ]

unfoldable pub is_primary_passage : ControllerState → Passage → Bool
unfolding source_of
is_primary_passage state p = elim (source_of state p) [ none ↦ false | some s ↦ is_primary_type s ]

-- The passages of primary sources, or all where there is none.
abbrev searched_passages : List Passage → List Passage → List Passage
searched_passages [] all_passages = all_passages
searched_passages (p ∷ ps) all_passages = p ∷ ps

unfoldable pub haystack_of : ControllerState → String
unfolding is_primary_passage
haystack_of state = join "\n" (
    map (λ p. p.exact_text)
      (searched_passages (select (is_primary_passage state) state.passages) state.passages))

unfoldable pub is_refuted_by : String → String → Bool
is_refuted_by target haystack =
    if test true says_incompatible target
    then test true
        (words ("compatible with all" ∷ "postgres 14 is supported" ∷ "supports postgres 14" ∷ []))
        haystack
      && not (test true (word "not compatible with postgres 14") haystack)
    else if test true (words ("does not exist" ∷ "no such" ∷ "not a real" ∷ [])) target
    then test true
        (all_of (
          word "official"
          ∷ opt (word "ly")
          ∷ word " "
          ∷ words ("lists" ∷ "offers" ∷ "includes" ∷ [])
          ∷ word " the "
          ∷ words ("product" ∷ "feature" ∷ [])
          ∷ []))
        haystack
    else test true (words ("this conclusion is false" ∷ "counterexample" ∷ "does not hold" ∷ []))
        haystack

unfoldable pub evaluate_disconfirmation : ControllerState → Disconfirmation → Disconfirmation
unfolding haystack_of is_refuted_by
evaluate_disconfirmation state planned =
    let found = is_refuted_by planned.target_conclusion (haystack_of state) in
    record planned {
      result = if found then counterevidence_found else no_counterexample_found;
      counterevidence = found;
      impact =
          if found
          then "Counterevidence found; reduce confidence or withdraw the conclusion."
          else "No counterexample found in accessed primary sources. This is not proof that the conclusion is true.";
    }

unfoldable pub disconfirmation_completed : ControllerState → Bool
disconfirmation_completed state =
    some_of (λ d. not (is_untried d.result)) state.disconfirmations
    || is_completed "challenge" state
