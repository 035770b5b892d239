-- ===== src/Brief/Question.antt =====
-- brief.ts, the rest of `extractConstraints`, with `inferOutputPreference`.
use deep_research_app.Text.{trim, lower, is_space, template}
use deep_research_app.Independence.{provenance_from_origin}
use deep_research_app.Types.{Constraint, preference}
use deep_research_app.Brief.{
  part, from_match, geography_of, seq, all_of, stated, any_of, budget_of, lower, is_space,
  is_letter, one, edge, template, starting, whole, date_of, plus, words, dashed, opt, word, gap,
  dose_of, group, Pos,
}
use deep_research_app.Brief.Features.{if_named, platforms_of, features_of, population_of}
use deep_research_app.Regex.{
  Regex, exec, test, seq, all_of, any_of, is_letter, one, edge, starting, whole, plus, words, opt,
  word, gap, is_digit, group, Pos,
}
use deep_research_app.Base.{
  refl, ◌≡◌, ℕ, String, Bool, List, some, leb, false, true, or_else, map, Option, ◌∷◌, [], ◌&&◌,
  ◌||◌, ◌++◌, if◌then◌else◌, not, none, nat_eq, some_of, ◌==◌,
}

abbrev is_upper : ℕ → Bool
is_upper c = leb b'A' c && leb c b'Z'

abbrev is_name_char : ℕ → Bool
is_name_char c = is_letter c || is_digit c || nat_eq c b'-'

-- `[A-Z][A-Za-z0-9-]+`
abbrev name_pattern : Regex
name_pattern = seq (one is_upper) (plus (one is_name_char))

abbrev exclude_pattern : Regex
exclude_pattern = all_of (
    edge
    ∷ words ("excluding" ∷ "exclude" ∷ "not including" ∷ "without" ∷ [])
    ∷ gap
    ∷ group 1 (seq name_pattern (opt (seq gap name_pattern)))
    ∷ [])

unfoldable pub exclusion_from : Pos → Constraint
unfolding part stated template lower dashed
exclusion_from m =
    record (stated (template ("exclude-" ∷ dashed (lower (part 1 m)) ∷ [])) "exclusion" (part 1 m)
      (template ("Question excludes " ∷ part 1 m ∷ []))) { operator = "neq" }

unfoldable pub exclusion_of : String → List Constraint
unfolding exclusion_from from_match exec
exclusion_of question = from_match (exec false exclude_pattern question) exclusion_from

-- `\bprefer(?:ably)?`
abbrev prefers : Regex
prefers = seq (starting "prefer") (opt (word "ably"))

-- `\bprefer(?:ably)?\b|\bideally\b|\bnice to have\b`
abbrev preference_pattern : Regex
preference_pattern =
    any_of (seq prefers edge ∷ whole (word "ideally") ∷ whole (word "nice to have") ∷ [])

-- `\bprefer(?:ably)?\s+([^.;]+)`
abbrev preferred_pattern : Regex
preferred_pattern =
    all_of (prefers ∷ gap ∷ group 1 (plus (one (λ c. not (nat_eq c b'.' || nat_eq c b';')))) ∷ [])

unfoldable pub preferred_value : String → String
unfolding exec part trim
preferred_value question = elim (exec true preferred_pattern question) [
  | none ↦ "stated preference"
  | some m ↦ trim (part 1 m)
]

unfoldable pub preference_of : String → List Constraint
unfolding if_named stated test preferred_value
preference_of question =
    if_named (test true preference_pattern question)
      (record (stated "preference" "preference" (preferred_value question)
        "Soft preference; not a hard requirement") { importance = preference })

abbrev fresh_pattern : Regex
fresh_pattern = any_of (
    whole (word "current")
    ∷ whole (word "latest")
    ∷ whole (word "as of now")
    ∷ whole (word "today")
    ∷ [])

unfoldable pub freshness_of : String → List Constraint → List Constraint
unfolding if_named stated test
freshness_of question constraints =
    if_named
      (test true fresh_pattern question && not (some_of (λ c. c.field == "date") constraints))
      (stated "freshness" "freshness" "current" "Question requires current/fresh evidence")

-- The constraints but for the freshness, in the order in which they are pushed.
unfoldable pub named_constraints : String → List Constraint
unfolding geography_of budget_of date_of dose_of platforms_of features_of population_of exclusion_of
    preference_of
named_constraints question =
    geography_of question
    ++ budget_of question
    ++ date_of question
    ++ dose_of question
    ++ platforms_of question
    ++ features_of question
    ++ population_of question
    ++ exclusion_of question
    ++ preference_of question

unfoldable pub fill_provenance : Constraint → Constraint
fill_provenance c = record c {
  provenance = some (or_else c.provenance (provenance_from_origin c.origin));
}

unfoldable pub extract_constraints : String → List Constraint
unfolding named_constraints freshness_of fill_provenance
extract_constraints question =
    let named = named_constraints question in
    map fill_provenance (named ++ freshness_of question named)

unfoldable pub infer_output_preference : String → Option String
unfolding test lower
infer_output_preference question =
    let q = lower question in
    if test false
      (any_of (whole (word "concise") ∷ whole (word "briefly") ∷ word "short answer" ∷ [])) q
    then some "concise"
    else if test false
        (any_of (whole (word "detailed") ∷ word "in depth" ∷ word "full analysis" ∷ [])) q
    then some "detailed"
    else none

extract_runs :
    map
      (λ c. c.value)
      (extract_constraints
        "Compare apps in United States under 1,500 USD as of 2024-05-01 with 5 mg, excluding Acme Labs; prefer open source.")
    ≡ "united states" ∷ "1500" ∷ "2024-05-01" ∷ "5" ∷ "Acme Labs" ∷ "open source" ∷ []
unfolding extract_constraints provenance_from_origin is_space
extract_runs = refl

-- A dose in milligrams is recorded in grams where the unit is written out.
milligrams_run :
    map (λ c. c.units) (extract_constraints "Is a dose of 500 milligrams safe?") ≡ some "g" ∷ []
unfolding extract_constraints provenance_from_origin is_space
milligrams_run = refl
