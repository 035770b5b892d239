-- ===== src/Brief/Features.antt =====
-- brief.ts, the constraints on platforms, features and population that a question states.
use deep_research_app.Types.{Constraint}
use deep_research_app.Regex.{
  Regex, exec, test, group, all_of, Pos, seq, whole, digits, word, any_of, opt, words, alt, plural,
}
use deep_research_app.Text.{template, lower}
use deep_research_app.Base.{List, Bool, String, ◌∷◌, if◌then◌else◌, [], true, ◌++◌, ◌&&◌}
use deep_research_app.Brief.{stated, part, from_match}

unfoldable pub if_named : Bool → Constraint → List Constraint
if_named b c = if b then c ∷ [] else []

unfoldable pub platforms_of : String → List Constraint
unfolding if_named stated test
platforms_of question =
    let low = lower question in
    if_named (test true (alt (whole (word "iphone")) (whole (word "ios"))) low)
      (stated "platform-iphone" "platform" "iphone" "Question requires iPhone support")
    ++ if_named (test true (whole (word "android")) low)
        (stated "platform-android" "platform" "android" "Question requires Android support")
    ++ if_named
        (test true (whole (word "linux")) low
          && test true (whole (words ("required" ∷ "hard" ∷ "also" ∷ "desktop" ∷ []))) low)
        (stated "platform-linux" "platform" "linux" "Question requires Linux support")

unfoldable pub features_of : String → List Constraint
unfolding if_named stated test
features_of question =
    let low = lower question in
    if_named (test true (whole (word "offline editing")) low)
      (stated "feature-offline" "feature" "offline" "Question requires offline editing")
    ++ if_named (test true (alt (whole (word "full export")) (whole (word "export required"))) low)
        (stated "feature-export" "feature" "export" "Question requires full export")

-- `\b(children under \d+|pediatric|under-?5|adults? only)\b`
abbrev population_pattern : Regex
population_pattern = whole (
    group 1 (
      any_of (
        seq (word "children under ") digits
        ∷ word "pediatric"
        ∷ all_of (word "under" ∷ opt (word "-") ∷ word "5" ∷ [])
        ∷ seq (plural "adult") (word " only")
        ∷ [])))

unfoldable pub population_from : Pos → Constraint
unfolding part stated template
population_from m =
    stated "population" "population" (lower (part 1 m))
      (template ("Question names population " ∷ part 1 m ∷ []))

unfoldable pub population_of : String → List Constraint
unfolding population_from from_match exec
population_of question = from_match (exec true population_pattern question) population_from
