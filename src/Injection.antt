-- ===== src/Injection.antt =====
-- packages/research-core/src/injection.ts: what text or a proposal may not do. The private texts
-- that must not enter a public query are the run's canaries.
pub mod Leaks
use deep_research_app.Base.{
  ℕ, String, Bool, true, false, not, ◌&&◌, Option, none, some, List, [], ◌∷◌, ◌==◌, ◌||◌,
  if◌then◌else◌, some_of, find,
}
use deep_research_app.Text.{lower, includes, template}
use deep_research_app.Regex.{
  Regex, word, words, opt, spaces, one, is_word, plus, all_of, any_of, test,
}
use deep_research_app.Types.{Decision}
use deep_research_app.Types.Values.{Arguments, has_key, lookup}

unfoldable pub injection_patterns : List Regex
injection_patterns =
    all_of (word "ignore " ∷ opt (word "all ") ∷ word "previous instructions" ∷ [])
    ∷ all_of (
        word "reveal "
        ∷ opt (word "the ")
        ∷ opt (words ("api" ∷ "secret" ∷ "private" ∷ []))
        ∷ spaces
        ∷ word "key"
        ∷ opt (word "s")
        ∷ [])
    ∷ word "you are now"
    ∷ word "disable safety"
    ∷ word "exfiltrate"
    ∷ all_of (
        word "grant "
        ∷ words ("yourself" ∷ "me" ∷ [])
        ∷ word " "
        ∷ words ("admin" ∷ "tool" ∷ [])
        ∷ [])
    ∷ all_of (word "call the " ∷ plus (one is_word) ∷ word " tool to" ∷ [])
    ∷ []

unfoldable pub source_looks_like_injection : String → Bool
unfolding injection_patterns
source_looks_like_injection text = some_of (λ p. test true p text) injection_patterns

abbrev pub tool_allowlist : List String
tool_allowlist =
    "clarify" ∷ "search" ∷ "fetch" ∷ "extract_text" ∷ "compare" ∷ "calculate" ∷ "verify"
    ∷ "challenge" ∷ "replan" ∷ "synthesize" ∷ "stop" ∷ []

unfoldable pub is_allowed_tool : String → Bool
is_allowed_tool type = some_of (λ t. t == type) tool_allowlist

abbrev pub privileged_fields : List String
privileged_fields =
    "newTools" ∷ "apiKey" ∷ "spendCapOverride" ∷ "processorOverride" ∷ "bypassConsent" ∷ []

-- The reason of the refusal, or nothing.
unfoldable pub reject_privileged_proposal : Decision → Option String
reject_privileged_proposal proposal =
    if not (is_allowed_tool proposal.type)
    then some (template ("action type " ∷ proposal.type ∷ " is not on the tool allowlist" ∷ []))
    else if proposal.privileged
    then some "privileged flag is not authorized by source content or model output"
    else elim (find (λ field. has_key field proposal.arguments) privileged_fields) [
      | some field ↦ some (template ("privileged field " ∷ field ∷ " rejected" ∷ []))
      | none ↦ none
    ]

-- `c && q.includes(c.toLowerCase())`, for the lowered query `q`.
unfoldable pub leaks_canary : String → String → Bool
leaks_canary q c = not (c == "") && includes q (lower c)

-- The first private text that the query holds. The empty text is no canary.
unfoldable pub query_leaks_private : String → List String → Option String
unfolding leaks_canary
query_leaks_private query canaries = find (leaks_canary (lower query)) canaries

unfoldable pub bait : Regex
bait = words (
    "taylor swift" ∷ "celebrity gossip" ∷ "hollywood tour" ∷ "sports scores" ∷ "unrelated movie"
    ∷ [])

unfoldable pub off_coverage : String → String → Bool
unfolding bait
off_coverage query question =
    test false bait (lower query) && not (test false bait (lower question))
