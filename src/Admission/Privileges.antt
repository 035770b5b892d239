-- ===== src/Admission/Privileges.antt =====
-- What the admission gate keeps from untrusted content.
use deep_research_app.Regex.Words.{words-includes}
use deep_research_app.Regex.{test}
use deep_research_app.Admission.Queries.{admit-is_allowed_locator}
use deep_research_app.Text.{lower, includes}
use deep_research_app.Admission.{admit_proposed_action, false}
use deep_research_app.Admission.Gate.{IsStrict, admit_iff}
use deep_research_app.Types.{ControllerState, Decision}
use deep_research_app.Admission.Guards.{Schemas, Options, internal_host, is_allowed_locator}
use deep_research_app.Injection.{is_allowed_tool, tool_allowlist, privileged_fields}
use deep_research_app.Types.Values.{Arguments, lookup, text_argument}
use deep_research_app.Base.{
  ◌≡◌, List, String, true, All, Any, none, ◌∷◌, ◌∙◌, [], some_of-eq-true_iff, false, eq_iff,
  starts_with, ◌⊎◌, inl, inr, some_of-eq-false_iff, arith,
}

fields-kept :
    (a b : Arguments) (keys : List String)
    → ((key : String) → lookup key b ≡ lookup key a)
    → All (λ key. lookup key a ≡ none) keys
    → All (λ key. lookup key b ≡ none) keys
fields-kept a b [] same h = tt
fields-kept a b (key ∷ keys) same h = (same key ∙ h.0, fields-kept a b keys same h.1)

allowed_tool-Any :
    (type : String)
    → is_allowed_tool type ≡ true
    → Any
        (λ t. t ≡ type)
        ("clarify" ∷ "search" ∷ "fetch" ∷ "extract_text" ∷ "compare" ∷ "calculate" ∷ "verify"
          ∷ "challenge" ∷ "replan" ∷ "synthesize" ∷ "stop" ∷ [])
unfolding is_allowed_tool
allowed_tool-Any type h = (some_of-eq-true_iff _ _ (λ t. eq_iff t type) tool_allowlist).0 h

-- Where the schemas are strict, an admitted action is of one of the eleven types that the
-- controller knows, claims no privilege, and carries no field for new tools, an API key, another
-- spending cap, another processor or a bypass of consent, whatever proposed it.
pub admit-unprivileged :
    (z : Schemas) (state : ControllerState) (p : Decision) (opts : Options) (d : Decision)
    → IsStrict z
    → admit_proposed_action z state p opts ≡ d
    → d.reject_reason ≡ none
    → Any
        (λ t. t ≡ d.type)
        ("clarify" ∷ "search" ∷ "fetch" ∷ "extract_text" ∷ "compare" ∷ "calculate" ∷ "verify"
          ∷ "challenge" ∷ "replan" ∷ "synthesize" ∷ "stop" ∷ [])
      × (d.privileged ≡ false)
      × All
          (λ field. lookup field d.arguments ≡ none)
          ("newTools" ∷ "apiKey" ∷ "spendCapOverride" ∷ "processorOverride" ∷ "bypassConsent" ∷ [])
admit-unprivileged z state p opts d strict e clean =
    let (parsed, permitted, executable, same) = (admit_iff z state p opts d).0 (e, clean) in
    (
      allowed_tool-Any d.type (rw same permitted.allowed_tool),
      rw same permitted.no_privilege,
      fields-kept p.arguments d.arguments privileged_fields
          (λ key. strict.arguments_kept p.type p.arguments d.arguments key executable)
          permitted.no_privileged_field,
    )

-- The hosts of the machine itself and of its network.
abbrev pub internal_hosts : List String
internal_hosts = "localhost" ∷ "127.0.0.1" ∷ "0.0.0.0" ∷ "169.254" ∷ "metadata.google" ∷ []

-- A locator of stored content, or an http(s) address that does not name an internal host.
abbrev pub IsExternal : String → Type 0
IsExternal locator =
    (starts_with locator "fixture://" ≡ true)
    ⊎ ((starts_with locator "attachment://" ≡ true)
        ⊎ (((starts_with locator "http://" ≡ true) ⊎ (starts_with locator "https://" ≡ true))
            × All (λ host. includes (lower locator) host ≡ false) internal_hosts))

unnamed_hosts :
    (locator : String)
    → test true internal_host locator ≡ false
    → All (λ host. includes (lower locator) host ≡ false) internal_hosts
unfolding internal_host lower
unnamed_hosts locator h =
    (some_of-eq-false_iff (λ host. includes (lower locator) (lower host)) internal_hosts).0
      (words-includes internal_hosts locator h)

is_allowed-cases :
    (locator : String)
    → is_allowed_locator locator ≡ true
    → (starts_with locator "fixture://" ≡ true)
      ⊎ ((starts_with locator "attachment://" ≡ true)
          ⊎ (((starts_with locator "http://" ≡ true) ⊎ (starts_with locator "https://" ≡ true))
              × (test true internal_host locator ≡ false)))
unfolding is_allowed_locator
is_allowed-cases locator h = ground (arith, h)

is_allowed-IsExternal : (locator : String) → is_allowed_locator locator ≡ true → IsExternal locator
is_allowed-IsExternal locator h = elim (is_allowed-cases locator h) [
  | inl stored ↦ inl stored
  | inr (inl attached) ↦ inr (inl attached)
  | inr (inr (web, outside)) ↦ inr (inr (web, unnamed_hosts locator outside))
]

-- Where the schemas are strict, an admitted fetch reads a fixture, an attachment, or an http(s)
-- address in which neither localhost, 127.0.0.1, 0.0.0.0, 169.254 nor metadata.google occurs,
-- letter case aside.
pub admit-IsExternal :
    (z : Schemas) (state : ControllerState) (p : Decision) (opts : Options) (d : Decision)
    → IsStrict z
    → admit_proposed_action z state p opts ≡ d
    → d.reject_reason ≡ none
    → d.type ≡ "fetch"
    → IsExternal (text_argument "locator" d.arguments)
admit-IsExternal z state p opts d strict e clean fetched =
    is_allowed-IsExternal _ (admit-is_allowed_locator z state p opts d strict e clean fetched).1
