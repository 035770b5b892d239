-- ===== src/Injection/Leaks.antt =====
-- What the checks on queries and proposals let through.
use deep_research_app.Base.{
  String, true, false, ◌≡◌, ◌≢◌, ◌↔◌, inl, inr, none, List, [], ◌∷◌, ◌==◌, arith, All,
  find-none_iff, ne_iff, Bool-cases, some, find-some, eq_iff,
}
use deep_research_app.Text.{lower, includes}
use deep_research_app.Types.{Decision}
use deep_research_app.Types.Values.{lookup}
use deep_research_app.Injection.{
  leaks_canary, query_leaks_private, is_allowed_tool, privileged_fields, reject_privileged_proposal,
}

-- A private text that is not empty does not occur in the query, letter case aside.
abbrev pub IsAbsent : String → String → Type 0
IsAbsent query c = (c ≢ "") → includes (lower query) (lower c) ≡ false

leaks_canary-false_iff :
    (query c : String) → (leaks_canary (lower query) c ≡ false) ↔ IsAbsent query c
unfolding leaks_canary
leaks_canary-false_iff query c = (
  λ h n. ground (arith, ne_iff c "", (ne_iff c "").1 n),
  λ h. elim (Bool-cases (c == "")) [
    | inl e ↦ ground arith
    | inr n ↦ ground (arith, h ((ne_iff c "").0 n))
  ],
)

module _ {ℓ κ} {A : Type 0} {P : A → Type ℓ} {Q : A → Type κ} (f : (x : A) → P x ↔ Q x) where
  All-iff : (xs : List A) → All P xs ↔ All Q xs
  All-iff [] = (λ _. tt, λ _. tt)
  All-iff (x ∷ xs) =
      (λ h. ((f x).0 h.0, (All-iff xs).0 h.1), λ h. ((f x).1 h.0, (All-iff xs).1 h.1))

-- A query passes exactly when no private text of the run occurs in it.
pub query_leaks-none_iff :
    (query : String) (canaries : List String)
    → (query_leaks_private query canaries ≡ none) ↔ All (IsAbsent query) canaries
unfolding query_leaks_private
query_leaks-none_iff query canaries =
    let a = find-none_iff (leaks_canary (lower query)) canaries in
    let b = All-iff (leaks_canary-false_iff query) canaries in (λ h. b.0 (a.0 h), λ h. a.1 (b.1 h))

-- A proposal passes exactly when its type is on the allowlist, it claims no privilege and carries
-- none of the privileged fields.
pub reject_privileged-none_iff :
    (p : Decision)
    → (reject_privileged_proposal p ≡ none) ↔ (
        (is_allowed_tool p.type ≡ true)
        × (p.privileged ≡ false)
        × All (λ field. lookup field p.arguments ≡ none) privileged_fields)
unfolding reject_privileged_proposal
reject_privileged-none_iff p = (λ h. ground arith, λ h. ground arith)

-- A reported leak is not the empty text.
pub query_leaks-nonempty :
    (query : String) (canaries : List String) (c : String)
    → query_leaks_private query canaries ≡ some c
    → c ≢ ""
unfolding query_leaks_private leaks_canary
query_leaks-nonempty query canaries c h e =
    let leak = find-some (λ k. leaks_canary (lower query) k) canaries c h in
    ground (arith, leak, eq_iff c "")
