-- ===== src/Mobile/Tabs/Leaving.antt =====
-- Pressing Back again and again leaves the application.
use deep_research_app.Mobile.{UiState, research, Tab}
use deep_research_app.Mobile.Tabs.{
  android_back, UiState, handle_android_back, close_source_sheet, calls_nothing, is_research,
}
use deep_research_app.Base.{
  refl, ◌≡◌, ℕ, suc, is_some, true, none, zero, arith, false, Bool-cases, Option-cases, ap, inl,
  ◌∙◌, inr,
}

unfoldable pub after_presses : ℕ → UiState → UiState
unfolding android_back
after_presses zero s = s
after_presses (suc n) s = after_presses n (android_back s).next

back-sheet : (s : UiState) → is_some s.source ≡ true → (android_back s).next ≡ close_source_sheet s
unfolding android_back
back-sheet s e = ground (arith, e)

is_research_iff : (t : Tab) → is_research t ≡ true → t ≡ research
is_research_iff t e = ground (arith, e)

back-stays : (s : UiState) → s.source ≡ none → is_research s.tab ≡ true → (android_back s).next ≡ s
unfolding android_back
back-stays s e r = ground (arith, e, r)

back-changes :
    (s : UiState)
    → s.source ≡ none
    → is_research s.tab ≡ false
    → (android_back s).next ≡ record s { tab = research }
unfolding android_back
back-changes s e r = ground (arith, e, r)

back-tab : (s : UiState) → s.source ≡ none → (android_back s).next ≡ record s { tab = research }
back-tab s e = elim (Bool-cases (is_research s.tab)) [
  | inl r ↦ back-stays s e r ∙ ap (λ t. record s { tab = t }) (is_research_iff s.tab r)
  | inr r ↦ back-changes s e r
]

abbrev shown : UiState → UiState
shown s = record s { source = none; tab = research }

two_presses : (s : UiState) → (android_back (android_back s).next).next ≡ shown s
unfolding close_source_sheet
two_presses s = elim (Option-cases s.source) [
  | inl e ↦
      ap (λ t. (android_back t).next) (back-tab s e)
      ∙ back-tab (record s { tab = research }) e
      ∙ ap (λ x. record s { source = x; tab = research }) e
  | inr (x, e) ↦
      ap (λ t. (android_back t).next) (back-sheet s (rw e refl))
      ∙ back-tab (close_source_sheet s) refl
]

presses-shown : (n : ℕ) (s : UiState) → after_presses n (shown s) ≡ shown s
unfolding after_presses android_back
presses-shown zero s = refl
presses-shown (suc n) s = presses-shown n s

-- After two presses of Back the source sheet is closed and the research tab is shown, nothing else
-- has changed, and every further press is left to the system: it changes nothing, and the handler
-- calls nothing and reports that.
pub android_back-leaves :
    (s : UiState) (n : ℕ)
    → (after_presses (suc (suc n)) s ≡ record s { source = none; tab = research })
      × (handle_android_back (after_presses (suc (suc n)) s) ≡ (calls_nothing, false))
unfolding after_presses handle_android_back
android_back-leaves s n =
    let e = ap (after_presses n) (two_presses s) ∙ presses-shown n s in (e, rw e refl)
