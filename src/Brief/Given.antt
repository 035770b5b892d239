-- ===== src/Brief/Given.antt =====
-- What a correction gives to the first constraint of its field.
use deep_research_app.Text.{template}
use deep_research_app.Types.{Constraint}
use deep_research_app.Brief.Correction.{Intent}
use deep_research_app.Brief.Changes.{
  value_for, has_field, correct_dose, corrected, dose_step, budget_step, geography_step,
  platform_step, apply_intent, supplied,
}
use deep_research_app.Base.{
  refl, ◌≡◌, String, some, false, List, none, ◌==◌, arith, ◌∷◌, [], find, inl, inr, eq_refl, ◌⊎◌,
}
use deep_research_app.Brief.Kept.{corrected-keeps, dose-keeps, add-find}

other-none :
    (f g : String) (i : Intent) → i.field ≡ some f → (f == g) ≡ false → value_for g i ≡ none
unfolding value_for
other-none f g i e d = ground (arith, e, d)

own-some :
    (f v : String) (i : Intent)
    → i.field ≡ some f
    → i.value ≡ some v
    → (v == "") ≡ false
    → value_for f i ≡ some v
unfolding value_for
own-some f v i e w n = ground (arith, e, w, n, eq_refl f)

-- A correction of the dose, the budget or the geography with a value that is not empty gives that
-- value to the first constraint of its field, which it adds where there is none.
pub apply_intent-find :
    (i : Intent) (cs : List Constraint) (field value : String)
    → (field ≡ "dose") ⊎ ((field ≡ "budget") ⊎ (field ≡ "geography"))
    → i.field ≡ some field
    → i.value ≡ some value
    → (value == "") ≡ false
    → (c : Constraint) × (find (has_field field) (apply_intent i cs).next ≡ some c)
      × (c.value ≡ value)
unfolding apply_intent dose_step budget_step geography_step platform_step supplied correct_dose
    corrected
apply_intent-find i cs field value (inl f) e w n = rw f (
    rw
      (
        platform_step,
        other-none "dose" "platform" i (rw f at e) refl,
        geography_step,
        other-none "dose" "geography" i (rw f at e) refl,
        budget_step,
        other-none "dose" "budget" i (rw f at e) refl,
        dose_step,
        own-some "dose" value i (rw f at e) w n,
      )
      (add-find "dose" (correct_dose value i.units) (dose-keeps value i.units) value _ cs
        (λ c. refl) refl refl))
apply_intent-find i cs field value (inr (inl f)) e w n = rw f (
    rw
      (
        platform_step,
        other-none "budget" "platform" i (rw f at e) refl,
        geography_step,
        other-none "budget" "geography" i (rw f at e) refl,
        budget_step,
        own-some "budget" value i (rw f at e) w n,
      )
      (add-find "budget" (corrected value (template ("Corrected budget to " ∷ value ∷ [])))
        (corrected-keeps value (template ("Corrected budget to " ∷ value ∷ []))) value _
        (dose_step i cs) (λ c. refl) refl refl))
apply_intent-find i cs field value (inr (inr f)) e w n = rw f (
    rw
      (
        platform_step,
        other-none "geography" "platform" i (rw f at e) refl,
        geography_step,
        own-some "geography" value i (rw f at e) w n,
      )
      (add-find "geography" (corrected value (template ("Corrected geography to " ∷ value ∷ [])))
        (corrected-keeps value (template ("Corrected geography to " ∷ value ∷ []))) value _
        (budget_step i (dose_step i cs)) (λ c. refl) refl refl))
