-- ===== src/Brief/Kept.antt =====
-- What a correction changes, and what it leaves.
use deep_research_app.Text.{template}
use deep_research_app.Types.{Constraint}
use deep_research_app.Brief.Correction.{Intent}
use deep_research_app.Brief.Changes.{
  value_for, change_first, change_or_add, has_field, correct_dose, corrected, dose_step,
  budget_step, geography_step, is_platform, platform_step, apply_intent, supplied,
}
use mathlib.Core.List.{append-nil}
use deep_research_app.Base.{
  refl, ◌≡◌, String, some, same_text, false, List, none, ◌==◌, arith, select, ◌∷◌, eq_iff, [],
  Option, select-append, some_of, find, true, Bool-cases, ap, inl, inr, Bool, eq_refl, not, ◌∙◌,
  ◌++◌, Option-cases, if◌then◌else◌,
}

same_text-some : (o : Option String) (f : String) → same_text o f ≡ true → o ≡ some f
same_text-some none f e = absurd (ground (arith, e))
same_text-some (some g) f e = ap some ((eq_iff g f).0 e)

value_for-some : (f : String) (i : Intent) (v : String) → value_for f i ≡ some v → i.field ≡ some f
unfolding value_for
value_for-some f i v e = same_text-some i.field f (ground (arith, e))

find-last {ℓ} :
    {A : Type ℓ} (p : A → Bool) (xs : List A) (x : A)
    → some_of p xs ≡ false
    → p x ≡ true
    → find p (xs ++ x ∷ []) ≡ some x
find-last p [] x h e = ground (arith, e)
find-last p (y ∷ ys) x h e = ground (arith, h, e, find-last p ys x)

module _ (f : String) (g : Constraint → Constraint)
    (keeps : (c : Constraint) → (g c).field ≡ c.field) where
  change-select :
      (h : String) (cs : List Constraint)
      → (f == h) ≡ false
      → select (has_field h) (change_first f g cs) ≡ select (has_field h) cs
  unfolding change_first
  change-select h [] d = refl
  change-select h (c ∷ cs) d = ground (arith, change-select h cs d, keeps c, d, eq_iff c.field f)

  add-select :
      (h : String) (new : Constraint) (cs : List Constraint)
      → (f == h) ≡ false
      → new.field ≡ f
      → select (has_field h) (change_or_add f g new cs) ≡ select (has_field h) cs
  unfolding change_or_add
  add-select h new cs d n = ground (
    arith,
    change-select h cs d,
    select-append (has_field h) cs (new ∷ []),
    append-nil (select (has_field h) cs),
    d,
    n,
  )

  change-find :
      (v : String) (cs : List Constraint)
      → ((c : Constraint) → (g c).value ≡ v)
      → some_of (has_field f) cs ≡ true
      → (c : Constraint) × (find (has_field f) (change_first f g cs) ≡ some c) × (c.value ≡ v)
  unfolding change_first
  change-find v [] gives h = absurd (ground (arith, h))
  change-find v (c ∷ cs) gives h = elim (Bool-cases (c.field == f)) [
    | inl e ↦ (g c, rw (change_first, e) (ground (arith, keeps c, e)), gives c)
    | inr e ↦
        let (d, p, q) = change-find v cs gives (ground (arith, h, e)) in
        (d, rw (change_first, e) (ground (arith, p, e)), q)
  ]

  pub add-find :
      (v : String) (new : Constraint) (cs : List Constraint)
      → ((c : Constraint) → (g c).value ≡ v)
      → new.field ≡ f
      → new.value ≡ v
      → (c : Constraint) × (find (has_field f) (change_or_add f g new cs) ≡ some c) × (c.value ≡ v)
  unfolding change_or_add
  add-find v new cs gives n w = elim (Bool-cases (some_of (has_field f) cs)) [
    | inl e ↦ rw (change_or_add, e) (change-find v cs gives e)
    | inr e ↦ rw (change_or_add, e) (new, find-last (has_field f) cs new e (rw n (eq_refl f)), w)
  ]

pub dose-keeps :
    (v : String) (u : Option String) (c : Constraint) → (correct_dose v u c).field ≡ c.field
unfolding correct_dose corrected
dose-keeps v u c = refl

pub corrected-keeps : (v e : String) (c : Constraint) → (corrected v e c).field ≡ c.field
unfolding corrected
corrected-keeps v e c = refl

dose-select :
    (i : Intent) (h : String) (cs : List Constraint)
    → same_text i.field h ≡ false
    → select (has_field h) (dose_step i cs) ≡ select (has_field h) cs
unfolding dose_step supplied
dose-select i h cs d = elim (Option-cases (value_for "dose" i)) [
  | inl e ↦ rw (dose_step, e) refl
  | inr (v, e) ↦
      rw (dose_step, e)
        (add-select "dose" (correct_dose v i.units) (dose-keeps v i.units) h _ cs
          (rw (value_for-some "dose" i v e) at d) refl)
]

budget-select :
    (i : Intent) (h : String) (cs : List Constraint)
    → same_text i.field h ≡ false
    → select (has_field h) (budget_step i cs) ≡ select (has_field h) cs
unfolding budget_step supplied
budget-select i h cs d = elim (Option-cases (value_for "budget" i)) [
  | inl e ↦ rw (budget_step, e) refl
  | inr (v, e) ↦
      rw (budget_step, e)
        (add-select "budget" _ (corrected-keeps v (template ("Corrected budget to " ∷ v ∷ []))) h _
          cs (rw (value_for-some "budget" i v e) at d) refl)
]

geography-select :
    (i : Intent) (h : String) (cs : List Constraint)
    → same_text i.field h ≡ false
    → select (has_field h) (geography_step i cs) ≡ select (has_field h) cs
unfolding geography_step supplied
geography-select i h cs d = elim (Option-cases (value_for "geography" i)) [
  | inl e ↦ rw (geography_step, e) refl
  | inr (v, e) ↦
      rw (geography_step, e)
        (add-select "geography" _
          (corrected-keeps v (template ("Corrected geography to " ∷ v ∷ []))) h _ cs
          (rw (value_for-some "geography" i v e) at d) refl)
]

drop-select :
    (v h : String) (cs : List Constraint)
    → ("platform" == h) ≡ false
    → select (has_field h) (select (λ c. not (is_platform v c)) cs) ≡ select (has_field h) cs
unfolding is_platform
drop-select v h [] d = refl
drop-select v h (c ∷ cs) d = ground (arith, drop-select v h cs d, d, eq_iff c.field "platform")

platform-select :
    (i : Intent) (h : String) (cs : List Constraint)
    → same_text i.field h ≡ false
    → select (has_field h) (platform_step i cs) ≡ select (has_field h) cs
unfolding platform_step supplied
platform-select i h cs d = elim (Option-cases (value_for "platform" i)) [
  | inl e ↦ rw (platform_step, e) refl
  | inr (v, e) ↦ rw (platform_step, e) (placed v (rw (value_for-some "platform" i v e) at d))
]
  where
    placed :
        (v : String)
        → ("platform" == h) ≡ false
        → select (has_field h) (
            if i.drop
            then select (λ c. not (is_platform v c)) cs
            else if some_of (is_platform v) cs
            then cs
            else cs
              ++ supplied
                  (template ("platform-" ∷ v ∷ []))
                  "platform"
                  v
                  (template ("Correction requires " ∷ v ∷ []))
                ∷ [])
          ≡ select (has_field h) cs
    placed v d = ground (
      arith,
      drop-select v h cs d,
      d,
      append-nil (select (has_field h) cs),
      select-append (has_field h) cs (
          supplied (template ("platform-" ∷ v ∷ [])) "platform" v
            (template ("Correction requires " ∷ v ∷ []))
          ∷ []),
    )

-- A correction leaves the constraints of every other field as they are, in their order.
pub apply_intent-select :
    (i : Intent) (cs : List Constraint) (field : String)
    → same_text i.field field ≡ false
    → select (has_field field) (apply_intent i cs).next ≡ select (has_field field) cs
unfolding apply_intent
apply_intent-select i cs field d =
    platform-select i field _ d
    ∙ geography-select i field _ d
    ∙ budget-select i field _ d
    ∙ dose-select i field cs d
