-- ===== src/Impact/Unchanged.antt =====
-- When a correction changes nothing.
use deep_research_app.Policy.{has}
use deep_research_app.Types.{Constraint}
use deep_research_app.Impact.{
  same_units, changed_next, changed_previous, impact_for_correction, Constraint, changes_of,
  Changed, ImpactArgs, same_constraint, push_change, has,
}
use deep_research_app.Base.{
  none, some, [], ◌∷◌, refl, ◌≡◌, List, String, All, ◌++◌, some_of, ◌≢◌, Bool-cases, ◌↔◌, arith,
  true, inl, inr, Bool, ap, if◌then◌else◌, ◌∙◌, ◌||◌, Any, Option, eq_iff, some_of-eq-true_iff,
}

-- Each of these constraints is known to the code among those.
abbrev AreKnown : List Constraint → List Constraint → Type 0
AreKnown these those = All (λ c. some_of (same_constraint c) those ≡ true) these

-- Each of these constraints has one of the same field, value and units among those.
abbrev pub AreKept : List Constraint → List Constraint → Type 0
AreKept these those =
    All (λ c. Any (λ d. (d.field ≡ c.field) × (d.value ≡ c.value) × (d.units ≡ c.units)) those)
      these

same_units_iff : (a b : Option String) → (same_units a b ≡ true) ↔ (a ≡ b)
unfolding same_units
same_units_iff none none = (λ h. refl, λ h. refl)
same_units_iff none (some y) = (λ h. ground arith, λ h. ground arith)
same_units_iff (some x) none = (λ h. ground arith, λ h. ground arith)
same_units_iff (some x) (some y) =
    (λ h. ground (arith, eq_iff x y), λ h. ground (arith, eq_iff x y))

same_constraint_iff :
    (c d : Constraint)
    → (same_constraint c d ≡ true)
      ↔ ((d.field ≡ c.field) × (d.value ≡ c.value) × (d.units ≡ c.units))
unfolding same_constraint
same_constraint_iff c d = (
  λ h.
      ground
        (arith, eq_iff d.field c.field, eq_iff d.value c.value, same_units_iff d.units c.units),
  λ h.
      ground
        (arith, eq_iff d.field c.field, eq_iff d.value c.value, same_units_iff d.units c.units),
)

some_of-same_iff :
    (c : Constraint) (those : List Constraint)
    → (some_of (same_constraint c) those ≡ true)
      ↔ Any (λ d. (d.field ≡ c.field) × (d.value ≡ c.value) × (d.units ≡ c.units)) those
some_of-same_iff c those = some_of-eq-true_iff (same_constraint c) _ (same_constraint_iff c) those

AreKnown-iff : (these those : List Constraint) → AreKnown these those ↔ AreKept these those
AreKnown-iff [] those = (λ h. tt, λ h. tt)
AreKnown-iff (c ∷ these) those = (
  λ h. ((some_of-same_iff c those).0 h.0, (AreKnown-iff these those).0 h.1),
  λ h. ((some_of-same_iff c those).1 h.0, (AreKnown-iff these those).1 h.1),
)

snoc-nonempty : (xs : List String) (x : String) → (xs ++ x ∷ []) ≢ []
snoc-nonempty [] x e = ground arith
snoc-nonempty (y ∷ xs) x e = ground arith

changed_next-kept :
    (previous next : List Constraint) (acc : Changed)
    → AreKnown next previous
    → changed_next previous next acc ≡ acc
unfolding changed_next
changed_next-kept previous [] acc h = refl
changed_next-kept previous (n ∷ rest) acc h = rw h.0 (changed_next-kept previous rest acc h.1)

changed_previous-kept :
    (next previous : List Constraint) (acc : Changed)
    → AreKnown previous next
    → changed_previous next previous acc ≡ acc
unfolding changed_previous
changed_previous-kept next [] acc h = refl
changed_previous-kept next (p ∷ rest) acc h = rw h.0 (changed_previous-kept next rest acc h.1)

changed_next-empty :
    (previous next : List Constraint) (acc : Changed)
    → (changed_next previous next acc).fields ≡ []
    → (acc.fields ≡ []) × AreKnown next previous
unfolding changed_next
changed_next-empty previous [] acc h = (h, tt)
changed_next-empty previous (n ∷ rest) acc h =
    let (e, kept) =
      changed_next-empty previous rest
        (if some_of (same_constraint n) previous then acc else push_change n acc) h in
    elim (Bool-cases (some_of (same_constraint n) previous)) [
      | inl known ↦ (rw known at e, (known, kept))
      | inr new ↦ absurd (snoc-nonempty acc.fields n.field (rw new at e))
    ]

changed_previous-empty :
    (next previous : List Constraint) (acc : Changed)
    → (changed_previous next previous acc).fields ≡ []
    → (acc.fields ≡ []) × AreKnown previous next
unfolding changed_previous
changed_previous-empty next [] acc h = (h, tt)
changed_previous-empty next (p ∷ rest) acc h =
    let (e, kept) =
      changed_previous-empty next rest
        (if some_of (same_constraint p) next || has p.field acc.fields
          then acc
          else push_change p acc)
        h in
    elim (Bool-cases (some_of (same_constraint p) next || has p.field acc.fields)) [
      | inl known ↦
          let none_yet : acc.fields ≡ [] = rw known at e in
          (none_yet, (known_of none_yet known, kept))
      | inr gone ↦ absurd (snoc-nonempty acc.fields p.field (rw gone at e))
    ]
  where
    known_of :
        {fields : List String} {b : Bool}
        → fields ≡ []
        → (b || has p.field fields) ≡ true
        → b ≡ true
    known_of e h = ground (arith, rw e at h)

-- A correction has no changed inputs exactly when each constraint after it has one of the same field,
-- value and units before it, and each before it has such a one after it.
pub changed_inputs-empty_iff :
    (args : ImpactArgs)
    → ((impact_for_correction args).changed_inputs ≡ []) ↔ (
        AreKept args.next_constraints args.previous_constraints
        × AreKept args.previous_constraints args.next_constraints)
unfolding impact_for_correction changes_of
changed_inputs-empty_iff args =
    let next = args.next_constraints in
    let previous = args.previous_constraints in
    let start : Changed = record { fields = []; ids = [] } in
    (
      λ h.
          let (e, kept) =
            changed_previous-empty next previous (changed_next previous next start) h in
          (
            (AreKnown-iff next previous).0 (changed_next-empty previous next start e).1,
            (AreKnown-iff previous next).0 kept,
          ),
      λ (new, old).
          ap (λ (c : Changed). c.fields)
            (changed_previous-kept next previous (changed_next previous next start)
                ((AreKnown-iff previous next).1 old)
              ∙ changed_next-kept previous next start ((AreKnown-iff next previous).1 new)),
    )
