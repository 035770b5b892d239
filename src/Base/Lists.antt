-- ===== src/Base/Lists.antt =====
-- Array methods of the source over the native numbers, with their laws.
use Prim.Native.Nat.{ℕ, zero, suc, ◌+◌, ◌-◌, ◌≤◌}
use mathlib.Core.Path.{◌≡◌, refl}
use mathlib.Core.Logic.{◌↔◌, ◌⊎◌, inl, inr}
use Prim.Native.String.{String}
use mathlib.Core.Bool.{Bool, true, false, not, ◌&&◌, ◌||◌}
use text.Mathlib.Text.{◌==◌}
use mathlib.Core.Option.{Option, none, some}
use mathlib.Core.List.{List, [], ◌∷◌, ◌++◌}
use native.Mathlib.Omega.{arith}
use deep_research_app.Base.Tests.{if◌then◌else◌, Bool-cases}

module _ {ℓ} {A : Type ℓ} where
  abbrev pub length : List A → ℕ
  length [] = 0
  length (x ∷ xs) = suc (length xs)

  abbrev pub some_of : (A → Bool) → List A → Bool
  some_of p [] = false
  some_of p (x ∷ xs) = p x || some_of p xs

  abbrev pub every : (A → Bool) → List A → Bool
  every p [] = true
  every p (x ∷ xs) = p x && every p xs

  abbrev pub find : (A → Bool) → List A → Option A
  find p [] = none
  find p (x ∷ xs) = if p x then some x else find p xs

  abbrev pub select : (A → Bool) → List A → List A
  select p [] = []
  select p (x ∷ xs) = if p x then x ∷ select p xs else select p xs

  abbrev pub take : ℕ → List A → List A
  take zero xs = []
  take (suc n) [] = []
  take (suc n) (x ∷ xs) = x ∷ take n xs

  abbrev pub drop : ℕ → List A → List A
  drop zero xs = xs
  drop (suc n) [] = []
  drop (suc n) (x ∷ xs) = drop n xs

  -- `slice(-n)`
  abbrev pub take_last : ℕ → List A → List A
  take_last n xs = drop (length xs - n) xs

  abbrev pub head? : List A → Option A
  head? [] = none
  head? (x ∷ xs) = some x

  abbrev pub last? : List A → Option A
  last? [] = none
  last? (x ∷ []) = some x
  last? (x ∷ y ∷ xs) = last? (y ∷ xs)

  abbrev pub All {κ} : (A → Type κ) → List A → Type κ
  All P [] = Unit
  All P (x ∷ xs) = P x × All P xs

  abbrev pub Any : (A → Type 0) → List A → Type 0
  Any P [] = ⊥
  Any P (x ∷ xs) = P x ⊎ Any P xs

  pub length-append : (xs ys : List A) → length (xs ++ ys) ≡ length xs + length ys
  length-append [] ys = omega arith
  length-append (x ∷ xs) ys = omega (arith, length-append xs ys)

  pub All-append {κ} : (P : A → Type κ) (xs ys : List A) → All P xs → All P ys → All P (xs ++ ys)
  All-append P [] ys hx hy = hy
  All-append P (x ∷ xs) ys hx hy = (hx.0, All-append P xs ys hx.1 hy)

  pub All-map_of {κ μ} :
      (P : A → Type κ) (Q : A → Type μ) (xs : List A) → ((x : A) → P x → Q x) → All P xs → All Q xs
  All-map_of P Q [] f h = tt
  All-map_of P Q (x ∷ xs) f h = (f x h.0, All-map_of P Q xs f h.1)

  pub some_of-append :
      (p : A → Bool) (xs ys : List A) → some_of p (xs ++ ys) ≡ (some_of p xs || some_of p ys)
  some_of-append p [] ys = refl
  some_of-append p (x ∷ xs) ys = ground (arith, some_of-append p xs ys)

  pub find-some : (p : A → Bool) (xs : List A) (x : A) → find p xs ≡ some x → p x ≡ true
  find-some p [] x h = ground arith
  find-some p (y ∷ ys) x h = ground (arith, find-some p ys x)

  pub find-none_iff : (p : A → Bool) (xs : List A) → (find p xs ≡ none) ↔ All (λ x. p x ≡ false) xs
  find-none_iff p [] = (λ _. tt, λ _. refl)
  find-none_iff p (x ∷ xs) =
      (λ h. ground (arith, (find-none_iff p xs).0), λ h. ground (arith, (find-none_iff p xs).1))

  pub some_of-eq-false_iff :
      (p : A → Bool) (xs : List A) → (some_of p xs ≡ false) ↔ All (λ x. p x ≡ false) xs
  some_of-eq-false_iff p [] = (λ _. tt, λ _. refl)
  some_of-eq-false_iff p (x ∷ xs) = (
    λ h. ground (arith, (some_of-eq-false_iff p xs).0),
    λ h. ground (arith, (some_of-eq-false_iff p xs).1),
  )

  pub some_of-eq-true_iff :
      (p : A → Bool) (P : A → Type 0)
      → ((x : A) → (p x ≡ true) ↔ P x)
      → (xs : List A) → (some_of p xs ≡ true) ↔ Any P xs
  some_of-eq-true_iff p P h [] = (λ e. ground arith, λ e. elim e [ ])
  some_of-eq-true_iff p P h (x ∷ xs) = (
    λ e. elim (Bool-cases (p x)) [
      | inl here ↦ inl ((h x).0 here)
      | inr not_here ↦ inr ((some_of-eq-true_iff p P h xs).0 (rw not_here at e))
    ],
    λ e. elim e [
      | inl here ↦ rw ((h x).1 here) refl
      | inr there ↦ ground (arith, (some_of-eq-true_iff p P h xs).1 there)
    ],
  )

  pub select-append :
      (p : A → Bool) (xs ys : List A) → select p (xs ++ ys) ≡ select p xs ++ select p ys
  select-append p [] ys = refl
  select-append p (x ∷ xs) ys = ground (arith, select-append p xs ys)

  pub select-none : (p : A → Bool) (xs : List A) → All (λ x. p x ≡ false) xs → select p xs ≡ []
  select-none p [] h = refl
  select-none p (x ∷ xs) h = ground (arith, select-none p xs)

  pub select-select : (p : A → Bool) (xs : List A) → select p (select p xs) ≡ select p xs
  select-select p [] = refl
  select-select p (x ∷ xs) = ground (arith, select-select p xs)

  pub length-select-le : (p : A → Bool) (xs : List A) → length (select p xs) ≤ length xs
  length-select-le p [] = omega arith
  length-select-le p (x ∷ xs) = ground (arith, length-select-le p xs)

  pub length-select-split :
      (p : A → Bool) (xs : List A)
      → length (select p xs) + length (select (λ x. not (p x)) xs) ≡ length xs
  length-select-split p [] = omega arith
  length-select-split p (x ∷ xs) = ground (arith, length-select-split p xs)

  pub select-both :
      (p q : A → Bool) (xs : List A) → select p (select q xs) ≡ select (λ x. q x && p x) xs
  select-both p q [] = refl
  select-both p q (x ∷ xs) = ground (arith, select-both p q xs)

  -- The first element that is selected, with what stands before and after it.
  pub head?-select :
      (p : A → Bool) (xs : List A) (s : A)
      → head? (select p xs) ≡ some s
      → (before : List A) × (after : List A) × (xs ≡ before ++ s ∷ after)
        × All (λ x. p x ≡ false) before
        × (p s ≡ true)
  head?-select p [] s e = ground (arith, e)
  head?-select p (x ∷ xs) s e = elim (Bool-cases (p x)) [
    | inl this ↦
        let same : x ≡ s = ground (arith, rw this at e) in
        ([], xs, rw same refl, tt, rw same at this)
    | inr other ↦
        let (before, after, split, skipped, holds) = head?-select p xs s (rw other at e) in
        (x ∷ before, after, rw split refl, (other, skipped), holds)
  ]

  pub drop-append : (xs ys : List A) → drop (length xs) (xs ++ ys) ≡ ys
  drop-append [] ys = refl
  drop-append (x ∷ xs) ys = drop-append xs ys

  pub take_last-append : (xs ys : List A) → take_last (length ys) (xs ++ ys) ≡ ys
  take_last-append xs ys =
      let e : length (xs ++ ys) - length ys ≡ length xs = omega (arith, length-append xs ys) in
      rw e (drop-append xs ys)

-- `new Set(texts).size === texts.length`
unfoldable pub is_distinct : List String → Bool
is_distinct [] = true
is_distinct (s ∷ ss) = not (some_of (λ t. s == t) ss) && is_distinct ss
