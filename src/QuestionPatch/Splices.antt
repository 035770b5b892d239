-- ===== src/QuestionPatch/Splices.antt =====
-- What the guards of a replaced span say, and the parts of a list around two positions.
use deep_research_app.QuestionPatch.{
  replace_span, same_units, Span, question, spliced, slice, well_formed, splits_pair, PatchError,
  Patched, digest_mismatch, thrown, invalid_span, invalid_unicode, quote_mismatch, is_blank,
  invalid_result,
}
use mathlib.Core.Path.{subst}
use deep_research_app.Base.{
  refl, ◌≡◌, List, ℕ, String, true, take, ◌≤◌, drop, length, ◌∷◌, suc, ◌+◌, ◌++◌, arith, ap, zero,
  ◌-◌, [], Bool, not, ◌∙◌, sym, drop-append, false, ◌==◌, ltb, if◌then◌else◌, ◌||◌,
}

else-question :
    (b : Bool) (x : PatchError) (y : Patched) (q : List ℕ)
    → (if b then thrown x else y) ≡ question q
    → (b ≡ false) × (y ≡ question q)
else-question true x y q e = absurd (ground (arith, e))
else-question false x y q e = (refl, e)

question-eq : (p q : List ℕ) → question p ≡ question q → p ≡ q
question-eq p q e = ground (arith, e)

all-false :
    (a b c d : Bool)
    → (not a || not b || c || d) ≡ false
    → (a ≡ true) × (b ≡ true) × (c ≡ false) × (d ≡ false)
all-false a b c d e = (ground (arith, e), ground (arith, e), ground (arith, e), ground (arith, e))

-- What a replaced span says of the guards.
pub replaced :
    (o : List ℕ) (sha : String) (p : Span) (q : List ℕ)
    → replace_span o sha p ≡ question q
    → (q ≡ spliced o p)
      × (p.start ≤ p.end)
      × (p.end ≤ length o)
      × (same_units (slice p.start p.end o) p.quote ≡ true)
      × (well_formed o ≡ true)
      × (well_formed p.replacement ≡ true)
      × (splits_pair o p.start ≡ false)
      × (splits_pair o p.end ≡ false)
unfolding replace_span
replaced o sha p q e =
    let (_, e1) = else-question (not (p.original_question_sha256 == sha)) digest_mismatch _ q e in
    let (s, e2) = else-question (ltb p.end p.start || ltb (length o) p.end) invalid_span _ q e1 in
    let (u, e3) =
      else-question
        (not (well_formed o)
          || not (well_formed p.replacement)
          || splits_pair o p.start
          || splits_pair o p.end)
        invalid_unicode _ q e2 in
    let (u1, u2, u3, u4) =
      all-false (well_formed o) (well_formed p.replacement) (splits_pair o p.start)
        (splits_pair o p.end) u in
    let (w, e4) =
      else-question (not (same_units (slice p.start p.end o) p.quote)) quote_mismatch _ q e3 in
    let (_, e5) =
      else-question (is_blank (spliced o p) || ltb 20000 (length (spliced o p))) invalid_result _ q
        e4 in
    (
      sym (question-eq _ q e5),
      ground (arith, s),
      ground (arith, s),
      ground (arith, w),
      u1,
      u2,
      u3,
      u4,
    )

pub same_units-eq : (us vs : List ℕ) → same_units us vs ≡ true → us ≡ vs
unfolding same_units
same_units-eq [] [] e = refl
same_units-eq [] (v ∷ vs) e = absurd (ground (arith, e))
same_units-eq (u ∷ us) [] e = absurd (ground (arith, e))
same_units-eq (u ∷ us) (v ∷ vs) e = ground (arith, e, same_units-eq us vs)

same_units_refl : (us : List ℕ) → same_units us us ≡ true
unfolding same_units
same_units_refl [] = refl
same_units_refl (u ∷ us) = ground (arith, same_units_refl us)

pub same_units-of : (us vs : List ℕ) → us ≡ vs → same_units us vs ≡ true
same_units-of us vs e = subst (λ v. same_units us v ≡ true) e (same_units_refl us)

module _ {ℓ} {A : Type ℓ} where
  pub take-append : (xs ys : List A) → take (length xs) (xs ++ ys) ≡ xs
  take-append [] ys = refl
  take-append (x ∷ xs) ys = ap (λ zs. x ∷ zs) (take-append xs ys)

  pub length-take : (n : ℕ) (xs : List A) → n ≤ length xs → length (take n xs) ≡ n
  length-take zero xs h = refl
  length-take (suc n) [] h = absurd (omega arith)
  length-take (suc n) (x ∷ xs) h = ap suc (length-take n xs (omega arith))

  pub take-drop : (n : ℕ) (xs : List A) → take n xs ++ drop n xs ≡ xs
  take-drop zero xs = refl
  take-drop (suc n) [] = refl
  take-drop (suc n) (x ∷ xs) = ap (λ zs. x ∷ zs) (take-drop n xs)

  drop-nil : (n : ℕ) → drop {A = A} n [] ≡ []
  drop-nil zero = refl
  drop-nil (suc n) = refl

  pub drop-drop : (m n : ℕ) (xs : List A) → drop m (drop n xs) ≡ drop (n + m) xs
  drop-drop m zero xs = ap (λ k. drop k xs) (omega arith)
  drop-drop m (suc n) [] = drop-nil m ∙ sym (drop-nil (suc n + m))
  drop-drop m (suc n) (x ∷ xs) = drop-drop m n xs ∙ ap (λ k. drop k (x ∷ xs)) (the-suc m n)
    where
      the-suc : (m n : ℕ) → suc (n + m) ≡ suc n + m
      the-suc m n = omega arith

  pub take-parts : (n : ℕ) (xs ys : List A) → length xs ≡ n → take n (xs ++ ys) ≡ xs
  take-parts n xs ys h = rw (sym h) (take-append xs ys)

  pub length-drop : (n : ℕ) (xs : List A) → length (drop n xs) ≡ length xs - n
  length-drop zero xs = omega arith
  length-drop (suc n) [] = omega arith
  length-drop (suc n) (x ∷ xs) = length-drop n xs ∙ omega arith

  -- The part between two positions, with what stands before and after it.
  pub three-parts :
      (s e : ℕ) (xs : List A) → s ≤ e → take s xs ++ (take (e - s) (drop s xs) ++ drop e xs) ≡ xs
  three-parts s e xs h =
      ap (λ zs. take s xs ++ zs)
        (ap (λ zs. take (e - s) (drop s xs) ++ zs) (sym (rest h)) ∙ take-drop (e - s) (drop s xs))
      ∙ take-drop s xs
    where
      rest : s ≤ e → drop (e - s) (drop s xs) ≡ drop e xs
      rest h = drop-drop (e - s) s xs ∙ ap (λ k. drop k xs) (omega arith)

  pub drop-parts :
      (n : ℕ) (xs ys zs : List A) → length xs ≡ n → drop (n + length ys) (xs ++ (ys ++ zs)) ≡ zs
  drop-parts n xs ys zs h =
      sym (drop-drop (length ys) n (xs ++ (ys ++ zs)))
      ∙ ap (drop (length ys)) (rw (sym h) (drop-append xs (ys ++ zs)))
      ∙ drop-append ys zs

  pub slice-parts :
      (n : ℕ) (xs ys zs : List A)
      → length xs ≡ n
      → take (n + length ys - n) (drop n (xs ++ (ys ++ zs))) ≡ ys
  slice-parts n xs ys zs h =
      ap (λ k. take k (drop n (xs ++ (ys ++ zs)))) (omega arith)
      ∙ ap (take (length ys)) (rw (sym h) (drop-append xs (ys ++ zs)))
      ∙ take-append ys zs
