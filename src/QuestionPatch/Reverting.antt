-- ===== src/QuestionPatch/Reverting.antt =====
-- A replaced span can be put back.
use deep_research_app.QuestionPatch.Pairs.{join-formed, cut-twice, joint-whole}
use deep_research_app.QuestionPatch.{
  replace_span, Span, question, spliced, slice, well_formed, splits_pair, PatchError, Patched,
  digest_mismatch, thrown, invalid_span, invalid_unicode, quote_mismatch, is_blank, invalid_result,
  well_formed_from,
}
use mathlib.Core.List.{append_assoc}
use mathlib.Core.Path.{ap₂, subst}
use deep_research_app.Base.{
  refl, ◌≡◌, List, ℕ, String, true, take, ◌≤◌, drop, length, ◌+◌, ◌++◌, arith, ap, ◌-◌, Bool, ◌∙◌,
  sym, false, if◌then◌else◌, length-append, eq_iff,
}
use deep_research_app.QuestionPatch.Splices.{
  replaced, same_units-eq, same_units-of, length-take, take-parts, slice-parts, three-parts,
  drop-parts, length-drop,
}

-- The patch that puts back what `p` replaced, in a question of that digest.
unfoldable pub reverting : Span → String → Span
reverting p sha = record {
  original_question_sha256 = sha;
  start = p.start;
  end = p.start + length p.replacement;
  quote = p.replacement;
  replacement = p.quote;
}

-- The question that a patch gives is fit for another patch.
pub record IsPatchable (q : List ℕ) (p : Span) : Type 0 where
  pub is_formed : well_formed q ≡ true
  pub is_quote_formed : well_formed p.quote ≡ true
  pub starts_whole : splits_pair q p.start ≡ false
  pub ends_whole : splits_pair q (p.start + length p.replacement) ≡ false

module _ (o : List ℕ) (p : Span) (sha : String) (h : p.start ≤ p.end) (k : p.end ≤ length o)
    (w : slice p.start p.end o ≡ p.quote) where
  taken : length (take p.start o) ≡ p.start
  taken = length-take p.start o (omega (arith, h, k))

  spliced-reverting : spliced (spliced o p) (reverting p sha) ≡ o
  unfolding spliced reverting slice
  spliced-reverting =
      ap₂ (λ x y. x ++ (p.quote ++ y))
        (take-parts p.start (take p.start o) (p.replacement ++ drop p.end o) taken)
        (drop-parts p.start (take p.start o) p.replacement (drop p.end o) taken)
      ∙ ap (λ z. take p.start o ++ (z ++ drop p.end o)) (sym w)
      ∙ three-parts p.start p.end o h

  slice-reverting : slice p.start (p.start + length p.replacement) (spliced o p) ≡ p.replacement
  unfolding spliced slice
  slice-reverting = slice-parts p.start (take p.start o) p.replacement (drop p.end o) taken

  length-spliced : p.start + length p.replacement ≤ length (spliced o p)
  unfolding spliced
  length-spliced = omega (
    arith,
    taken,
    length-append (take p.start o) (p.replacement ++ drop p.end o),
    length-append p.replacement (drop p.end o),
  )

  ended : length (take p.start o ++ slice p.start p.end o) ≡ p.end
  unfolding slice
  ended = omega (
    arith,
    h,
    k,
    taken,
    length-append (take p.start o) (take (p.end - p.start) (drop p.start o)),
    length-take (p.end - p.start) (drop p.start o) (omega (arith, h, k, length-drop p.start o)),
  )

  parts : take p.start o ++ (slice p.start p.end o ++ drop p.end o) ≡ o
  unfolding slice
  parts = three-parts p.start p.end o h

  whole-parts :
      well_formed o ≡ true
      → splits_pair o p.start ≡ false
      → splits_pair o p.end ≡ false
      → (well_formed_from false (take p.start o) ≡ true)
        × (well_formed_from false (slice p.start p.end o) ≡ true)
        × (well_formed_from false (drop p.end o) ≡ true)
  unfolding well_formed
  whole-parts f a b =
      cut-twice (take p.start o) (slice p.start p.end o) (drop p.end o) (rw parts f)
        (rw (parts, taken) a) (rw (parts, ended) b)

  spliced-IsPatchable :
      well_formed o ≡ true
      → well_formed p.replacement ≡ true
      → splits_pair o p.start ≡ false
      → splits_pair o p.end ≡ false
      → IsPatchable (spliced o p) p
  unfolding spliced well_formed
  spliced-IsPatchable f r a b =
      let (ha, hq, hb) = whole-parts f a b in
      let tail = join-formed false p.replacement (drop p.end o) r hb in
      record {
        is_formed = join-formed false (take p.start o) (p.replacement ++ drop p.end o) ha tail;
        is_quote_formed = rw w at hq;
        starts_whole =
            rw taken at (joint-whole (take p.start o) (p.replacement ++ drop p.end o) tail);
        ends_whole =
            rw
              (
                append_assoc (take p.start o) p.replacement (drop p.end o),
                length-append (take p.start o) p.replacement,
                taken,
              )
              at (joint-whole (take p.start o ++ p.replacement) (drop p.end o) hb);
      }

skip :
    (b : Bool) (x : PatchError) (y z : Patched)
    → b ≡ false
    → y ≡ z
    → (if b then thrown x else y) ≡ z
skip true x y z e f = absurd (ground (arith, e))
skip false x y z e f = f

replace-passes :
    (o : List ℕ) (sha : String) (p : Span)
    → p.original_question_sha256 ≡ sha
    → p.start ≤ p.end
    → p.end ≤ length o
    → well_formed o ≡ true
    → well_formed p.replacement ≡ true
    → splits_pair o p.start ≡ false
    → splits_pair o p.end ≡ false
    → slice p.start p.end o ≡ p.quote
    → is_blank (spliced o p) ≡ false
    → length (spliced o p) ≤ 20000
    → replace_span o sha p ≡ question (spliced o p)
unfolding replace_span
replace-passes o sha p d s e f g a b w n l =
    skip _ digest_mismatch _ _ (ground (arith, (eq_iff p.original_question_sha256 sha).1 d)) (
      skip _ invalid_span _ _ (ground (arith, s, e)) (
        skip _ invalid_unicode _ _ (ground (arith, f, g, a, b)) (
          skip _ quote_mismatch _ _
            (ground (arith, same_units-of (slice p.start p.end o) p.quote w))
            (skip _ invalid_result _ _ (ground (arith, n, l)) refl))))

-- A span that was replaced can be put back: where the question was neither blank nor too long, the
-- patch back passes every check and gives the original question again.
pub replace_span-reverting :
    (o : List ℕ) (sha : String) (p : Span) (q : List ℕ) (sha' : String)
    → replace_span o sha p ≡ question q
    → is_blank o ≡ false
    → length o ≤ 20000
    → replace_span q sha' (reverting p sha') ≡ question o
unfolding reverting
replace_span-reverting o sha p q sha' e blank long =
    let (f, h, k, w, wo, wr, ss, se) = replaced o sha p q e in
    let same = same_units-eq (slice p.start p.end o) p.quote w in
    let i =
      subst (λ x. IsPatchable x p) (sym f) (spliced-IsPatchable o p sha' h k same wo wr ss se) in
    let back : spliced q (reverting p sha') ≡ o =
      ap (λ x. spliced x (reverting p sha')) f ∙ spliced-reverting o p sha' h k same in
    let cut : slice p.start (p.start + length p.replacement) q ≡ p.replacement =
      ap (slice p.start (p.start + length p.replacement)) f ∙ slice-reverting o p sha' h k same in
    let fits : p.start + length p.replacement ≤ length q =
      subst (λ x. p.start + length p.replacement ≤ length x) (sym f)
        (length-spliced o p sha' h k same) in
    replace-passes q sha' (reverting p sha') refl (omega arith) fits i.is_formed i.is_quote_formed
      i.starts_whole i.ends_whole cut (rw back blank) (rw back long)
    ∙ ap question back
