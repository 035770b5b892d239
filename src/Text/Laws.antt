-- ===== src/Text/Laws.antt =====
-- Laws of joining, lowering and searching texts.
use Prim.Native.Char.{Char, code}
use Prim.Native.String
use mathlib.Core.List.{append_assoc, map-append}
use text.Mathlib.TextLemmas.{nil-append, cons-append}
use deep_research_app.Base.{
  String, ◌≡◌, refl, ap, true, List, [], ◌∷◌, ◌++◌, map, arith, nat_eq_iff,
}
use deep_research_app.Text.{chars, of_chars, lower, lower_char, prefix, occurs, includes, template}

pub chars-append : (s t : String) → chars (String.◌++◌ s t) ≡ chars s ++ chars t
unfolding chars
chars-append String.[] t = rw nil-append
chars-append (String.◌∷◌ c s) t = rw cons-append (ap (λ l. c ∷ l) (chars-append s t))

pub chars-of_chars : (l : List Char) → chars (of_chars l) ≡ l
unfolding chars of_chars
chars-of_chars [] = refl
chars-of_chars (c ∷ l) = ap (λ k. c ∷ k) (chars-of_chars l)

pub chars-lower : (s : String) → chars (lower s) ≡ map lower_char (chars s)
unfolding lower
chars-lower s = chars-of_chars _

prefix-append : (p rest : List Char) → prefix p (p ++ rest) ≡ true
unfolding prefix
prefix-append [] rest = refl
prefix-append (c ∷ p) rest = ground (arith, prefix-append p rest, nat_eq_iff (code c) (code c))

occurs-append : (p before after : List Char) → occurs p (before ++ (p ++ after)) ≡ true
unfolding occurs prefix
occurs-append [] [] [] = refl
occurs-append [] [] (c ∷ after) = refl
occurs-append (d ∷ p) [] after = ground (arith, prefix-append (d ∷ p) after)
occurs-append p (c ∷ before) after = ground (arith, occurs-append p before after)

chars-lower-template :
    (s t value : String)
    → chars (lower (template (s ∷ t ∷ value ∷ [])))
      ≡ (chars (lower s) ++ chars (lower t)) ++ (chars (lower value) ++ [])
unfolding template chars
chars-lower-template s t value = simp (chars-lower, chars-append, map-append, append_assoc)

-- A text joined from pieces includes the last of them, letter case aside.
pub includes-template_last :
    (s t value : String) → includes (lower (template (s ∷ t ∷ value ∷ []))) (lower value) ≡ true
unfolding includes
includes-template_last s t value =
    rw (chars-lower-template s t value)
      (occurs-append (chars (lower value)) (chars (lower s) ++ chars (lower t)) [])

-- Every text includes the empty text.
pub includes_empty : (s : String) → includes s "" ≡ true
unfolding includes chars occurs prefix
includes_empty s = occurs_nil (chars s)
  where
    occurs_nil : (l : List Char) → occurs [] l ≡ true
    occurs_nil [] = refl
    occurs_nil (c ∷ l) = refl
