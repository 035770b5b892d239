-- ===== src/Regex/Words.antt =====
-- A search for one of several words, letter case aside, finds every word that the text includes.
use deep_research_app.Text.Laws.{chars-lower}
use Prim.Native.Char.{Char, code}
use deep_research_app.Text.{includes, chars, lower, lower_char}
use deep_research_app.Regex.{run, run_word, same_char, step_over, search_from, lower_char}
use deep_research_app.Text.{prefix, occurs}
use deep_research_app.Regex.{Pos, test, run_word, chars, search_from, exec, Char, words}
use deep_research_app.Base.{
  refl, ◌≡◌, Bool, Option, List, is_some, String, Any, ◌&&◌, ◌||◌, true, ◌∷◌, arith, ◌⊎◌, some, inl,
  inr, false, none, some_of, Bool-cases, some_of-eq-true_iff, map, [], ℕ, nat_eq,
}

-- What follows a match always succeeds.
abbrev Succeeds : (Pos → Option Pos) → Type 0
Succeeds k = (q : Pos) → is_some (k q) ≡ true

and_parts : (a b : Bool) → (a && b) ≡ true → (a ≡ true) × (b ≡ true)
and_parts a b h = (ground (arith, h), ground (arith, h))

or_parts : {a b : Bool} → (a || b) ≡ true → (a ≡ true) ⊎ (b ≡ true)
or_parts {a = true} h = inl refl
or_parts {a = false} h = inr h

-- The position before a text.
abbrev at_text : Option Char → List (ℕ × String) → List Char → Pos
at_text before captured rest = record { before = before; rest = rest; captured = captured }

run_word-prefix :
    (w rest : List Char) (before : Option Char) (captured : List (ℕ × String))
    (k : Pos → Option Pos)
    → Succeeds k
    → prefix (map lower_char w) (map lower_char rest) ≡ true
    → is_some (run_word true w (at_text before captured rest) k) ≡ true
unfolding run_word prefix same_char step_over
run_word-prefix [] rest before captured k s h = s (at_text before captured rest)
run_word-prefix (c ∷ w) [] before captured k s h = absurd (ground (arith, h))
run_word-prefix (c ∷ w) (d ∷ rest) before captured k s h =
    let (same, more) =
      and_parts (nat_eq (code (lower_char c)) (code (lower_char d)))
        (prefix (map lower_char w) (map lower_char rest)) h in
    ground (arith, same, run_word-prefix w rest (some d) captured k s more)

is_some-alt :
    (a b : Option Pos) → is_some b ≡ true → is_some (elim a [ some q ↦ some q | none ↦ b ]) ≡ true
is_some-alt none b h = h
is_some-alt (some q) b h = refl

is_some-first :
    (a b : Option Pos) → is_some a ≡ true → is_some (elim a [ some q ↦ some q | none ↦ b ]) ≡ true
is_some-first none b h = absurd (ground (arith, h))
is_some-first (some q) b h = refl

-- One of the words begins the rest of the text.
abbrev BeginsOne : List String → List Char → Type 0
BeginsOne ws rest = Any (λ w. prefix (map lower_char (chars w)) (map lower_char rest) ≡ true) ws

run_words-prefix :
    (ws : List String) (p : Pos) (k : Pos → Option Pos)
    → Succeeds k
    → BeginsOne ws p.rest
    → is_some (run true (words ws) p k) ≡ true
unfolding run chars
run_words-prefix [] p k s h = elim h [ ]
run_words-prefix (w ∷ []) p k s (inl h) = run_word-prefix (chars w) p.rest p.before p.captured k s h
run_words-prefix (w ∷ []) p k s (inr h) = elim h [ ]
run_words-prefix (w ∷ v ∷ ws) p k s (inl h) =
    is_some-first _ (run true (words (v ∷ ws)) p k)
      (run_word-prefix (chars w) p.rest p.before p.captured k s h)
run_words-prefix (w ∷ v ∷ ws) p k s (inr h) =
    is_some-alt _ (run true (words (v ∷ ws)) p k) (run_words-prefix (v ∷ ws) p k s h)

search_from-occurs :
    (ws : List String) (before : Option Char) (text : List Char)
    → Any (λ w. occurs (map lower_char (chars w)) (map lower_char text) ≡ true) ws
    → is_some (search_from true (words ws) before text) ≡ true
unfolding search_from run occurs chars
search_from-occurs ws before [] h =
    run_words-prefix ws (record { before = before; rest = []; captured = [] }) _ (λ q. refl) h
search_from-occurs ws before (c ∷ text) h = elim (split ws h) [
  | inl here ↦ is_some-first _ _ (
      run_words-prefix ws (record { before = before; rest = c ∷ text; captured = [] }) _ (λ q. refl)
        here)
  | inr later ↦ is_some-alt _ _ (search_from-occurs ws (some c) text later)
]
  where
    split :
        (vs : List String)
        → Any (λ w. occurs (map lower_char (chars w)) (map lower_char (c ∷ text)) ≡ true) vs
        → BeginsOne vs (c ∷ text)
          ⊎ Any (λ w. occurs (map lower_char (chars w)) (map lower_char text) ≡ true) vs
    split [] h = elim h [ ]
    split (v ∷ vs) (inl h) = elim (or_parts h) [ inl a ↦ inl (inl a) | inr b ↦ inr (inl b) ]
    split (v ∷ vs) (inr h) = elim (split vs h) [ inl a ↦ inl (inr a) | inr b ↦ inr (inr b) ]

lowered :
    (w text : String)
    → includes (lower text) (lower w)
      ≡ occurs (map lower_char (chars w)) (map lower_char (chars text))
unfolding includes
lowered w text = rw (chars-lower w, chars-lower text) refl

Any-map {ℓ} :
    {A : Type ℓ} (P Q : A → Type 0) → ((x : A) → P x → Q x) → (xs : List A) → Any P xs → Any Q xs
Any-map P Q f [] h = elim h [ ]
Any-map P Q f (x ∷ xs) (inl h) = inl (f x h)
Any-map P Q f (x ∷ xs) (inr h) = inr (Any-map P Q f xs h)

-- A text in which no word is found includes none of them, letter case aside.
pub words-includes :
    (ws : List String) (text : String)
    → test true (words ws) text ≡ false
    → some_of (λ w. includes (lower text) (lower w)) ws ≡ false
unfolding test exec
words-includes ws text none_found =
    elim (Bool-cases (some_of (λ w. includes (lower text) (lower w)) ws)) [
      | inr absent ↦ absent
      | inl there ↦
          let any = (some_of-eq-true_iff _ _ (λ w. (λ h. h, λ h. h)) ws).0 there in
          let found = search_from-occurs ws none (chars text) (
            Any-map (λ w. includes (lower text) (lower w) ≡ true)
              (λ w. occurs (map lower_char (chars w)) (map lower_char (chars text)) ≡ true)
              (λ w h. rw (lowered w text) at h) ws any) in
          absurd (ground (arith, none_found, found))
    ]
