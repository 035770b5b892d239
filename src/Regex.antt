-- ===== src/Regex.antt =====
-- Regular expressions as ECMAScript runs them: backtracking, alternatives from left to right,
-- greedy repetition, the leftmost match, capture groups, `\b`, a class that must not stand
-- before or after, and the flag `i` on ASCII letters.
pub mod Words
use Prim.Native.Char.{Char, code}
use deep_research_app.Base.{
  ℕ, zero, suc, ◌-◌, String, ◌≡◌, refl, Bool, true, false, not, ◌&&◌, ◌||◌, Option, none, some,
  List, [], ◌∷◌, leb, nat_eq, if◌then◌else◌, is_some, length, map, take,
}
use deep_research_app.Text.{chars, of_chars, lower_char, upper_char, is_space}

pub data Regex : Type 0 where
  empty : Regex
  word : String → Regex
  one : (ℕ → Bool) → Regex
  edge : Regex
  begin : Regex
  not_after : (ℕ → Bool) → Regex
  not_before : (ℕ → Bool) → Regex
  finish : Regex
  group : ℕ → Regex → Regex
  many : Regex → Regex
  seq : Regex → Regex → Regex
  alt : Regex → Regex → Regex

-- A position in the subject: the character before it, what follows, the groups captured so far.
pub record Pos : Type 0 where
  pub before : Option Char
  pub rest : List Char
  pub captured : List (ℕ × String)

abbrev pub is_digit : ℕ → Bool
is_digit c = leb b'0' c && leb c b'9'

abbrev pub is_letter : ℕ → Bool
is_letter c = (leb b'a' c && leb c b'z') || (leb b'A' c && leb c b'Z')

abbrev pub is_word : ℕ → Bool
is_word c = is_letter c || is_digit c || nat_eq c b'_'

word_before : Option Char → Bool
word_before none = false
word_before (some c) = is_word (code c)

word_after : List Char → Bool
word_after [] = false
word_after (c ∷ s) = is_word (code c)

at_edge : Pos → Bool
unfolding word_before word_after
at_edge p = if word_before p.before then not (word_after p.rest) else word_after p.rest

is_empty : List Char → Bool
is_empty [] = true
is_empty (c ∷ s) = false

pub step_over : Pos → Char → List Char → Pos
step_over p c s = record p { before = some c; rest = s }

module _ (ignore_case : Bool) where
  pub same_char : Char → Char → Bool
  unfolding lower_char
  same_char c d =
      if ignore_case
      then nat_eq (code (lower_char c)) (code (lower_char d))
      else nat_eq (code c) (code d)

  in_class : (ℕ → Bool) → Char → Bool
  unfolding lower_char upper_char
  in_class p c = p (code c) || (ignore_case && (p (code (lower_char c)) || p (code (upper_char c))))

  holds_of : (ℕ → Bool) → Option Char → Bool
  unfolding in_class
  holds_of f none = false
  holds_of f (some c) = in_class f c

  holds_first : (ℕ → Bool) → List Char → Bool
  unfolding in_class
  holds_first f [] = false
  holds_first f (c ∷ s) = in_class f c

  pub run_word : List Char → Pos → (Pos → Option Pos) → Option Pos
  unfolding same_char step_over
  run_word [] p k = k p
  run_word (c ∷ w) p k = elim p.rest [
    | [] ↦ none
    | d ∷ s ↦ elim (same_char c d) [ true ↦ run_word w (step_over p d s) k | false ↦ none ]
  ]

  run_one : (ℕ → Bool) → Pos → (Pos → Option Pos) → Option Pos
  unfolding in_class step_over
  run_one f p k = elim p.rest [
    | [] ↦ none
    | d ∷ s ↦ elim (in_class f d) [ true ↦ k (step_over p d s) | false ↦ none ]
  ]

  -- Greedy repetition; a round that consumes nothing is not taken. Each round consumes a
  -- character, so the length of the rest is fuel enough.
  run_many : (Pos → (Pos → Option Pos) → Option Pos) → ℕ → Pos → (Pos → Option Pos) → Option Pos
  run_many body zero p k = k p
  run_many body (suc fuel) p k =
      elim (body p λ q. elim (nat_eq (length q.rest) (length p.rest)) [
        | true ↦ none
        | false ↦ run_many body fuel q k
      ]) [ some r ↦ some r | none ↦ k p ]

  capture : ℕ → Pos → Pos → Pos
  unfolding of_chars
  capture n start q =
      let size = length start.rest - length q.rest in
      record q { captured = (n, of_chars (take size start.rest)) ∷ q.captured }

  pub run : Regex → Pos → (Pos → Option Pos) → Option Pos
  unfolding run_word run_one run_many capture at_edge is_empty holds_of holds_first chars
  run empty p k = k p
  run (word w) p k = run_word (chars w) p k
  run (one f) p k = run_one f p k
  run edge p k = if at_edge p then k p else none
  run begin p k = if is_some p.before then none else k p
  run (not_after f) p k = if holds_of f p.before then none else k p
  run (not_before f) p k = if holds_first f p.rest then none else k p
  run finish p k = if is_empty p.rest then k p else none
  run (group n r) p k = run r p (λ q. k (capture n p q))
  run (many r) p k = run_many (run r) (length p.rest) p k
  run (seq r s) p k = run r p (λ q. run s q k)
  run (alt r s) p k = elim (run r p k) [ some q ↦ some q | none ↦ run s p k ]

  -- A match that begins here.
  unfoldable pub match_here : Regex → Option Char → List Char → Option Pos
  unfolding run
  match_here r before s = run r (record { before = before; rest = s; captured = [] }) some

  -- The leftmost match, with the whole match as group 0.
  pub search_from : Regex → Option Char → List Char → Option Pos
  unfolding run
  search_from r before [] =
      run (group 0 r) (record { before = before; rest = []; captured = [] }) some
  search_from r before (c ∷ s) =
      elim (run (group 0 r) (record { before = before; rest = c ∷ s; captured = [] }) some) [
        | some q ↦ some q
        | none ↦ search_from r (some c) s
      ]

  -- `text.match(re)`, and one call of `re.exec`.
  unfoldable pub exec : Regex → String → Option Pos
  unfolding search_from chars
  exec r s = search_from r none (chars s)

  -- `re.test(text)`
  unfoldable pub test : Regex → String → Bool
  unfolding exec
  test r s = is_some (exec r s)

  -- `text.matchAll(re)` for an expression that never matches the empty text: each match consumes
  -- a character, so the length of the text is fuel enough.
  matches_from : ℕ → Regex → Option Char → List Char → List Pos
  unfolding search_from
  matches_from zero r before s = []
  matches_from (suc fuel) r before s = elim (search_from r before s) [
    | none ↦ []
    | some q ↦ q ∷ matches_from fuel r q.before q.rest
  ]

  unfoldable pub match_all : Regex → String → List Pos
  unfolding matches_from chars
  match_all r s = matches_from (length (chars s)) r none (chars s)

-- Group `n` of a match.
group_in : ℕ → List (ℕ × String) → Option String
group_in n [] = none
group_in n ((m, s) ∷ rest) = if nat_eq m n then some s else group_in n rest

unfoldable pub group_of : ℕ → Pos → Option String
unfolding group_in
group_of n p = group_in n p.captured

-- Notation of patterns.
abbrev pub plus : Regex → Regex
plus r = seq r (many r)

abbrev pub opt : Regex → Regex
opt r = alt r empty

abbrev pub any_of : List Regex → Regex
any_of [] = one (λ c. false)
any_of (r ∷ []) = r
any_of (r ∷ s ∷ rs) = alt r (any_of (s ∷ rs))

abbrev pub all_of : List Regex → Regex
all_of [] = empty
all_of (r ∷ []) = r
all_of (r ∷ s ∷ rs) = seq r (all_of (s ∷ rs))

-- `a|b|c` of literal texts.
abbrev pub words : List String → Regex
words [] = one (λ c. false)
words (w ∷ []) = word w
words (w ∷ v ∷ ws) = alt (word w) (words (v ∷ ws))

-- `\br\b`
abbrev pub whole : Regex → Regex
whole r = all_of (edge ∷ r ∷ edge ∷ [])

-- `\bword`
abbrev pub starting : String → Regex
starting w = seq edge (word w)

-- `words?`
abbrev pub plural : String → Regex
plural w = seq (word w) (opt (word "s"))

abbrev pub spaces : Regex
spaces = many (one is_space)

abbrev pub digits : Regex
digits = plus (one is_digit)

-- `\d+(?:\.\d+)?`
abbrev pub number : Regex
number = seq digits (opt (seq (word ".") digits))

abbrev pub digit_char : Regex
digit_char = one is_digit

-- `\s+`
abbrev pub gap : Regex
gap = plus (one is_space)

-- `.`
abbrev pub any_char : Regex
any_char = one (λ c. not (nat_eq c 10 || nat_eq c 13))

-- `text.match(re)?.[n]`
unfoldable pub match_group : Regex → ℕ → String → Option String
unfolding exec group_of
match_group r n s = elim (exec true r s) [ none ↦ none | some p ↦ group_of n p ]

test_runs : test true (all_of (edge ∷ word "linux" ∷ edge ∷ [])) "GNU/Linux, please" ≡ true
unfolding test
test_runs = refl

edge_runs : test true (all_of (edge ∷ word "linux" ∷ edge ∷ [])) "linuxes" ≡ false
unfolding test
edge_runs = refl

match_all_runs :
    map
      (group_of 0)
      (match_all true (all_of (digits ∷ opt (word ".") ∷ word "%" ∷ [])) "5% and 12.%")
    ≡ some "5%" ∷ some "12.%" ∷ []
unfolding match_all group_of is_space
match_all_runs = refl
