-- ===== src/Text.antt =====
-- The string methods that the source calls (toLowerCase, includes, trim, slice, template literals,
-- number printing), over texts of ASCII characters.
pub mod Laws
use Prim.Native.Char.{Char, code}
use Prim.Native.String
use Prim.Native.String.{char_at}
use deep_research_app.Base.{
  ℕ, zero, suc, ◌+◌, ◌-◌, ◌/◌, ◌%◌, String, ◌≡◌, refl, Bool, true, false, ◌&&◌, ◌||◌, List, [], ◌∷◌,
  ◌++◌, map, leb, nat_eq, if◌then◌else◌, take,
}

unfoldable pub chars : String → List Char
chars String.[] = []
chars (String.◌∷◌ c s) = c ∷ chars s

unfoldable pub of_chars : List Char → String
of_chars [] = ""
of_chars (c ∷ s) = String.◌∷◌ c (of_chars s)

unfoldable pub lower_char : Char → Char
lower_char c =
    if leb b'A' (code c) && leb (code c) b'Z'
    then char_at "abcdefghijklmnopqrstuvwxyz" (code c - b'A')
    else c

unfoldable pub upper_char : Char → Char
upper_char c =
    if leb b'a' (code c) && leb (code c) b'z'
    then char_at "ABCDEFGHIJKLMNOPQRSTUVWXYZ" (code c - b'a')
    else c

-- `text.toLowerCase()`
unfoldable pub lower : String → String
unfolding lower_char chars of_chars
lower s = of_chars (map lower_char (chars s))

-- `text.toUpperCase()`
unfoldable pub upper : String → String
unfolding upper_char chars of_chars
upper s = of_chars (map upper_char (chars s))

unfoldable pub prefix : List Char → List Char → Bool
prefix [] t = true
prefix (c ∷ s) [] = false
prefix (c ∷ s) (d ∷ t) = nat_eq (code c) (code d) && prefix s t

unfoldable pub occurs : List Char → List Char → Bool
unfolding prefix
occurs s [] = prefix s []
occurs s (d ∷ t) = prefix s (d ∷ t) || occurs s t

-- `text.includes(part)`
unfoldable pub includes : String → String → Bool
unfolding occurs chars
includes text part = occurs (chars part) (chars text)

-- `text.slice(0, n)`
unfoldable pub cut : ℕ → String → String
unfolding chars of_chars
cut n s = of_chars (take n (chars s))

unfoldable pub is_space : ℕ → Bool
is_space c = nat_eq c 32 || (leb 9 c && leb c 13)

skip_space : List Char → List Char
unfolding is_space
skip_space [] = []
skip_space (c ∷ s) = if is_space (code c) then skip_space s else c ∷ s

drop_end_space : List Char → List Char
unfolding is_space
drop_end_space [] = []
drop_end_space (c ∷ s) = keep c (drop_end_space s)
  where
    keep : Char → List Char → List Char
    keep d [] = if is_space (code d) then [] else d ∷ []
    keep d (e ∷ t) = d ∷ e ∷ t

-- `text.trim()`
unfoldable pub trim : String → String
unfolding skip_space drop_end_space chars of_chars
trim s = of_chars (drop_end_space (skip_space (chars s)))

-- A template literal, by its pieces.
unfoldable pub template : List String → String
template [] = ""
template (s ∷ ss) = String.◌++◌ s (template ss)

-- `parts.join(separator)`
unfoldable pub join : String → List String → String
join separator [] = ""
join separator (s ∷ []) = s
join separator (s ∷ t ∷ ss) = String.◌++◌ s (String.◌++◌ separator (join separator (t ∷ ss)))

digit : ℕ → String
digit n = String.◌∷◌ (char_at "0123456789" n) ""

digits_from : ℕ → ℕ → String → String
unfolding digit
digits_from zero n rest = rest
digits_from (suc fuel) n rest =
    let more = digits_from fuel (n / 10) (String.◌++◌ (digit (n % 10)) rest) in
    if leb n 9 then String.◌++◌ (digit n) rest else more

-- A number in a template literal. The fuel is above the number, hence above its digits.
unfoldable pub decimal : ℕ → String
unfolding digits_from
decimal n = digits_from (suc n) n ""

lower_runs : lower "As OF Now-9" ≡ "as of now-9"
unfolding lower
lower_runs = refl

includes_runs : (includes "official pricing" "price") ≡ false
unfolding includes
includes_runs = refl

trim_runs : trim "  a b  " ≡ "a b"
unfolding trim
trim_runs = refl

decimal_runs : template ("act-" ∷ decimal 1203 ∷ []) ≡ "act-1203"
unfolding template decimal
decimal_runs = refl
