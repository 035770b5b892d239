-- ===== src/Types/Values.antt =====
-- The `Record<string, unknown>` of an action's arguments: JSON values under string keys. Numbers
-- are natural numbers, which is all that the controller puts there.
use deep_research_app.Base.{
  ℕ, String, Bool, true, false, Option, none, some, List, [], ◌∷◌, ◌==◌, if◌then◌else◌, is_some,
}
use deep_research_app.Text.{decimal, join}

mutual
  pub data Value : Type 0 where
    null : Value
    flag : Bool → Value
    num : ℕ → Value
    str : String → Value
    arr : Values → Value
    obj : Members → Value

  pub data Values : Type 0 where
    nil : Values
    cons : Value → Values → Values

  pub data Members : Type 0 where
    end : Members
    member : String → Value → Members → Members

abbrev pub Arguments : Type 0
Arguments = List (String × Value)

-- `arguments[key]`
unfoldable pub lookup : String → Arguments → Option Value
lookup key [] = none
lookup key ((k, v) ∷ rest) = if k == key then some v else lookup key rest

-- `{ ...arguments, [key]: value }`
unfoldable pub assign : String → Value → Arguments → Arguments
assign key v [] = (key, v) ∷ []
assign key v ((k, w) ∷ rest) = if k == key then (k, v) ∷ rest else (k, w) ∷ assign key v rest

-- `{ ...arguments, ...extra }`
unfoldable pub spread : Arguments → Arguments → Arguments
unfolding assign
spread args [] = args
spread args ((k, v) ∷ extra) = spread (assign k v args) extra

-- `key in arguments`
abbrev pub has_key : String → Arguments → Bool
has_key key args = is_some (lookup key args)

-- The items of an array as `join` prints them: `null` is the empty text.
abbrev unless_null : Value → String → String
unless_null null s = ""
unless_null _ s = s

unfoldable mutual
  -- `String(value)`
  pub to_text : Value → String
  to_text null = "null"
  to_text (flag true) = "true"
  to_text (flag false) = "false"
  to_text (num n) = decimal n
  to_text (str s) = s
  to_text (arr vs) = join "," (item_texts vs)
  to_text (obj ms) = "[object Object]"

  pub item_texts : Values → List String
  item_texts nil = []
  item_texts (cons v vs) = unless_null v (to_text v) ∷ item_texts vs

-- `String(arguments[key] ?? "")`
abbrev text_or_empty : Option Value → String
text_or_empty none = ""
text_or_empty (some null) = ""
text_or_empty (some v) = to_text v

unfoldable pub text_argument : String → Arguments → String
unfolding lookup
text_argument key args = text_or_empty (lookup key args)

-- `arguments[key] === true`
abbrev pub is_true_value : Option Value → Bool
is_true_value (some (flag b)) = b
is_true_value _ = false
