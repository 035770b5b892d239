-- ===== src/QuestionPatch.antt =====
-- packages/research-core/src/question-patch.ts: a correction of the question's text. A text is the
-- list of its UTF-16 code units.
pub mod Pairs
pub mod Splices
pub mod Reverting
use Prim.Native.Char.{code}
use deep_research_app.Regex.{is_digit}
use deep_research_app.Text.{chars, lower}
use deep_research_app.Base.{
  String, List, ℕ, Bool, leb, false, Option, ltb, take, every, if◌then◌else◌, nat_eq, true, ◌&&◌,
  ◌∷◌, none, some, ◌-◌, ◌++◌, not, ◌||◌, length, suc, drop, some_of, ◌==◌, map, [], zero,
  is_distinct,
}

-- ResearchCorrectionPatch of packages/contracts/src/index.ts, without the evidence policy, which the
-- patch does not read.
pub record Span : Type 0 where
  pub original_question_sha256 : String
  pub start : ℕ
  pub end : ℕ
  pub quote : List ℕ
  pub replacement : List ℕ

pub data Patch : Type 0 where
  append_attachments : List String → Patch
  replace_question : List ℕ → Patch
  replace_question_span : Span → Patch

pub data PatchError : Type 0 where
  invalid_patch digest_mismatch invalid_span invalid_unicode quote_mismatch invalid_result :
      PatchError

pub data Patched : Type 0 where
  thrown : PatchError → Patched
  question : List ℕ → Patched

unfoldable pub high : ℕ → Bool
high unit = leb 55296 unit && leb unit 56319

unfoldable pub low : ℕ → Bool
low unit = leb 56320 unit && leb unit 57343

-- The flag says that the unit before was the first of a pair.
unfoldable pub well_formed_from : Bool → List ℕ → Bool
unfolding high low
well_formed_from true [] = false
well_formed_from true (u ∷ us) = low u && well_formed_from false us
well_formed_from false [] = true
well_formed_from false (u ∷ us) =
    let paired = well_formed_from true us in
    let alone = well_formed_from false us in if high u then paired else not (low u) && alone

unfoldable pub well_formed : List ℕ → Bool
unfolding well_formed_from
well_formed text = well_formed_from false text

unfoldable pub unit_at : List ℕ → ℕ → Option ℕ
unit_at [] n = none
unit_at (u ∷ us) zero = some u
unit_at (u ∷ us) (suc n) = unit_at us n

abbrev pub holds : (ℕ → Bool) → Option ℕ → Bool
holds f none = false
holds f (some u) = f u

unfoldable pub splits_pair : List ℕ → ℕ → Bool
unfolding unit_at high low
splits_pair text index =
    ltb 0 index
    && ltb index (length text)
    && holds high (unit_at text (index - 1))
    && holds low (unit_at text index)

unfoldable pub same_units : List ℕ → List ℕ → Bool
same_units [] [] = true
same_units (u ∷ us) (v ∷ vs) = nat_eq u v && same_units us vs
same_units _ _ = false

-- `text.slice(start, end)` for `start <= end`
unfoldable pub slice : ℕ → ℕ → List ℕ → List ℕ
slice start end text = take (end - start) (drop start text)

-- The units that `trim` takes away.
abbrev is_white : ℕ → Bool
is_white u =
    (leb 9 u && leb u 13)
    || (leb 8192 u && leb u 8202)
    || some_of (λ w. nat_eq w u) (32 ∷ 160 ∷ 5760 ∷ 8232 ∷ 8233 ∷ 8239 ∷ 8287 ∷ 12288 ∷ 65279 ∷ [])

-- `!question.trim()`
unfoldable pub is_blank : List ℕ → Bool
is_blank text = every is_white text

unfoldable pub spliced : List ℕ → Span → List ℕ
spliced original p = take p.start original ++ (p.replacement ++ drop p.end original)

unfoldable pub replace_span : List ℕ → String → Span → Patched
unfolding well_formed splits_pair same_units slice spliced is_blank
replace_span original sha p =
    if not (p.original_question_sha256 == sha)
    then thrown digest_mismatch
    else if ltb p.end p.start || ltb (length original) p.end
    then thrown invalid_span
    else if not (well_formed original)
        || not (well_formed p.replacement)
        || splits_pair original p.start
        || splits_pair original p.end
    then thrown invalid_unicode
    else if not (same_units (slice p.start p.end original) p.quote)
    then thrown quote_mismatch
    else if is_blank (spliced original p) || ltb 20000 (length (spliced original p))
    then thrown invalid_result
    else question (spliced original p)

abbrev is_hex : ℕ → Bool
is_hex c = is_digit c || leb b'a' c && leb c b'f'

unfoldable pub is_digest : String → Bool
unfolding chars
is_digest sha = nat_eq (length (chars sha)) 64 && every (λ c. is_hex (code c)) (chars sha)

-- What the schema of a patch checks. The ids of attachments are compared without regard to case;
-- that each is a uuid is left to the schema library.
unfoldable pub is_patch : Patch → Bool
unfolding is_distinct lower is_digest
is_patch (append_attachments ids) =
    leb 1 (length ids) && leb (length ids) 3 && is_distinct (map lower ids)
is_patch (replace_question q) = leb 1 (length q) && leb (length q) 20000
is_patch (replace_question_span p) =
    is_digest p.original_question_sha256
    && leb p.start 20000
    && leb p.end 20000
    && leb (length p.quote) 20000
    && leb (length p.replacement) 20000

unfoldable pub patched : List ℕ → String → Patch → Patched
unfolding replace_span
patched original sha (append_attachments ids) = question original
patched original sha (replace_question q) = question q
patched original sha (replace_question_span p) = replace_span original sha p

unfoldable pub apply_question_patch : List ℕ → String → Patch → Patched
unfolding is_patch patched
apply_question_patch original sha patch =
    if is_patch patch then patched original sha patch else thrown invalid_patch
