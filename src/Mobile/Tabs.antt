-- ===== src/Mobile/Tabs.antt =====
-- The functions of state.ts on tabs, blocks and the reading anchor.
pub mod Leaving
use deep_research_app.Calculation.Integers.{pos}
use deep_research_app.Mobile.{Tab, UiState, ReportBlock, ReadingAnchor, research, settings}
use deep_research_app.Base.{
  Bool, List, Option, true, none, if◌then◌else◌, false, is_some, String, ◌++◌, some, not, find,
  select, ◌∷◌, some_of, ◌||◌, ◌==◌, [],
}

abbrev pub is_research : Tab → Bool
is_research research = true
is_research _ = false

unfoldable pub close_source_sheet : UiState → UiState
close_source_sheet state = record state { source = none }

pub record Back : Type 0 where
  pub consumed : Bool
  pub next : UiState

unfoldable pub android_back : UiState → Back
unfolding close_source_sheet
android_back state =
    if is_some state.source
    then record { consumed = true; next = close_source_sheet state }
    else if not (is_research state.tab)
    then record { consumed = true; next = record state { tab = research } }
    else record { consumed = false; next = state }

-- What `handleAndroidBack` calls, and what it returns.
pub data BackCall : Type 0 where
  closes_source : BackCall
  updates : (UiState → UiState) → BackCall
  calls_nothing : BackCall

unfoldable pub handle_android_back : UiState → BackCall × Bool
unfolding android_back
handle_android_back state =
    if is_some state.source
    then (closes_source, true)
    else if not (is_research state.tab)
    then (updates (λ previous. (android_back previous).next), true)
    else (calls_nothing, false)

unfoldable pub block_of : List ReportBlock → String → List ReportBlock
block_of blocks id = elim (find (λ b. b.id == id) blocks) [ none ↦ [] | some b ↦ b ∷ [] ]

unfoldable pub concise_blocks : List ReportBlock → List ReportBlock
unfolding block_of
concise_blocks blocks =
    block_of blocks "answer"
    ++ block_of blocks "constraints"
    ++ block_of blocks "eligibility"
    ++ select (λ b. b.kind == "caveat") blocks

pub record Restored : Type 0 where
  pub anchor : Option ReadingAnchor
  pub note : Option String

unfoldable pub first_block : List ReportBlock → String → String
first_block [] otherwise = otherwise
first_block (b ∷ bs) otherwise = b.id

unfoldable pub restore_anchor : Option ReadingAnchor → List ReportBlock → Restored
unfolding first_block
restore_anchor none blocks = record { anchor = none; note = none }
restore_anchor (some saved) blocks =
    if some_of (λ b. b.id == saved.block_id) blocks
    then record { anchor = some saved; note = none }
    else record {
      anchor = some (record saved { block_id = first_block blocks saved.block_id; offset = pos 0 });
      note = some "That section changed in the new version.";
    }

unfoldable pub submit_prerequisite : UiState → Tab
submit_prerequisite state =
    if not state.signed_in || not state.consent_granted then settings else research
