-- ===== src/Mobile/Events.antt =====
-- `mergeEvents` of state.ts: the events of a run, by their sequence numbers.
pub mod Latest
use deep_research_app.Base.{refl, ◌≡◌, ℕ, List, String, ◌∷◌, [], if◌then◌else◌, nat_eq, leb}

pub record Event : Type 0 where
  pub sequence : ℕ
  pub type : String
  pub public_summary : String

-- `bySeq.set(e.sequence, e)`: a key that is there keeps its place in the order of the map.
unfoldable pub set_event : Event → List Event → List Event
set_event e [] = e ∷ []
set_event e (d ∷ m) =
    let rest = set_event e m in if nat_eq d.sequence e.sequence then e ∷ m else d ∷ rest

unfoldable pub set_events : List Event → List Event → List Event
unfolding set_event
set_events [] m = m
set_events (e ∷ es) m = set_events es (set_event e m)

-- The sort by sequence is stable.
unfoldable pub insert_event : Event → List Event → List Event
insert_event e [] = e ∷ []
insert_event e (d ∷ s) =
    let rest = insert_event e s in if leb e.sequence d.sequence then e ∷ d ∷ s else d ∷ rest

unfoldable pub sort_events : List Event → List Event
unfolding insert_event
sort_events [] = []
sort_events (e ∷ es) = insert_event e (sort_events es)

unfoldable pub merge_events : List Event → List Event → List Event
unfolding set_events sort_events
merge_events existing incoming = sort_events (set_events incoming (set_events existing []))
