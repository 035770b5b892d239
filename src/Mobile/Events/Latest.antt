-- ===== src/Mobile/Events/Latest.antt =====
-- Merged events are ascending, and each is the latest that was received under its number.
use deep_research_app.Mobile.Events.{
  set_event, set_events, insert_event, sort_events, merge_events, Event,
}
use deep_research_app.Base.{
  refl, ◌≡◌, ℕ, List, Bool, Option, ◌∷◌, find, ◌<◌, nat_eq, none, All, or_try, arith, ◌∙◌,
  if◌then◌else◌, [], some, if-case, sym, leb, nat_eq_iff,
}

abbrev pub has_sequence : ℕ → Event → Bool
has_sequence n e = nat_eq e.sequence n

-- The last event of a list with a sequence number.
unfoldable pub latest : ℕ → List Event → Option Event
latest n [] = none
latest n (e ∷ es) = or_try (latest n es) (if has_sequence n e then some e else none)

pub IsAscending : List Event → Type 0
IsAscending [] = Unit
IsAscending (e ∷ es) = All (λ d. e.sequence < d.sequence) es × IsAscending es

find-set :
    (n : ℕ) (e : Event) (m : List Event)
    → find (has_sequence n) (set_event e m)
      ≡ (if has_sequence n e then some e else find (has_sequence n) m)
unfolding set_event
find-set n e [] = refl
find-set n e (d ∷ m) = ground (arith, find-set n e m)

find-set_events :
    (n : ℕ) (es m : List Event)
    → find (has_sequence n) (set_events es m) ≡ or_try (latest n es) (find (has_sequence n) m)
unfolding set_events latest
find-set_events n [] m = refl
find-set_events n (e ∷ es) m = ground (arith, find-set_events n es (set_event e m), find-set n e m)

find-insert :
    (n : ℕ) (e : Event) (s : List Event)
    → find (has_sequence n) (insert_event e s)
      ≡ (if has_sequence n e then some e else find (has_sequence n) s)
unfolding insert_event
find-insert n e [] = refl
find-insert n e (d ∷ s) = ground (arith, find-insert n e s)

find-sort :
    (n : ℕ) (s : List Event) → find (has_sequence n) (sort_events s) ≡ find (has_sequence n) s
unfolding sort_events
find-sort n [] = refl
find-sort n (e ∷ s) = ground (arith, find-insert n e (sort_events s), find-sort n s)

AreDistinct : List Event → Type 0
AreDistinct [] = Unit
AreDistinct (e ∷ es) = (find (has_sequence e.sequence) es ≡ none) × AreDistinct es

set-AreDistinct : (e : Event) (m : List Event) → AreDistinct m → AreDistinct (set_event e m)
unfolding set_event AreDistinct
set-AreDistinct e [] h = (refl, tt)
set-AreDistinct e (d ∷ m) h =
    if-case AreDistinct (nat_eq d.sequence e.sequence) (e ∷ m) (d ∷ set_event e m)
      (λ c. (rw (sym ((nat_eq_iff d.sequence e.sequence).0 c)) h.0, h.1))
      (λ c. (ground (arith, find-set d.sequence e m, c, h.0), set-AreDistinct e m h.1))

set_events-AreDistinct : (es m : List Event) → AreDistinct m → AreDistinct (set_events es m)
unfolding set_events
set_events-AreDistinct [] m h = h
set_events-AreDistinct (e ∷ es) m h =
    set_events-AreDistinct es (set_event e m) (set-AreDistinct e m h)

insert-All :
    (n : ℕ) (e : Event) (s : List Event)
    → n < e.sequence
    → All (λ d. n < d.sequence) s
    → All (λ d. n < d.sequence) (insert_event e s)
unfolding insert_event
insert-All n e [] h hs = (h, tt)
insert-All n e (d ∷ s) h hs =
    if-case (All (λ d. n < d.sequence)) (leb e.sequence d.sequence) (e ∷ d ∷ s)
      (d ∷ insert_event e s) (λ c. (h, hs)) (λ c. (hs.0, insert-All n e s h hs.1))

All-below :
    (m n : ℕ) (s : List Event) → m < n → All (λ d. n < d.sequence) s → All (λ d. m < d.sequence) s
All-below m n [] h hs = tt
All-below m n (d ∷ s) h hs = (omega (arith, hs.0), All-below m n s h hs.1)

insert-IsAscending :
    (e : Event) (s : List Event)
    → find (has_sequence e.sequence) s ≡ none
    → IsAscending s
    → IsAscending (insert_event e s)
unfolding insert_event IsAscending
insert-IsAscending e [] f h = (tt, tt)
insert-IsAscending e (d ∷ s) f h =
    if-case IsAscending (leb e.sequence d.sequence) (e ∷ d ∷ s) (d ∷ insert_event e s)
      (λ c.
        let below : e.sequence < d.sequence = ground (arith, c, f) in
        ((below, All-below e.sequence d.sequence s below h.0), h))
      (λ c. (
        insert-All d.sequence e s (ground (arith, c)) h.0,
        insert-IsAscending e s (ground (arith, c, f)) h.1,
      ))

sort-IsAscending : (s : List Event) → AreDistinct s → IsAscending (sort_events s)
unfolding sort_events AreDistinct IsAscending
sort-IsAscending [] h = tt
sort-IsAscending (e ∷ s) (f, h) =
    insert-IsAscending e (sort_events s) (find-sort e.sequence s ∙ f) (sort-IsAscending s h)

or_try-none {ℓ} : {A : Type ℓ} (o : Option A) → or_try o none ≡ o
or_try-none none = refl
or_try-none (some a) = refl

find-merge :
    (n : ℕ) (existing incoming : List Event)
    → find (has_sequence n) (merge_events existing incoming)
      ≡ or_try (latest n incoming) (latest n existing)
unfolding merge_events
find-merge n existing incoming =
    find-sort n _
    ∙ find-set_events n incoming (set_events existing [])
    ∙ rw (find-set_events n existing [], or_try-none (latest n existing)) refl

-- Merging gives the events in ascending order of their sequence numbers, and under each number the
-- latest event that came in under it, or else the latest one that was there.
pub merge_events-latest :
    (existing incoming : List Event)
    → IsAscending (merge_events existing incoming)
      × ((n : ℕ)
          → find (has_sequence n) (merge_events existing incoming)
            ≡ or_try (latest n incoming) (latest n existing))
unfolding merge_events AreDistinct
merge_events-latest existing incoming = (
  sort-IsAscending _ (set_events-AreDistinct incoming _ (set_events-AreDistinct existing [] tt)),
  λ n. find-merge n existing incoming,
)
