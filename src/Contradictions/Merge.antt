-- ===== src/Contradictions/Merge.antt =====
-- The merge of contradictions by id.
use deep_research_app.Types.{Contradiction, ControllerState, Passage}
use deep_research_app.Contradictions.{
  put_all, put, detect_contradictions, ControllerState, found_in, pair_contradictions, with_each,
  Passage,
}
use mathlib.Core.Path.{ap₂, ◌≡⟨◌⟩◌, ◌∎}
use mathlib.Core.List.{append-nil, append_assoc}
use deep_research_app.Base.{
  [], refl, ◌∷◌, some, inl, inr, List, String, All, Bool-cases, find, Bool, arith, ◌≡◌, ◌++◌, ◌==◌,
  ◌≢◌, eq_iff, some_of, eq_refl, false, true, ◌∙◌, ne_iff, ap, sym, or_else, All-append, Option,
}

put_all-append :
    (xs ys out : List Contradiction) → put_all (xs ++ ys) out ≡ put_all ys (put_all xs out)
unfolding put_all
put_all-append [] ys out = refl
put_all-append (x ∷ xs) ys out = put_all-append xs ys (put x out)

-- No two have the same id.
abbrev pub AreDistinct : List Contradiction → Type 0
AreDistinct [] = Unit
AreDistinct (c ∷ cs) = All (λ d. d.id ≢ c.id) cs × AreDistinct cs

All-put :
    (P : Contradiction → Type 0) (c : Contradiction) (cs : List Contradiction)
    → P c
    → All P cs
    → All P (put c cs)
unfolding put
All-put P c [] p h = (p, tt)
All-put P c (d ∷ cs) p h = ground (arith, All-put P c cs p h.1)

put-AreDistinct :
    (c : Contradiction) (cs : List Contradiction) → AreDistinct cs → AreDistinct (put c cs)
unfolding put
put-AreDistinct c [] h = (tt, tt)
put-AreDistinct c (d ∷ cs) h = elim (Bool-cases (d.id == c.id)) [
  | inl same ↦ rw same (rw ((eq_iff d.id c.id).0 same) at h.0, h.1)
  | inr other ↦ rw other (
    All-put (λ x. x.id ≢ d.id) c cs (λ e. (ne_iff d.id c.id).0 other (sym e)) h.0,
    put-AreDistinct c cs h.1,
  )
]

put_all-AreDistinct : (cs out : List Contradiction) → AreDistinct out → AreDistinct (put_all cs out)
unfolding put_all
put_all-AreDistinct [] out h = h
put_all-AreDistinct (c ∷ cs) out h = put_all-AreDistinct cs (put c out) (put-AreDistinct c out h)

-- The detected contradictions have pairwise distinct ids, whatever was recorded.
pub detect_contradictions-AreDistinct :
    (state : ControllerState) → AreDistinct (detect_contradictions state)
unfolding detect_contradictions
detect_contradictions-AreDistinct state =
    put_all-AreDistinct (or_else state.contradictions [] ++ found_in state state.passages) [] tt

-- The first with the id of `c` is `c`.
abbrev Holds : Contradiction → List Contradiction → Type 0
Holds c cs = find (λ d. d.id == c.id) cs ≡ some c

abbrev has_id : String → List Contradiction → Bool
has_id id cs = some_of (λ d. d.id == id) cs

put-Holds : (c : Contradiction) (cs : List Contradiction) → Holds c (put c cs)
unfolding put
put-Holds c [] = ground (arith, eq_refl c.id)
put-Holds c (d ∷ cs) = ground (arith, eq_refl c.id, put-Holds c cs)

put-Holds_other :
    (c d : Contradiction) (cs : List Contradiction)
    → (d.id == c.id) ≡ false
    → Holds c cs
    → Holds c (put d cs)
unfolding put
put-Holds_other c d [] n h = ground arith
put-Holds_other c d (e ∷ cs) n h =
    ground (arith, eq_iff e.id d.id, eq_iff e.id c.id, eq_iff d.id c.id, put-Holds_other c d cs n)

put_all-Holds :
    (c : Contradiction) (ds cs : List Contradiction)
    → has_id c.id ds ≡ false
    → Holds c cs
    → Holds c (put_all ds cs)
unfolding put_all
put_all-Holds c [] cs n h = h
put_all-Holds c (d ∷ ds) cs n h =
    put_all-Holds c ds (put d cs) (ground arith) (put-Holds_other c d cs (ground arith) h)

put-of_Holds : (c : Contradiction) (cs : List Contradiction) → Holds c cs → put c cs ≡ cs
unfolding put
put-of_Holds c [] h = ground arith
put-of_Holds c (d ∷ cs) h = ground (arith, put-of_Holds c cs)

put-put :
    (c d : Contradiction) (cs : List Contradiction)
    → (d.id == c.id) ≡ true
    → put d (put c cs) ≡ put d cs
unfolding put
put-put c d [] e = ground (arith, eq_iff c.id d.id, eq_iff d.id c.id)
put-put c d (x ∷ cs) e = ground (
  arith,
  eq_iff x.id c.id,
  eq_iff x.id d.id,
  eq_iff d.id c.id,
  eq_iff c.id d.id,
  put-put c d cs e,
)

put_comm :
    (c d : Contradiction) (cs : List Contradiction)
    → (d.id == c.id) ≡ false
    → has_id c.id cs ≡ true
    → put d (put c cs) ≡ put c (put d cs)
unfolding put
put_comm c d [] n h = ground arith
put_comm c d (x ∷ cs) n h = ground (
  arith,
  eq_iff x.id c.id,
  eq_iff x.id d.id,
  eq_iff d.id c.id,
  eq_iff c.id d.id,
  put_comm c d cs n,
)

has_id-put :
    (id : String) (d : Contradiction) (cs : List Contradiction)
    → has_id id cs ≡ true
    → has_id id (put d cs) ≡ true
unfolding put
has_id-put id d [] h = ground arith
has_id-put id d (x ∷ cs) h =
    ground (arith, eq_iff x.id id, eq_iff x.id d.id, eq_iff d.id id, has_id-put id d cs)

put_all-put :
    (c : Contradiction) (ds cs : List Contradiction)
    → has_id c.id ds ≡ true
    → has_id c.id cs ≡ true
    → put_all ds (put c cs) ≡ put_all ds cs
unfolding put_all
put_all-put c [] cs h k = ground arith
put_all-put c (d ∷ ds) cs h k = elim (Bool-cases (d.id == c.id)) [
  | inl same ↦ ap (put_all ds) (put-put c d cs same)
  | inr other ↦
      ap (put_all ds) (put_comm c d cs other k)
      ∙ put_all-put c ds (put d cs) (ground arith) (has_id-put c.id d cs k)
]

has_id-of_Holds : (c : Contradiction) (cs : List Contradiction) → Holds c cs → has_id c.id cs ≡ true
has_id-of_Holds c [] h = ground arith
has_id-of_Holds c (d ∷ cs) h = ground (arith, has_id-of_Holds c cs)

has_id-put_all :
    (id : String) (ds cs : List Contradiction)
    → has_id id cs ≡ true
    → has_id id (put_all ds cs) ≡ true
unfolding put_all
has_id-put_all id [] cs h = h
has_id-put_all id (d ∷ ds) cs h = has_id-put_all id ds (put d cs) (has_id-put id d cs h)

-- Merging the same contradictions a second time changes nothing.
put_all_idempotent : (cs out : List Contradiction) → put_all cs (put_all cs out) ≡ put_all cs out
unfolding put_all
put_all_idempotent [] out = refl
put_all_idempotent (c ∷ cs) out =
    let held = put-Holds c out in
    elim (Bool-cases (has_id c.id cs)) [
      | inl later ↦
          put_all-put c cs (put_all cs (put c out)) later
            (has_id-put_all c.id cs (put c out) (has_id-of_Holds c (put c out) held))
          ∙ put_all_idempotent cs (put c out)
      | inr last ↦
          ap (put_all cs)
            (put-of_Holds c (put_all cs (put c out)) (put_all-Holds c cs (put c out) last held))
          ∙ put_all_idempotent cs (put c out)
    ]

put-snoc :
    (c : Contradiction) (out : List Contradiction)
    → All (λ d. d.id ≢ c.id) out
    → put c out ≡ out ++ c ∷ []
unfolding put
put-snoc c [] h = refl
put-snoc c (d ∷ out) h =
    ground (arith, ne_iff d.id c.id, (ne_iff d.id c.id).1 h.0, put-snoc c out h.1)

-- What has distinct ids is its own merge.
put_all-of_AreDistinct :
    (cs out : List Contradiction)
    → AreDistinct cs
    → All (λ c. All (λ d. d.id ≢ c.id) out) cs
    → put_all cs out ≡ out ++ cs
unfolding put_all
put_all-of_AreDistinct [] out h k = sym (append-nil out)
put_all-of_AreDistinct (c ∷ cs) out h k = rw (put-snoc c out k.0) (
    put_all-of_AreDistinct cs (out ++ c ∷ []) h.1 (later cs h.0 k.1) ∙ append_assoc out (c ∷ []) cs)
  where
    later :
        (ds : List Contradiction)
        → All (λ d. d.id ≢ c.id) ds
        → All (λ e. All (λ d. d.id ≢ e.id) out) ds
        → All (λ e. All (λ d. d.id ≢ e.id) (out ++ c ∷ [])) ds
    later [] a b = tt
    later (d ∷ ds) a b = (All-append _ out (c ∷ []) b.0 ((λ e. a.0 (sym e)), tt), later ds a.1 b.1)

-- The pairs of passages do not look at the recorded contradictions.
module _ (state : ControllerState) (cs : Option (List Contradiction)) where
  pair-recorded :
      (a b : Passage)
      → pair_contradictions (record state { contradictions = cs }) a b
        ≡ pair_contradictions state a b
  unfolding pair_contradictions
  pair-recorded a b = refl

  with_each-recorded :
      (a : Passage) (bs : List Passage)
      → with_each (record state { contradictions = cs }) a bs ≡ with_each state a bs
  unfolding with_each
  with_each-recorded a [] = refl
  with_each-recorded a (b ∷ bs) = ap₂ ◌++◌ (pair-recorded a b) (with_each-recorded a bs)

  found_in-recorded :
      (ps : List Passage) → found_in (record state { contradictions = cs }) ps ≡ found_in state ps
  unfolding found_in
  found_in-recorded [] = refl
  found_in-recorded (a ∷ rest) = ap₂ ◌++◌ (with_each-recorded a rest) (found_in-recorded rest)

-- Detecting again with the contradictions already recorded gives the same contradictions, in the
-- same order.
pub detect_contradictions_idempotent :
    (state : ControllerState)
    → detect_contradictions (record state { contradictions = some (detect_contradictions state) })
      ≡ detect_contradictions state
unfolding detect_contradictions
detect_contradictions_idempotent state =
    let old = or_else state.contradictions [] in
    let found = found_in state state.passages in
    let merged = put_all (old ++ found) [] in
    put_all (merged ++ found_in (record state { contradictions = some merged }) state.passages) []
    ≡⟨ ap (λ l. put_all (merged ++ l) []) (found_in-recorded state (some merged) state.passages) ⟩
      put_all (merged ++ found) []
    ≡⟨ put_all-append merged found [] ⟩ put_all found (put_all merged [])
    ≡⟨ ap (put_all found) (
        put_all-of_AreDistinct merged [] (put_all-AreDistinct (old ++ found) [] tt)
          (nothing_before merged)) ⟩
      put_all found merged
    ≡⟨ ap (put_all found) (put_all-append old found []) ⟩
      put_all found (put_all found (put_all old []))
    ≡⟨ put_all_idempotent found (put_all old []) ⟩ put_all found (put_all old [])
    ≡⟨ sym (put_all-append old found []) ⟩ merged ∎
  where
    nothing_before : (cs : List Contradiction) → All (λ c. Unit {0}) cs
    nothing_before [] = tt
    nothing_before (c ∷ cs) = (tt, nothing_before cs)
