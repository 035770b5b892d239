-- ===== src/QuestionPatch/Pairs.antt =====
-- Texts of whole pairs: joining them, and cutting them between two units that are no pair.
use deep_research_app.QuestionPatch.{high, low, well_formed_from, unit_at, splits_pair, holds}
use mathlib.Core.List.{append_assoc}
use deep_research_app.Base.{
  refl, ◌≡◌, Bool, List, ℕ, ◌∷◌, false, true, ◌++◌, arith, length, [], ◌&&◌, Bool-cases, inl, inr,
  ◌<◌, suc, sym, ◌∙◌, ◌-◌, ap, length-append,
}

-- Whether a text ends with the first unit of a pair; the flag is the answer for the empty text.
unfoldable pub pending : Bool → List ℕ → Bool
unfolding high
pending f [] = f
pending f (u ∷ us) = pending (high u) us

unfoldable pub starts_low : List ℕ → Bool
unfolding low
starts_low [] = false
starts_low (u ∷ us) = low u

pub join-formed :
    (f : Bool) (a b : List ℕ)
    → well_formed_from f a ≡ true
    → well_formed_from false b ≡ true
    → well_formed_from f (a ++ b) ≡ true
unfolding well_formed_from
join-formed true [] b h k = absurd (ground (arith, h))
join-formed false [] b h k = k
join-formed true (u ∷ us) b h k = ground (arith, h, k, join-formed false us b)
join-formed false (u ∷ us) b h k =
    ground (arith, h, k, join-formed false us b, join-formed true us b)

high-low : (u : ℕ) → low u ≡ true → high u ≡ false
unfolding high low
high-low u h = ground (arith, h)

pub cut-formed :
    (f : Bool) (a b : List ℕ)
    → well_formed_from f (a ++ b) ≡ true
    → (pending f a && starts_low b) ≡ false
    → (well_formed_from f a ≡ true) × (well_formed_from false b ≡ true)
unfolding well_formed_from pending starts_low
cut-formed true [] [] h k = absurd (ground (arith, h))
cut-formed true [] (u ∷ us) h k = absurd (ground (arith, h, k))
cut-formed false [] b h k = (refl, h)
cut-formed true (u ∷ us) b h k =
    let l : low u ≡ true = ground (arith, h) in
    let r = cut-formed false us b (ground (arith, h)) (rw (high-low u l) at k) in
    (ground (arith, l, r.0), r.1)
cut-formed false (u ∷ us) b h k = elim (Bool-cases (high u)) [
  | inl e ↦
      let r = cut-formed true us b (ground (arith, h, e)) (rw e at k) in
      (ground (arith, e, r.0), r.1)
  | inr e ↦
      let r = cut-formed false us b (ground (arith, h, e)) (rw e at k) in
      (ground (arith, e, r.0, h), r.1)
]

formed-starts : (b : List ℕ) → well_formed_from false b ≡ true → starts_low b ≡ false
unfolding well_formed_from starts_low high low
formed-starts [] h = refl
formed-starts (u ∷ us) h = ground (arith, h)

unit_at-append : (a b : List ℕ) → holds low (unit_at (a ++ b) (length a)) ≡ starts_low b
unfolding unit_at starts_low
unit_at-append [] [] = refl
unit_at-append [] (u ∷ us) = refl
unit_at-append (u ∷ us) b = unit_at-append us b

unit_at-last :
    (u : ℕ) (us b : List ℕ) → holds high (unit_at (u ∷ us ++ b) (length us)) ≡ pending (high u) us
unfolding unit_at pending
unit_at-last u [] b = refl
unit_at-last u (v ∷ vs) b = unit_at-last v vs b

starts-length : (b : List ℕ) → starts_low b ≡ true → 0 < length b
unfolding starts_low
starts-length [] h = absurd (ground (arith, h))
starts-length (u ∷ us) h = omega arith

pub splits-append :
    (a b : List ℕ) → splits_pair (a ++ b) (length a) ≡ (pending false a && starts_low b)
unfolding splits_pair pending
splits-append [] b = refl
splits-append (u ∷ us) b =
    let before : holds high (unit_at (u ∷ us ++ b) (suc (length us) - 1)) ≡ pending (high u) us =
      ap (λ n. holds high (unit_at (u ∷ us ++ b) n)) (omega arith) ∙ unit_at-last u us b in
    let after = unit_at-append (u ∷ us) b in
    elim (Bool-cases (starts_low b)) [
      | inl e ↦ rw (before, after, e) (ground (arith, length-append us b, starts-length b e))
      | inr e ↦ rw (before, after, e) (ground arith)
    ]

-- Two texts of whole pairs, joined, are not joined inside a pair.
pub joint-whole :
    (a b : List ℕ) → well_formed_from false b ≡ true → splits_pair (a ++ b) (length a) ≡ false
joint-whole a b h = rw (splits-append a b, formed-starts b h) (ground arith)

pending-append :
    (f : Bool) (a : List ℕ) (u : ℕ) (us : List ℕ) → pending f (a ++ (u ∷ us)) ≡ pending (high u) us
unfolding pending
pending-append f [] u us = refl
pending-append f (v ∷ vs) u us = pending-append (high v) vs u us

-- Cutting a text of whole pairs at two places between pairs gives three such texts.
pub cut-twice :
    (a b c : List ℕ)
    → well_formed_from false (a ++ (b ++ c)) ≡ true
    → splits_pair (a ++ (b ++ c)) (length a) ≡ false
    → splits_pair (a ++ (b ++ c)) (length (a ++ b)) ≡ false
    → (well_formed_from false a ≡ true)
      × (well_formed_from false b ≡ true)
      × (well_formed_from false c ≡ true)
unfolding pending
cut-twice a b c h s e =
    let (ha, hbc) = cut-formed false a (b ++ c) h (sym (splits-append a (b ++ c)) ∙ s) in
    let cut : (pending false (a ++ b) && starts_low c) ≡ false =
      sym (splits-append (a ++ b) c)
      ∙ ap (λ t. splits_pair t (length (a ++ b))) (append_assoc a b c)
      ∙ e in
    let (hb, hc) = inner b cut hbc in (ha, hb, hc)
  where
    inner :
        (b : List ℕ)
        → (pending false (a ++ b) && starts_low c) ≡ false
        → well_formed_from false (b ++ c) ≡ true
        → (well_formed_from false b ≡ true) × (well_formed_from false c ≡ true)
    inner [] k hc = cut-formed false [] c hc refl
    inner (u ∷ us) k hbc = cut-formed false (u ∷ us) c hbc (rw (pending-append false a u us) at k)
