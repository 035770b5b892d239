-- ===== src/Admission/Gate.antt =====
-- The admission gate as a whole.
use deep_research_app.Admission.Proposal.{parse_proposal, proposal_kept, proposal_clean}
use deep_research_app.Admission.Stops.{refusal_of-type}
use deep_research_app.Types.Values.{Arguments, lookup}
use deep_research_app.Admission.Conditions.{IsPermitted, refusal_of-none_iff}
use deep_research_app.Admission.{
  admit_proposed_action, some, asserted, none, String, Arguments, lookup, refusal_of, Refusal,
  simple, parse_proposal,
}
use deep_research_app.Base.{
  refl, ◌≡◌, some, none, Option-cases, String, inl, arith, inr, ◌∙◌, sym, ◌↔◌, ◌≢◌, ◌⊎◌,
}
use deep_research_app.Admission.Guards.{Schemas, Options, asserted, Refusal, simple}
use deep_research_app.Types.{ControllerState, Decision}

-- What the code relies on of the schema library: parsed arguments hold the same values.
pub record IsStrict (z : Schemas) : Type 0 where
  pub arguments_kept :
      (type : String) (a b : Arguments) (key : String)
      → z.parse_arguments type a ≡ some b
      → lookup key b ≡ lookup key a

-- The gate lets a proposal through exactly when its schema accepts it, it is permitted, and the
-- schema of its arguments accepts them; then the decision is the proposal with those arguments.
abbrev pub IsAdmissible : Schemas → ControllerState → Decision → Options → Decision → Type 0
IsAdmissible z state p opts d =
    (parse_proposal z p ≡ some p)
    × IsPermitted z state p opts
    × (z.parse_arguments p.type p.arguments ≡ some d.arguments)
    × (d ≡ record p { arguments = d.arguments })

module _ (z : Schemas) (state : ControllerState) (p : Decision) (opts : Options) where
  admit-eq :
      {d : Decision} {a : Arguments}
      → parse_proposal z p ≡ some d
      → refusal_of z state p opts ≡ none
      → z.parse_arguments p.type p.arguments ≡ some a
      → admit_proposed_action z state p opts ≡ record d { arguments = a }
  unfolding admit_proposed_action
  admit-eq parsed passed executable = ground arith

  admit-parts :
      (admit_proposed_action z state p opts).reject_reason ≡ none
      → (d : Decision) × (a : Arguments) × (parse_proposal z p ≡ some d)
        × (refusal_of z state p opts ≡ none)
        × (z.parse_arguments p.type p.arguments ≡ some a)
  unfolding admit_proposed_action asserted
  admit-parts e = elim (Option-cases (parse_proposal z p)) [
    | inl bad ↦ ground arith
    | inr (d, parsed) ↦ elim (Option-cases (refusal_of z state p opts)) [
      | inr (r, refused) ↦ ground arith
      | inl passed ↦ elim (Option-cases (z.parse_arguments p.type p.arguments)) [
        | inl bad ↦ ground arith
        | inr (a, executable) ↦ (d, a, parsed, passed, executable)
      ]
    ]
  ]

  admit_sound :
      (admit_proposed_action z state p opts).reject_reason ≡ none
      → IsAdmissible z state p opts (admit_proposed_action z state p opts)
  admit_sound e =
      let (d, a, parsed, passed, executable) = admit-parts e in
      let whole = admit-eq parsed passed executable in
      let same = proposal_kept z p d parsed in
      rw whole
        (rw same at parsed, (refusal_of-none_iff z state p opts).0 passed, executable, (rw same))

  admit_complete :
      (d : Decision) → IsAdmissible z state p opts d → admit_proposed_action z state p opts ≡ d
  admit_complete d (parsed, permitted, executable, same) =
      admit-eq parsed ((refusal_of-none_iff z state p opts).1 permitted) executable ∙ sym same

  admit-cases :
      ((r : Refusal) × (r.type ≡ "stop") × (admit_proposed_action z state p opts ≡ asserted p r))
      ⊎ ((d : Decision) × (a : Arguments) × (parse_proposal z p ≡ some d)
          × (admit_proposed_action z state p opts ≡ record d { arguments = a }))
  unfolding admit_proposed_action simple
  admit-cases = elim (Option-cases (parse_proposal z p)) [
    | inl bad ↦
        inl (simple "stop" "invalid_schema" "Proposal failed schema validation", refl, ground arith)
    | inr (d, parsed) ↦ elim (Option-cases (refusal_of z state p opts)) [
      | inr (r, refused) ↦ inl (r, refusal_of-type z state p opts r refused, ground arith)
      | inl passed ↦ elim (Option-cases (z.parse_arguments p.type p.arguments)) [
        | inl bad ↦ inl (
          simple "stop" "invalid_arguments" "Action arguments do not match the executable contract",
          refl,
          ground arith,
        )
        | inr (a, executable) ↦ inr (d, a, parsed, ground arith)
      ]
    ]
  ]

-- The gate gives a decision with no reason of refusal exactly when
-- that decision is the proposal with its arguments as parsed, the schema accepts the proposal and
-- its arguments, and the proposal is permitted in the state.
pub admit_iff :
    (z : Schemas) (state : ControllerState) (p : Decision) (opts : Options) (d : Decision)
    → ((admit_proposed_action z state p opts ≡ d) × (d.reject_reason ≡ none))
      ↔ IsAdmissible z state p opts d
admit_iff z state p opts d = (
  λ (e, clean). rw e at (admit_sound z state p opts (rw e clean)),
  λ h. (admit_complete z state p opts d h, clean h),
)
  where
    clean : IsAdmissible z state p opts d → d.reject_reason ≡ none
    clean (parsed, permitted, executable, same) = rw same (proposal_clean z p p parsed)

-- A refused decision is a stop of the same action and run under the same key, whatever was proposed.
pub admit-stops :
    (z : Schemas) (state : ControllerState) (p : Decision) (opts : Options)
    → (admit_proposed_action z state p opts).reject_reason ≢ none
    → ((admit_proposed_action z state p opts).type ≡ "stop")
      × ((admit_proposed_action z state p opts).action_id ≡ p.action_id)
      × ((admit_proposed_action z state p opts).run_id ≡ p.run_id)
      × ((admit_proposed_action z state p opts).dedupe_key ≡ p.dedupe_key)
unfolding asserted
admit-stops z state p opts refused = elim (admit-cases z state p opts) [
  | inl (r, stops, e) ↦ rw e (stops, refl, refl, refl)
  | inr (d, a, parsed, e) ↦
      absurd (refused (rw e (rw (proposal_kept z p d parsed) (proposal_clean z p d parsed))))
]
