-- ===== src/Requests/Held.antt =====
-- What every call keeps of a captured request: its epochs, its controller and its abort signal.
use deep_research_app.Requests.{
  same_kind, Kind, Request, in_epochs, after_call, Scope, set_session, select_run, Call, abort,
  to_session, is_aborted, to_run, account, to_invalid_view, to_capture, source, to_release,
  to_closed_source, invalidate_view, close_source, after_capture, abort_one, capture, reaches,
  pending_in, release, set_controller, request_of, current, after_calls,
}
use deep_research_app.Base.{
  refl, ◌≡◌, List, Bool, ◌≤◌, ◌&&◌, false, ◌<◌, Option, not, true, ◌∷◌, String, arith, ◌||◌, some,
  [], or_else, ℕ, same_option,
}

-- Whether a call ends the lifetime of requests of a kind.
unfoldable pub ends : Kind → Call → Scope → Bool
unfolding same_kind same_option
ends k (to_session next) s = true
ends k (to_run next) s = not (same_kind k account) && not (same_option next s.run_id)
ends k (to_invalid_view session) s = not (same_kind k account) && same_option (some session) s.token
ends k to_closed_source s = same_kind k source
ends k (to_capture kind t r) s = false
ends k (to_release n) s = false

unfoldable pub ended_by : Kind → List Call → Scope → Bool
unfolding ends
ended_by k [] s = false
ended_by k (c ∷ cs) s = ends k c s || ended_by k cs (after_call c s)

unfoldable pub is_pending_in : Request → Scope → Bool
is_pending_in r s = (s.controllers r.controller).is_pending

pub record Held (r : Request) (s : Scope) : Type 0 where
  pub account_le : r.account ≤ s.account_epoch
  pub view_le : r.view ≤ s.view_epoch
  pub source_le : r.source ≤ s.source_epoch
  pub kind_eq : (s.controllers r.controller).kind ≡ r.kind
  pub is_made : r.controller < s.created
  pub ends_abort : is_pending_in r s ≡ true → in_epochs r s ≡ false → is_aborted r s ≡ true
  pub abort_ends : is_aborted r s ≡ true → in_epochs r s ≡ false

in_epochs-session :
    (r : Request) (next : Option String) (s : Scope)
    → r.account ≤ s.account_epoch
    → in_epochs r (set_session next s) ≡ false
unfolding in_epochs set_session abort
in_epochs-session r next s h = ground arith

in_epochs-run :
    (r : Request) (next : Option String) (s : Scope)
    → Held r s
    → in_epochs r (select_run next s) ≡ in_epochs r s && not (ends r.kind (to_run next) s)
unfolding in_epochs select_run abort same_kind ends
in_epochs-run r next s h = ground (arith, h.account_le, h.view_le, h.source_le)

in_epochs-invalid :
    (r : Request) (session : String) (s : Scope)
    → Held r s
    → in_epochs r (or_else (invalidate_view session s) s)
      ≡ in_epochs r s && not (ends r.kind (to_invalid_view session) s)
unfolding in_epochs invalidate_view abort same_kind ends
in_epochs-invalid r session s h = ground (arith, h.account_le, h.view_le, h.source_le)

in_epochs-closed :
    (r : Request) (s : Scope)
    → Held r s
    → in_epochs r (close_source s) ≡ in_epochs r s && not (ends r.kind to_closed_source s)
unfolding in_epochs close_source abort same_kind ends
in_epochs-closed r s h = ground (arith, h.account_le, h.view_le, h.source_le)

in_epochs-capture :
    (r : Request) (kind : Kind) (t u : Option String) (s : Scope)
    → in_epochs r (after_capture (capture kind t u s) s) ≡ in_epochs r s
unfolding in_epochs after_capture capture pending_in same_kind
in_epochs-capture r kind t u s = ground arith

in_epochs-release : (r : Request) (n : ℕ) (s : Scope) → in_epochs r (release n s) ≡ in_epochs r s
unfolding in_epochs release
in_epochs-release r n s = refl

-- A call keeps a request's epochs exactly when it does not end its lifetime.
in_epochs-call :
    (r : Request) (c : Call) (s : Scope)
    → Held r s
    → in_epochs r (after_call c s) ≡ in_epochs r s && not (ends r.kind c s)
unfolding after_call ends
in_epochs-call r (to_session next) s h = ground (arith, in_epochs-session r next s h.account_le)
in_epochs-call r (to_run next) s h = in_epochs-run r next s h
in_epochs-call r (to_invalid_view session) s h = in_epochs-invalid r session s h
in_epochs-call r to_closed_source s h = in_epochs-closed r s h
in_epochs-call r (to_capture kind t u) s h = ground (arith, in_epochs-capture r kind t u s)
in_epochs-call r (to_release n) s h = ground (arith, in_epochs-release r n s)

session-Held :
    (r : Request) (next : Option String) (s : Scope) → Held r s → Held r (set_session next s)
unfolding set_session abort abort_one is_aborted is_pending_in reaches same_kind
session-Held r next s h = record {
  account_le = omega (arith, h.account_le);
  view_le = omega (arith, h.view_le);
  source_le = omega (arith, h.source_le);
  kind_eq = ground (arith, h.kind_eq);
  is_made = h.is_made;
  ends_abort = λ p e. ground (arith, p, h.kind_eq);
  abort_ends = λ e. in_epochs-session r next s h.account_le;
}

run-Held : (r : Request) (next : Option String) (s : Scope) → Held r s → Held r (select_run next s)
unfolding select_run abort abort_one is_aborted is_pending_in in_epochs reaches same_kind
run-Held r next s h = record {
  account_le = ground (arith, h.account_le);
  view_le = ground (arith, h.view_le);
  source_le = ground (arith, h.source_le);
  kind_eq = ground (arith, h.kind_eq);
  is_made = ground (arith, h.is_made);
  ends_abort = λ p e. ground (arith, h.view_le, h.source_le, h.kind_eq, h.ends_abort);
  abort_ends = λ e. ground (arith, h.view_le, h.source_le, h.kind_eq, h.abort_ends);
}

invalid-Held :
    (r : Request) (session : String) (s : Scope)
    → Held r s
    → Held r (or_else (invalidate_view session s) s)
unfolding invalidate_view abort abort_one is_aborted is_pending_in in_epochs reaches same_kind
invalid-Held r session s h = record {
  account_le = ground (arith, h.account_le);
  view_le = ground (arith, h.view_le);
  source_le = ground (arith, h.source_le);
  kind_eq = ground (arith, h.kind_eq);
  is_made = ground (arith, h.is_made);
  ends_abort = λ p e. ground (arith, h.view_le, h.source_le, h.kind_eq, h.ends_abort);
  abort_ends = λ e. ground (arith, h.view_le, h.source_le, h.kind_eq, h.abort_ends);
}

closed-Held : (r : Request) (s : Scope) → Held r s → Held r (close_source s)
unfolding close_source abort abort_one is_aborted is_pending_in in_epochs reaches same_kind
closed-Held r s h = record {
  account_le = ground (arith, h.account_le);
  view_le = ground (arith, h.view_le);
  source_le = ground (arith, h.source_le);
  kind_eq = ground (arith, h.kind_eq);
  is_made = ground (arith, h.is_made);
  ends_abort = λ p e. ground (arith, h.view_le, h.source_le, h.kind_eq, h.ends_abort);
  abort_ends = λ e. ground (arith, h.view_le, h.source_le, h.kind_eq, h.abort_ends);
}

capture-Held :
    (r : Request) (kind : Kind) (t u : Option String) (s : Scope)
    → Held r s
    → Held r (after_capture (capture kind t u s) s)
unfolding after_capture capture pending_in set_controller is_aborted is_pending_in in_epochs
capture-Held r kind t u s h = record {
  account_le = ground (arith, h.account_le);
  view_le = ground (arith, h.view_le);
  source_le = ground (arith, h.source_le);
  kind_eq = ground (arith, h.kind_eq, h.is_made);
  is_made = ground (arith, h.is_made);
  ends_abort = λ p e. ground (arith, h.is_made, h.ends_abort);
  abort_ends = λ e. ground (arith, h.is_made, h.abort_ends);
}

release-Held : (r : Request) (n : ℕ) (s : Scope) → Held r s → Held r (release n s)
unfolding release set_controller is_aborted is_pending_in in_epochs
release-Held r n s h = record {
  account_le = h.account_le;
  view_le = h.view_le;
  source_le = h.source_le;
  kind_eq = ground (arith, h.kind_eq);
  is_made = h.is_made;
  ends_abort = λ p e. ground (arith, h.ends_abort);
  abort_ends = λ e. ground (arith, h.abort_ends);
}

pub call-Held : (r : Request) (c : Call) (s : Scope) → Held r s → Held r (after_call c s)
unfolding after_call
call-Held r (to_session next) s h = session-Held r next s h
call-Held r (to_run next) s h = run-Held r next s h
call-Held r (to_invalid_view session) s h = invalid-Held r session s h
call-Held r to_closed_source s h = closed-Held r s h
call-Held r (to_capture kind t u) s h = capture-Held r kind t u s h
call-Held r (to_release n) s h = release-Held r n s h

pub capture-new :
    (kind : Kind) (t u : Option String) (s s' : Scope) (r : Request)
    → capture kind t u s ≡ some (r, s')
    → (r ≡ request_of kind s) × (s' ≡ pending_in kind s)
unfolding capture
capture-new kind t u s s' r e = ground arith

pub new-Held : (kind : Kind) (s : Scope) → Held (request_of kind s) (pending_in kind s)
unfolding request_of pending_in set_controller is_aborted is_pending_in in_epochs
new-Held kind s = record {
  account_le = omega arith;
  view_le = omega arith;
  source_le = omega arith;
  kind_eq = ground arith;
  is_made = omega arith;
  ends_abort = λ p e. ground arith;
  abort_ends = λ e. ground arith;
}

pub new-in_epochs :
    (kind : Kind) (s : Scope) → in_epochs (request_of kind s) (pending_in kind s) ≡ true
unfolding request_of pending_in in_epochs same_kind
new-in_epochs kind s = ground arith

pub current-in_epochs : (r : Request) (s : Scope) → Held r s → current r s ≡ in_epochs r s
unfolding current
current-in_epochs r s h = ground (arith, h.abort_ends)

pub calls-Held : (r : Request) (cs : List Call) (s : Scope) → Held r s → Held r (after_calls cs s)
unfolding after_calls
calls-Held r [] s h = h
calls-Held r (c ∷ cs) s h = calls-Held r cs (after_call c s) (call-Held r c s h)

pub in_epochs-calls :
    (r : Request) (cs : List Call) (s : Scope)
    → Held r s
    → in_epochs r (after_calls cs s) ≡ in_epochs r s && not (ended_by r.kind cs s)
unfolding after_calls ended_by
in_epochs-calls r [] s h = ground arith
in_epochs-calls r (c ∷ cs) s h =
    ground
      (arith, in_epochs-call r c s h, in_epochs-calls r cs (after_call c s) (call-Held r c s h))
