-- ===== src/Requests/Lifetimes.antt =====
-- How long a captured request stays current, and when its abort signal is raised.
use deep_research_app.Requests.{
  Kind, Request, after_call, Scope, set_session, select_run, Call, abort, to_session, is_aborted,
  to_run, to_invalid_view, to_capture, to_release, to_closed_source, invalidate_view, close_source,
  after_capture, abort_one, capture, pending_in, release, set_controller, request_of, current,
  after_calls, Controller,
}
use deep_research_app.Base.{
  refl, ◌≡◌, List, Bool, false, Option, not, true, ◌∷◌, String, arith, ◌||◌, some, [], nat_eq,
}
use deep_research_app.Requests.Held.{
  call-Held, calls-Held, capture-new, current-in_epochs, ended_by, in_epochs-calls, is_pending_in,
  new-Held, new-in_epochs, Held,
}

current-new :
    (kind : Kind) (s : Scope) (cs : List Call)
    → current (request_of kind s) (after_calls cs (pending_in kind s))
      ≡ not (ended_by kind cs (pending_in kind s))
unfolding request_of
current-new kind s cs = ground (
  arith,
  new-in_epochs kind s,
  current-in_epochs _ _ (calls-Held (request_of kind s) cs _ (new-Held kind s)),
  in_epochs-calls (request_of kind s) cs _ (new-Held kind s),
)

-- After any calls, a captured request is current exactly when none of them ended the lifetime of
-- its kind: a change of session ends every kind, a change of the selected run and a valid
-- invalidation of the view end views and sources, and closing the source sheet ends sources.
pub current-capture :
    (kind : Kind) (t u : Option String) (s s' : Scope) (r : Request) (cs : List Call)
    → capture kind t u s ≡ some (r, s')
    → current r (after_calls cs s') ≡ not (ended_by kind cs s')
current-capture kind t u s s' r cs e =
    let (er, es) = capture-new kind t u s s' r e in rw er (rw es (current-new kind s cs))

-- Whether a request's controller is released by one of the calls.
unfoldable pub is_released : Request → List Call → Bool
is_released r [] = false
is_released r (to_release n ∷ cs) = nat_eq r.controller n || is_released r cs
is_released r (_ ∷ cs) = is_released r cs

pending-abort : (k : Kind) (c : Controller) → (abort_one k c).is_pending ≡ c.is_pending
unfolding abort_one
pending-abort k c = ground arith

pending-call :
    (r : Request) (c : Call) (s : Scope)
    → Held r s
    → is_released r (c ∷ []) ≡ false
    → is_pending_in r (after_call c s) ≡ is_pending_in r s
unfolding is_released is_pending_in after_call set_session select_run invalidate_view close_source
    release set_controller capture pending_in after_capture abort abort_one
pending-call r (to_session next) s h f = ground arith
pending-call r (to_run next) s h f = ground arith
pending-call r (to_invalid_view session) s h f = ground arith
pending-call r to_closed_source s h f = ground arith
pending-call r (to_capture kind t u) s h f = ground (arith, h.is_made)
pending-call r (to_release n) s h f = ground (arith, f)

released-cons :
    (r : Request) (c : Call) (cs : List Call)
    → is_released r (c ∷ cs) ≡ is_released r (c ∷ []) || is_released r cs
unfolding is_released
released-cons r (to_session next) cs = refl
released-cons r (to_run next) cs = refl
released-cons r (to_invalid_view session) cs = refl
released-cons r to_closed_source cs = refl
released-cons r (to_capture kind t u) cs = refl
released-cons r (to_release n) cs = ground arith

pending-calls :
    (r : Request) (cs : List Call) (s : Scope)
    → Held r s
    → is_released r cs ≡ false
    → is_pending_in r (after_calls cs s) ≡ is_pending_in r s
unfolding after_calls
pending-calls r [] s h f = refl
pending-calls r (c ∷ cs) s h f = ground (
  arith,
  released-cons r c cs,
  f,
  pending-call r c s h,
  pending-calls r cs (after_call c s) (call-Held r c s h),
)

new-pending :
    (kind : Kind) (s : Scope) → is_pending_in (request_of kind s) (pending_in kind s) ≡ true
unfolding is_pending_in request_of pending_in set_controller
new-pending kind s = ground arith

aborted-new :
    (kind : Kind) (s : Scope) (cs : List Call)
    → is_released (request_of kind s) cs ≡ false
    → let t = after_calls cs (pending_in kind s) in
      (is_aborted (request_of kind s) t ≡ ended_by kind cs (pending_in kind s))
      × (current (request_of kind s) t ≡ not (is_aborted (request_of kind s) t))
aborted-new kind s cs f =
    let r = request_of kind s in
    let h = calls-Held r cs _ (new-Held kind s) in
    let c = current-new kind s cs in
    let i = current-in_epochs r _ h in
    let p = pending-calls r cs _ (new-Held kind s) f in
    let q = new-pending kind s in
    (
      ground (arith, c, i, p, q, h.ends_abort, h.abort_ends),
      ground (arith, c, i, p, q, h.ends_abort, h.abort_ends),
    )

-- While a captured request is not released, its abort signal is raised exactly by a call that ends
-- the lifetime of its kind, hence exactly when the request is not current.
pub is_aborted-capture :
    (kind : Kind) (t u : Option String) (s s' : Scope) (r : Request) (cs : List Call)
    → capture kind t u s ≡ some (r, s')
    → is_released r cs ≡ false
    → (is_aborted r (after_calls cs s') ≡ ended_by kind cs s')
      × (current r (after_calls cs s') ≡ not (is_aborted r (after_calls cs s')))
is_aborted-capture kind t u s s' r cs e f =
    let (er, es) = capture-new kind t u s s' r e in
    rw er (rw es (aborted-new kind s cs (rw (← er) f)))
