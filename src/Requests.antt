-- ===== src/Requests.antt =====
-- apps/mobile/src/request-scope.ts: the lifetimes of requests in the mobile application, by the
-- account, the selected run and the source sheet they were made for.
pub mod Held
pub mod Lifetimes
use deep_research_app.Base.{
  refl, ◌≡◌, Bool, ℕ, none, if◌then◌else◌, Option, String, suc, true, or_else, List, false, ◌||◌,
  ◌&&◌, some, nat_eq, not, ◌∷◌, ◌==◌, [], same_option,
}

pub data Kind : Type 0 where
  account : Kind
  view : Kind
  source : Kind

unfoldable pub same_kind : Kind → Kind → Bool
same_kind account account = true
same_kind view view = true
same_kind source source = true
same_kind _ _ = false

-- An AbortController, with the kind that `pending` maps it to and whether it is a key there.
pub record Controller : Type 0 where
  pub kind : Kind
  pub is_pending : Bool
  pub is_aborted : Bool

-- Controllers are numbered in the order of their creation. A number from `created` on has none.
pub record Scope : Type 0 where
  pub account_epoch : ℕ
  pub view_epoch : ℕ
  pub source_epoch : ℕ
  pub token : Option String
  pub run_id : Option String
  pub controllers : ℕ → Controller
  pub created : ℕ

-- What `capture` returns: its controller and the epochs its closure holds.
pub record Request : Type 0 where
  pub controller : ℕ
  pub kind : Kind
  pub account : ℕ
  pub view : ℕ
  pub source : ℕ

unfoldable pub create_request_scope : Scope
create_request_scope = record {
  account_epoch = 0;
  view_epoch = 0;
  source_epoch = 0;
  token = none;
  run_id = none;
  controllers = λ n. record { kind = account; is_pending = false; is_aborted = false };
  created = 0;
}

unfoldable pub reaches : Kind → Kind → Bool
unfolding same_kind
reaches kind request_kind =
    same_kind kind account
    || same_kind request_kind kind
    || same_kind kind view && same_kind request_kind source

unfoldable pub abort_one : Kind → Controller → Controller
abort_one kind c = if c.is_pending && reaches kind c.kind then record c { is_aborted = true } else c

unfoldable pub abort : Kind → Scope → Scope
abort kind s = record s { controllers = λ n. abort_one kind (s.controllers n) }

unfoldable pub set_session : Option String → Scope → Scope
set_session next s = abort account (record s {
  account_epoch = suc s.account_epoch;
  view_epoch = suc s.view_epoch;
  source_epoch = suc s.source_epoch;
  token = next;
  run_id = none;
})

unfoldable pub select_run : Option String → Scope → Scope
select_run next s =
    if same_option next s.run_id
    then s
    else abort view (record s {
      run_id = next;
      view_epoch = suc s.view_epoch;
      source_epoch = suc s.source_epoch;
    })

-- Here and in `capture`, `none` stands for the SupersededRequest that is thrown.
unfoldable pub invalidate_view : String → Scope → Option Scope
invalidate_view session s =
    if same_option (some session) s.token
    then some
        (abort view (record s { view_epoch = suc s.view_epoch; source_epoch = suc s.source_epoch }))
    else none

unfoldable pub close_source : Scope → Scope
close_source s = abort source (record s { source_epoch = suc s.source_epoch })

unfoldable pub current_run : String → String → Scope → Bool
current_run session id s = same_option s.token (some session) && same_option s.run_id (some id)

unfoldable pub is_expected : Option String → Option String → Bool
is_expected none actual = true
is_expected (some e) actual = same_option (some e) actual

unfoldable pub set_controller : ℕ → Controller → (ℕ → Controller) → ℕ → Controller
set_controller n c controllers m = if nat_eq m n then c else controllers m

unfoldable pub request_of : Kind → Scope → Request
request_of kind s = record {
  controller = s.created;
  kind = kind;
  account = s.account_epoch;
  view = s.view_epoch;
  source = s.source_epoch;
}

unfoldable pub pending_in : Kind → Scope → Scope
pending_in kind s = record s {
  controllers =
      set_controller s.created (record { kind = kind; is_pending = true; is_aborted = false })
        s.controllers;
  created = suc s.created;
}

unfoldable pub capture : Kind → Option String → Option String → Scope → Option (Request × Scope)
capture kind expected_token expected_run s =
    if is_expected expected_token s.token && is_expected expected_run s.run_id
    then some (request_of kind s, pending_in kind s)
    else none

unfoldable pub release : ℕ → Scope → Scope
release n s = record s {
  controllers = set_controller n (record (s.controllers n) { is_pending = false }) s.controllers;
}

unfoldable pub in_epochs : Request → Scope → Bool
in_epochs r s =
    nat_eq s.account_epoch r.account
    && (same_kind r.kind account || nat_eq s.view_epoch r.view)
    && (not (same_kind r.kind source) || nat_eq s.source_epoch r.source)

unfoldable pub is_aborted : Request → Scope → Bool
is_aborted r s = (s.controllers r.controller).is_aborted

unfoldable pub current : Request → Scope → Bool
current r s = not (is_aborted r s) && in_epochs r s

-- A call of one of the functions that `createRequestScope` returns.
pub data Call : Type 0 where
  to_session : (next : Option String) → Call
  to_run : (next : Option String) → Call
  to_invalid_view : (session : String) → Call
  to_closed_source : Call
  to_capture :
      (kind : Kind) → (expected_token : Option String) → (expected_run : Option String) → Call
  to_release : (controller : ℕ) → Call

unfoldable pub after_capture : Option (Request × Scope) → Scope → Scope
after_capture none s = s
after_capture (some (r, t)) s = t

-- A call that throws changes nothing.
unfoldable pub after_call : Call → Scope → Scope
after_call (to_session next) s = set_session next s
after_call (to_run next) s = select_run next s
after_call (to_invalid_view session) s = or_else (invalidate_view session s) s
after_call to_closed_source s = close_source s
after_call (to_capture kind t r) s = after_capture (capture kind t r s) s
after_call (to_release n) s = release n s

unfoldable pub after_calls : List Call → Scope → Scope
after_calls [] s = s
after_calls (c ∷ cs) s = after_calls cs (after_call c s)
