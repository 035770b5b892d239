-- ===== src/Mobile/Reducer/Safety.antt =====
-- The changes of the screen state, what is to hold of it, and the changes that are short to check.
use deep_research_app.Mobile.Deletion.{
  DeletionReceipt, Deletion, prepare_source_deletion, complete_source_deletion, refused, allowed,
}
use deep_research_app.Mobile.Tabs.{close_source_sheet, android_back, is_research, Back}
use deep_research_app.Mobile.Reducer.{
  apply_snapshot, redacted, redact_invalidated_content, attached, attach_file, open_library_item,
  is_true, restore_after_reopen, logout, expire_local_session, attach_to, is_target, status_of,
  is_supported_mime,
}
use deep_research_app.Mobile.{RunSnapshot, UiState, Attachment, AdmissionDraft}
use deep_research_app.Base.{
  refl, ◌≡◌, List, String, ◌∷◌, Bool, none, length, if-case, false, [], ◌≤◌, arith, Option-cases,
  some, leb, true, inl, length-append, inr, ◌==◌, eq_refl, ◌∙◌, is_some, Option, not, some_of,
}

-- A change of the state by one of the functions of state.ts.
pub data Change : Type 0 where
  snapshot : RunSnapshot → Change
  redaction : (run_id : String) → (cleanup_pending : Bool) → Change
  attachment : Attachment → Change
  opening : (run_id : String) → Change
  preparing : (source_id : String) → Change
  completing : DeletionReceipt → Change
  reopening leaving expiring closing going_back : Change

-- A call that throws changes nothing.
unfoldable pub after_deletion : Deletion → UiState → UiState
after_deletion (refused message) s = s
after_deletion (allowed t) s = t

unfoldable pub after_change : Change → UiState → UiState
unfolding apply_snapshot redact_invalidated_content attach_file open_library_item
    restore_after_reopen logout expire_local_session close_source_sheet android_back
after_change (snapshot snap) s = apply_snapshot s snap
after_change (redaction run_id cleanup_pending) s =
    redact_invalidated_content s run_id cleanup_pending
after_change (attachment file) s = attach_file s file
after_change (opening run_id) s = open_library_item s run_id
after_change (preparing source_id) s = after_deletion (prepare_source_deletion s source_id) s
after_change (completing receipt) s = after_deletion (complete_source_deletion s receipt) s
after_change reopening s = restore_after_reopen s
after_change leaving s = logout s
after_change expiring s = expire_local_session s
after_change closing s = close_source_sheet s
after_change going_back s = (android_back s).next

unfoldable pub after_changes : List Change → UiState → UiState
unfolding after_change
after_changes [] s = s
after_changes (c ∷ cs) s = after_changes cs (after_change c s)

-- The content of the state's run was invalidated.
unfoldable pub is_invalidated : UiState → Bool
is_invalidated s = elim s.run [ none ↦ false | some r ↦ is_true r.content_invalidated ]

-- Nothing of the report or of its evidence is in the state.
pub record IsHidden (s : UiState) : Type 0 where
  pub no_report : s.report ≡ none
  pub no_previous : s.previous_report ≡ none
  pub no_source : s.source ≡ none
  pub no_events : s.events ≡ []
  pub no_anchor : s.reading_anchor ≡ none
  pub no_correction : s.correction_draft ≡ none

pub record IsSafe (s : UiState) : Type 0 where
  pub few : length s.attachments ≤ 3
  pub hides : is_invalidated s ≡ true → IsHidden s

redacted-IsSafe : (s : UiState) (r : RunSnapshot) (b : Bool) → IsSafe (redacted s r b)
unfolding redacted
redacted-IsSafe s r b = record {
  few = omega arith;
  hides = λ e. record {
    no_report = refl;
    no_previous = refl;
    no_source = refl;
    no_events = refl;
    no_anchor = refl;
    no_correction = refl;
  };
}

pub redact-IsSafe :
    (s : UiState) (run_id : String) (b : Bool)
    → IsSafe s
    → IsSafe (redact_invalidated_content s run_id b)
unfolding redact_invalidated_content
redact-IsSafe s run_id b h = elim (Option-cases s.run) [
  | inl e ↦ rw (redact_invalidated_content, e) h
  | inr (r, e) ↦
      rw (redact_invalidated_content, e)
        (if-case IsSafe (r.run_id == run_id) (redacted s r b) s (λ c. redacted-IsSafe s r b)
          (λ c. h))
]

redact-own-IsSafe :
    (s : UiState) (r : RunSnapshot) (b : Bool)
    → s.run ≡ some r
    → IsSafe (redact_invalidated_content s r.run_id b)
unfolding redact_invalidated_content
redact-own-IsSafe s r b e =
    rw (redact_invalidated_content, e)
      (if-case IsSafe (r.run_id == r.run_id) (redacted s r b) s (λ d. redacted-IsSafe s r b)
        (λ d. absurd (ground (arith, d, eq_refl r.run_id))))

pub snapshot-IsSafe : (s : UiState) (snap : RunSnapshot) → IsSafe s → IsSafe (apply_snapshot s snap)
unfolding apply_snapshot is_invalidated
snapshot-IsSafe s snap h =
    let next = record s { run = some snap; status = status_of snap; error = none } in
    if-case IsSafe (is_true snap.content_invalidated)
      (redact_invalidated_content next snap.run_id true) next
      (λ c. redact-own-IsSafe next snap true refl)
      (λ c. record { few = h.few; hides = λ e. absurd (ground (arith, c, e)) })

-- A change that keeps the run, and shows nothing of a report that was not there.
pub IsSafe-kept :
    (s t : UiState)
    → length t.attachments ≤ 3
    → t.run ≡ s.run
    → t.report ≡ s.report
    → t.previous_report ≡ s.previous_report
    → (s.source ≡ none → t.source ≡ none)
    → t.events ≡ s.events
    → t.reading_anchor ≡ s.reading_anchor
    → t.correction_draft ≡ s.correction_draft
    → IsSafe s
    → IsSafe t
unfolding is_invalidated
IsSafe-kept s t few run report previous source events anchor correction h = record {
  few = few;
  hides = λ e.
      let g = h.hides (ground (arith, run, e)) in
      record {
        no_report = report ∙ g.no_report;
        no_previous = previous ∙ g.no_previous;
        no_source = source g.no_source;
        no_events = events ∙ g.no_events;
        no_anchor = anchor ∙ g.no_anchor;
        no_correction = correction ∙ g.no_correction;
      };
}

failed-IsSafe :
    (s : UiState) (message : String) → IsSafe s → IsSafe (record s { error = some message })
failed-IsSafe s message h = IsSafe-kept s _ h.few refl refl refl (λ e. e) refl refl refl h

attached-IsSafe :
    (s : UiState) (file : Attachment)
    → IsSafe s
    → leb 3 (length s.attachments) ≡ false
    → IsSafe (attached s file)
unfolding attached
attached-IsSafe s file h few =
    IsSafe-kept s _ (ground (arith, few, length-append s.attachments (file ∷ []))) refl refl refl
      (λ e. e) refl refl refl h

attach_to-IsSafe :
    (s : UiState) (file : Attachment) (pending : Option AdmissionDraft)
    → IsSafe s
    → leb 3 (length s.attachments) ≡ false
    → IsSafe (attach_to s file pending)
unfolding attach_to
attach_to-IsSafe s file none h few = attached-IsSafe s file h few
attach_to-IsSafe s file (some pending) h few =
    if-case IsSafe (some_of (is_target file) pending.uploads) _ _
      (λ c. attached-IsSafe s (record file { id = none }) h few) (λ c. failed-IsSafe s _ h)

pub attach-IsSafe : (s : UiState) (file : Attachment) → IsSafe s → IsSafe (attach_file s file)
unfolding attach_file
attach-IsSafe s file h =
    if-case IsSafe (leb 3 (length s.attachments)) _ _ (λ c. failed-IsSafe s _ h)
      (λ c.
        if-case IsSafe (not (is_supported_mime file.mime)) _ _ (λ d. failed-IsSafe s _ h)
          (λ d. attach_to-IsSafe s file s.pending_admission h c))

pub back-IsSafe : (s : UiState) → IsSafe s → IsSafe (android_back s).next
unfolding android_back close_source_sheet
back-IsSafe s h =
    if-case (λ (b : Back). IsSafe b.next) (is_some s.source) _ _
      (λ c. IsSafe-kept s _ h.few refl refl refl (λ e. refl) refl refl refl h)
      (λ c.
        if-case (λ (b : Back). IsSafe b.next) (not (is_research s.tab)) _ _
          (λ d. IsSafe-kept s _ h.few refl refl refl (λ e. e) refl refl refl h) (λ d. h))
