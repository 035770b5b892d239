-- ===== src/Mobile/Reducer/Hidden.antt =====
-- What holds of the screen state after any changes of it.
use deep_research_app.Admission.Guards.{is_given}
use deep_research_app.Mobile.Deletion.{
  DeletionReceipt, Deletion, prepare_source_deletion, hidden_for, prepare_target,
  complete_source_deletion, DeletionTarget, confirmed_by, source_deletion_unavailable,
  source_deletion_target, is_receipt, is_target_of, complete_pending,
}
use deep_research_app.Mobile.Tabs.{close_source_sheet}
use deep_research_app.Mobile.Reducer.{
  open_library_item, restore_after_reopen, logout, expire_local_session, opened_run, is_given,
}
use deep_research_app.Mobile.{UiState, empty_state}
use deep_research_app.Base.{
  refl, List, String, ◌∷◌, none, if-case, false, [], arith, Option-cases, some, inl, inr, ◌==◌,
  is_some, Option, not, ◌||◌,
}
use deep_research_app.Mobile.Reducer.Safety.{
  Change, IsSafe-kept, after_change, after_changes, after_deletion, attach-IsSafe, back-IsSafe,
  is_invalidated, redact-IsSafe, snapshot-IsSafe, IsSafe, snapshot, redaction, attachment, opening,
  preparing, completing, reopening, leaving, expiring, closing, going_back,
}

hidden-IsSafe : (s : UiState) (source_id : String) → IsSafe (hidden_for s source_id)
unfolding hidden_for is_invalidated
hidden-IsSafe s source_id = record { few = omega arith; hides = λ e. absurd (ground (arith, e)) }

target-IsSafe :
    (s : UiState) (source_id : String) (t : Option DeletionTarget)
    → IsSafe s
    → IsSafe (after_deletion (prepare_target s source_id t) s)
unfolding prepare_target after_deletion
target-IsSafe s source_id t h =
    elim (Option-cases (
      source_deletion_unavailable t s.offline
        (is_some s.pending_admission || is_some s.pending_verification) false)) [
          | inr (reason, e) ↦ rw (prepare_target, e) h
          | inl e ↦
              rw (prepare_target, e)
                (if-case (λ (d : Deletion). IsSafe (after_deletion d s)) (is_target_of t source_id)
                  _ _ (λ c. hidden-IsSafe s source_id) (λ c. h))
        ]

prepare-IsSafe :
    (s : UiState) (source_id : String)
    → IsSafe s
    → IsSafe (after_deletion (prepare_source_deletion s source_id) s)
unfolding prepare_source_deletion after_deletion
prepare-IsSafe s source_id h =
    if-case (λ (d : Deletion). IsSafe (after_deletion d s)) (not s.signed_in) _ _ (λ c. h)
      (λ c.
        if-case (λ (d : Deletion). IsSafe (after_deletion d s)) (is_given s.pending_source_deletion)
          _ _ (λ e. h) (λ e. target-IsSafe s source_id (source_deletion_target s.source) h))

pending-IsSafe :
    (s : UiState) (receipt : DeletionReceipt) (pending : Option String)
    → IsSafe s
    → IsSafe (after_deletion (complete_pending s receipt pending) s)
unfolding complete_pending after_deletion confirmed_by
pending-IsSafe s receipt none h = h
pending-IsSafe s receipt (some pending) h =
    if-case (λ (d : Deletion). IsSafe (after_deletion d s)) (not (pending == receipt.source_id)) _ _
      (λ c. h)
      (λ c.
        if-case (λ (d : Deletion). IsSafe (after_deletion d s)) (is_receipt receipt pending) _ _
          (λ k.
            IsSafe-kept s (confirmed_by s receipt) h.few refl refl refl (λ z. z) refl refl refl h)
          (λ k. h))

complete-IsSafe :
    (s : UiState) (receipt : DeletionReceipt)
    → IsSafe s
    → IsSafe (after_deletion (complete_source_deletion s receipt) s)
unfolding complete_source_deletion
complete-IsSafe s receipt h = pending-IsSafe s receipt s.pending_source_deletion h

change-IsSafe : (c : Change) (s : UiState) → IsSafe s → IsSafe (after_change c s)
unfolding after_change open_library_item restore_after_reopen logout expire_local_session
    close_source_sheet opened_run empty_state is_invalidated
change-IsSafe (snapshot snap) s h = snapshot-IsSafe s snap h
change-IsSafe (redaction run_id b) s h = redact-IsSafe s run_id b h
change-IsSafe (attachment file) s h = attach-IsSafe s file h
change-IsSafe (opening run_id) s h = record { few = h.few; hides = λ e. absurd (ground (arith, e)) }
change-IsSafe (preparing source_id) s h = prepare-IsSafe s source_id h
change-IsSafe (completing receipt) s h = complete-IsSafe s receipt h
change-IsSafe reopening s h = IsSafe-kept s _ h.few refl refl refl (λ e. refl) refl refl refl h
change-IsSafe leaving s h = record { few = omega arith; hides = λ e. absurd (ground (arith, e)) }
change-IsSafe expiring s h = record { few = omega arith; hides = λ e. absurd (ground (arith, e)) }
change-IsSafe closing s h = IsSafe-kept s _ h.few refl refl refl (λ e. refl) refl refl refl h
change-IsSafe going_back s h = back-IsSafe s h

-- Whatever changes the state goes through, at most three files are attached, and a run whose
-- content was invalidated shows no report, source, event, anchor or correction of it.
pub after_changes-IsSafe : (cs : List Change) (s : UiState) → IsSafe s → IsSafe (after_changes cs s)
unfolding after_changes
after_changes-IsSafe [] s h = h
after_changes-IsSafe (c ∷ cs) s h = after_changes-IsSafe cs (after_change c s) (change-IsSafe c s h)
