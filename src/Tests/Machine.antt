-- ===== src/Tests/Machine.antt =====
-- The state machine at concrete statuses and logs.
use zgent.Common.{◌≡◌, ◌↔◌, refl, true, false, List, [], ◌∷◌}
use zgent.Common.Exec.{ok}
use zgent.Fsm.{
  Event, is_terminal, accepts, recover_action, keep, rejected, rollback_blocked, resolved,
  investigation_done, approve, apply_ok_no_smoke, retry_started, retry_succeeded, follow_up,
}
use zgent.Fsm.History.{history, Approved, resolved_needs_approval, history_complete}
use zgent.Fsm.Laws.{is_terminal_iff_closed, keep_iff_only_follow_up}

abbrev log : List Event
log = retry_succeeded ∷ retry_started ∷ apply_ok_no_smoke ∷ approve ∷ investigation_done ∷ []

log-resolved : history log ≡ ok resolved
unfolding history
log-resolved = refl

resolved_needs_approval_example :
    (rest : List Event) × (log ≡ retry_succeeded ∷ retry_started ∷ rest) × Approved rest
resolved_needs_approval_example = resolved_needs_approval log log-resolved

is_terminal_iff_closed_example :
    (is_terminal rejected ≡ true) ↔ ((e : Event) → accepts rejected e ≡ false)
is_terminal_iff_closed_example = is_terminal_iff_closed rejected

keep_iff_only_follow_up_example :
    (recover_action rollback_blocked ≡ keep)
    ↔ ((e : Event) → accepts rollback_blocked e ≡ true → e ≡ follow_up)
keep_iff_only_follow_up_example = keep_iff_only_follow_up rollback_blocked

history_complete_example : (es : List Event) × (history es ≡ ok rollback_blocked)
history_complete_example = history_complete rollback_blocked
