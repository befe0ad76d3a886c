-- ===== src/Fsm/Laws.antt =====
-- How the three tables of fsm.py (TRANSITIONS, TERMINAL_STATES, RECOVERY) agree.
use zgent.Common.{true, false, ◌≡◌, ◌↔◌, arith}
use zgent.Fsm.{
  Status, Event, is_terminal, accepts, recover_action, diagnosing, awaiting_approval, applying,
  smoke_running, smoke_passed, smoke_skipped, retry_running, follow_up, keep, investigation_done,
  approve, retry_started, retry_succeeded, apply_ok_smoke, smoke_is_ok,
}

some_event : Status → Event
some_event diagnosing = investigation_done
some_event awaiting_approval = approve
some_event applying = apply_ok_smoke
some_event smoke_running = smoke_is_ok
some_event smoke_passed = retry_started
some_event smoke_skipped = retry_started
some_event retry_running = retry_succeeded
some_event _ = follow_up

some_event-accepted : (s : Status) → is_terminal s ≡ false → accepts s (some_event s) ≡ true
unfolding some_event is_terminal accepts
some_event-accepted s h = ground arith

-- The terminal statuses are exactly those that accept no event.
pub is_terminal_iff_closed :
    (s : Status) → (is_terminal s ≡ true) ↔ ((e : Event) → accepts s e ≡ false)
unfolding is_terminal accepts
is_terminal_iff_closed s =
    (λ h e. ground arith, λ h. ground (arith, h (some_event s), some_event-accepted s))

-- The recovery table says to keep a status exactly when no event but the user's follow-up
-- question moves it.
pub keep_iff_only_follow_up :
    (s : Status) → (recover_action s ≡ keep) ↔ ((e : Event) → accepts s e ≡ true → e ≡ follow_up)
unfolding recover_action accepts is_terminal some_event
keep_iff_only_follow_up s =
    (λ h e a. ground arith, λ h. ground (arith, h (some_event s), some_event-accepted s))
