-- ===== src/Fsm.antt =====
-- The incident state machine (cyan/training/incidents/fsm.py) and the statuses of models.py.
pub mod Laws
pub mod History
use zgent.Common.{Bool, true, false, Option, none, some, is_some}
use zgent.Common.Exec.{Result, ok, err, illegal_transition}

pub data Status : Type 0 where
  diagnosing awaiting_approval applying smoke_running smoke_passed smoke_skipped : Status
  retry_running resolved rejected stale unresolved rollback_blocked : Status

pub data Event : Type 0 where
  investigation_done investigation_failed approve approve_invalidated reject follow_up : Event
  apply_ok_smoke apply_ok_no_smoke apply_failed smoke_is_ok smoke_failed_rolled_back : Event
  smoke_failed_rolled_back_no_evidence smoke_failed_rollback_blocked : Event
  retry_started retry_succeeded retry_aborted retry_failed : Event

pub Status-discrete : Discrete Status
Status-discrete = hlevel

-- INITIAL_STATE
abbrev pub initial_state : Status
initial_state = diagnosing

-- TERMINAL_STATES
unfoldable pub is_terminal : Status → Bool
is_terminal resolved = true
is_terminal rejected = true
is_terminal _ = false

-- The table TRANSITIONS; a missing key is `none`.
unfoldable pub transitions : Status → Event → Option Status
transitions diagnosing investigation_done = some awaiting_approval
transitions diagnosing investigation_failed = some unresolved
transitions awaiting_approval approve = some applying
transitions awaiting_approval approve_invalidated = some stale
transitions awaiting_approval reject = some rejected
transitions awaiting_approval follow_up = some diagnosing
transitions applying apply_ok_smoke = some smoke_running
transitions applying smoke_is_ok = some smoke_passed
transitions applying apply_ok_no_smoke = some smoke_skipped
transitions applying apply_failed = some stale
transitions applying smoke_failed_rolled_back = some diagnosing
transitions applying smoke_failed_rolled_back_no_evidence = some unresolved
transitions applying smoke_failed_rollback_blocked = some rollback_blocked
transitions smoke_running smoke_is_ok = some smoke_passed
transitions smoke_running smoke_failed_rolled_back = some diagnosing
transitions smoke_running smoke_failed_rolled_back_no_evidence = some unresolved
transitions smoke_running smoke_failed_rollback_blocked = some rollback_blocked
transitions smoke_passed retry_started = some retry_running
transitions smoke_skipped retry_started = some retry_running
transitions retry_running retry_succeeded = some resolved
transitions retry_running retry_aborted = some unresolved
transitions retry_running retry_failed = some diagnosing
transitions stale follow_up = some diagnosing
transitions unresolved follow_up = some diagnosing
transitions rollback_blocked follow_up = some diagnosing
transitions _ _ = none

-- accepts(state, event)
unfoldable pub accepts : Status → Event → Bool
unfolding transitions
accepts s e = is_some (transitions s e)

or_illegal : Option Status → Result Status
or_illegal none = err illegal_transition
or_illegal (some t) = ok t

-- transition(state, event)
unfoldable pub transition : Status → Event → Result Status
unfolding transitions or_illegal
transition s e = or_illegal (transitions s e)

pub data RecoveryAction : Type 0 where
  keep reconcile quarantine : RecoveryAction

-- RECOVERY, and recover_action(state)
unfoldable pub recover_action : Status → RecoveryAction
recover_action diagnosing = reconcile
recover_action awaiting_approval = reconcile
recover_action applying = quarantine
recover_action smoke_running = quarantine
recover_action smoke_passed = quarantine
recover_action smoke_skipped = quarantine
recover_action retry_running = reconcile
recover_action resolved = keep
recover_action rejected = keep
recover_action stale = keep
recover_action unresolved = keep
recover_action rollback_blocked = keep
