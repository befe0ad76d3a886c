-- ===== src/Fsm/History.antt =====
-- Runs of the state machine: what a sequence of dispatched events does to a new incident.
use zgent.Common.{◌≡◌, List, [], ◌∷◌, ◌++◌, ◌⊎◌, inl, inr, arith}
use zgent.Common.Exec.{Result, ok, err}
use zgent.Fsm.{
  Status, Event, initial_state, transition, diagnosing, awaiting_approval, applying, smoke_running,
  smoke_passed, smoke_skipped, retry_running, resolved, rejected, stale, unresolved,
  rollback_blocked, investigation_done, investigation_failed, approve, approve_invalidated, reject,
  apply_ok_smoke, apply_ok_no_smoke, smoke_is_ok, retry_started, retry_succeeded,
  smoke_failed_rollback_blocked,
}

next : Event → Result Status → Result Status
next e (ok s) = transition s e
next e (err x) = err x

-- The status after the events of a log that has the newest event first.
unfoldable pub history : List Event → Result Status
unfolding transition next
history [] = ok initial_state
history (e ∷ es) = next e (history es)

-- The ways, newest event first, from `applying` to a status in which the retry may start.
abbrev pub Verified : List Event → Type 0
Verified (smoke_is_ok ∷ []) = Unit
Verified (smoke_is_ok ∷ apply_ok_smoke ∷ []) = Unit
Verified (apply_ok_no_smoke ∷ []) = Unit
Verified _ = ⊥

resolved_before :
    (e : Event) (es : List Event)
    → history (e ∷ es) ≡ ok resolved
    → (e ≡ retry_succeeded) × (history es ≡ ok retry_running)
unfolding history
resolved_before e es h = ground arith

retry_running_before :
    (e : Event) (es : List Event)
    → history (e ∷ es) ≡ ok retry_running
    → (e ≡ retry_started) × ((history es ≡ ok smoke_passed) ⊎ (history es ≡ ok smoke_skipped))
unfolding history
retry_running_before e es h = ground arith

pub record Approved (es : List Event) : Type 0 where
  pub since : List Event
  pub before : List Event
  pub split : es ≡ since ++ (approve ∷ before)
  pub verified : Verified since
  pub awaited : history before ≡ ok awaiting_approval

applying_before :
    (e : Event) (es : List Event)
    → history (e ∷ es) ≡ ok applying
    → (e ≡ approve) × (history es ≡ ok awaiting_approval)
unfolding history
applying_before e es h = ground arith

smoke_running_before :
    (e : Event) (es : List Event)
    → history (e ∷ es) ≡ ok smoke_running
    → (e ≡ apply_ok_smoke) × (history es ≡ ok applying)
unfolding history
smoke_running_before e es h = ground arith

smoke_passed_before :
    (e : Event) (es : List Event)
    → history (e ∷ es) ≡ ok smoke_passed
    → (e ≡ smoke_is_ok) × ((history es ≡ ok smoke_running) ⊎ (history es ≡ ok applying))
unfolding history
smoke_passed_before e es h = ground arith

smoke_skipped_before :
    (e : Event) (es : List Event)
    → history (e ∷ es) ≡ ok smoke_skipped
    → (e ≡ apply_ok_no_smoke) × (history es ≡ ok applying)
unfolding history
smoke_skipped_before e es h = ground arith

from_applying :
    (since es : List Event) → history es ≡ ok applying → Verified since → Approved (since ++ es)
unfolding history
from_applying since [] h v = cc
from_applying since (e ∷ es) h v =
    let (p, q) = applying_before e es h in
    record { since = since; before = es; split = rw p; verified = v; awaited = q }

smoke_passed-Approved : (es : List Event) → history es ≡ ok smoke_passed → Approved es
unfolding history
smoke_passed-Approved [] h = cc
smoke_passed-Approved (e ∷ []) h = ground arith
smoke_passed-Approved (e ∷ f ∷ es) h =
    let (p, r) = smoke_passed_before e (f ∷ es) h in
    elim r [
      | inl q ↦
          let (p', q') = smoke_running_before f es q in
          rw (p, p') (from_applying (smoke_is_ok ∷ apply_ok_smoke ∷ []) es q' tt)
      | inr q ↦ rw p (from_applying (smoke_is_ok ∷ []) (f ∷ es) q tt)
    ]

smoke_skipped-Approved : (es : List Event) → history es ≡ ok smoke_skipped → Approved es
unfolding history
smoke_skipped-Approved [] h = cc
smoke_skipped-Approved (e ∷ es) h =
    let (p, q) = smoke_skipped_before e es h in
    rw p (from_applying (apply_ok_no_smoke ∷ []) es q tt)

-- Whatever events are dispatched from the first diagnosis on, an incident that is resolved ended
-- with a started and successful retry, before it a passed or skipped smoke test, and before that
-- the approval, given while the incident awaited it: no other event lies between.
pub resolved_needs_approval :
    (es : List Event)
    → history es ≡ ok resolved
    → (rest : List Event) × (es ≡ retry_succeeded ∷ retry_started ∷ rest) × Approved rest
unfolding history
resolved_needs_approval [] h = cc
resolved_needs_approval (e ∷ []) h = ground arith
resolved_needs_approval (e ∷ f ∷ es) h =
    let (p, q) = resolved_before e (f ∷ es) h in
    let (p', r) = retry_running_before f es q in
    (es, cc, elim r [ inl s ↦ smoke_passed-Approved es s | inr s ↦ smoke_skipped-Approved es s ])

-- A log, newest event first, that leads a new incident to the status.
route : Status → List Event
route diagnosing = []
route awaiting_approval = investigation_done ∷ []
route unresolved = investigation_failed ∷ []
route stale = approve_invalidated ∷ investigation_done ∷ []
route rejected = reject ∷ investigation_done ∷ []
route applying = approve ∷ investigation_done ∷ []
route rollback_blocked = smoke_failed_rollback_blocked ∷ approve ∷ investigation_done ∷ []
route smoke_running = apply_ok_smoke ∷ approve ∷ investigation_done ∷ []
route smoke_passed = smoke_is_ok ∷ apply_ok_smoke ∷ approve ∷ investigation_done ∷ []
route smoke_skipped = apply_ok_no_smoke ∷ approve ∷ investigation_done ∷ []
route retry_running = retry_started ∷ apply_ok_no_smoke ∷ approve ∷ investigation_done ∷ []
route resolved =
    retry_succeeded ∷ retry_started ∷ apply_ok_no_smoke ∷ approve ∷ investigation_done ∷ []

-- Every status is reached from a new incident by dispatched events.
pub history_complete : (s : Status) → (es : List Event) × (history es ≡ ok s)
unfolding history route
history_complete s = (route s, ground arith)
