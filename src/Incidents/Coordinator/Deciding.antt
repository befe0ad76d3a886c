-- ===== src/Incidents/Coordinator/Deciding.antt =====
-- The user's decision on a proposal (coordinator.py: decide) and the outcome of the retry
-- (_observe_retry).
pub mod Paths
pub mod Trees
pub mod Reports
pub mod Guards
use zgent.Common.{
  ℕ, ◌+◌, String, str_eq, Bool, true, false, not, ◌&&◌, ◌||◌, Option, none, some, List, [], ◌∷◌,
  ◌++◌, is_some, if◌then◌else◌,
}
use zgent.Common.Dict.{get, put}
use zgent.Common.Exec.{
  Exec, Error, Result, ok, err, value_error, file_not_found, ◌>>=◌, ◌>>◌, pure, raise, lift, gets,
  modify, try_or_none, os_or_value_error, is_runtime_error,
}
use zgent.Externals.{Externals}
use zgent.Fsm.{
  Status, Event, approve, approve_invalidated, reject as reject_event, apply_failed,
  apply_ok_no_smoke, retry_started, retry_succeeded, retry_aborted, awaiting_approval,
  retry_running,
}
use zgent.Jobs.Models.{
  JobStatus, succeeded, failed, cancelled, interrupted, running, starting,
  job_started as started_type, job_succeeded, job_failed, job_cancelled, job_interrupted,
  JobEventType, JobRecord, AttemptRecord, JobEvent, JobSpec,
}
use zgent.Jobs.Store.{read_spec, read_attempt}
use zgent.Jobs.EventStore.{find_attempt_event}
use zgent.Jobs.Supervisor.{Callback, retry}
use zgent.Jobs.Monitor.{wait}
use zgent.Incidents.Models.{Incident, Proposal, PatchReceipt, SmokeVerifierConfig}
use zgent.Incidents.Patches.{Patches}
use zgent.Incidents.Smoke.{smoke_verifier_fingerprint}
use zgent.Incidents.Store.{read_incident, write_receipt}
use zgent.Incidents.Coordinator.{find_incident, dispatch, can_apply}
use zgent.Incidents.Coordinator.SmokeTest.{Answers, on_tree, run_smoke}
use zgent.World.{
  World, M, now, publish, spawn, job_started, job_finished, observe_retry as observe_task,
  incident_files,
}

pub data Decision : Type 0 where
  approved rejected : Decision

unfoldable pub is_awaiting : Status → Bool
is_awaiting awaiting_approval = true
is_awaiting _ = false

is_retrying : Status → Bool
is_retrying retry_running = true
is_retrying _ = false

unfoldable pub same_text : Option String → Option String → Bool
same_text none none = true
same_text (some a) (some b) = str_eq a b
same_text _ _ = false

is_running : JobStatus → Bool
is_running running = true
is_running _ = false

is_succeeded : JobStatus → Bool
is_succeeded succeeded = true
is_succeeded _ = false

is_stopped : JobStatus → Bool
is_stopped cancelled = true
is_stopped interrupted = true
is_stopped _ = false

is_failed : JobStatus → Bool
is_failed failed = true
is_failed _ = false

-- incident.active_proposal_id != proposal_id or incident.proposal is None, negated
unfoldable pub active_proposal : Incident → String → Option Proposal
unfolding same_text
active_proposal i p = if same_text i.active_proposal_id (some p) then i.proposal else none

-- cast(JobEventType, f"job.{job.status}"); no event is named after the two active statuses
event_of : JobStatus → Option JobEventType
event_of succeeded = some job_succeeded
event_of failed = some job_failed
event_of cancelled = some job_cancelled
event_of interrupted = some job_interrupted
event_of starting = none
event_of running = none

module _ (x : Externals) (patches : Patches) (callback : Callback) where
  announce_started : JobRecord → JobSpec → String → Option JobEvent → M (Unit {0})
  announce_started job spec a none = pure tt
  announce_started job spec a (some e) =
      publish (job_started e.seq job.id a spec.argv spec.workspace_root)

  pub announce_retry : JobRecord → JobSpec → Option String → M (Unit {0})
  unfolding announce_started is_running
  announce_retry job spec none = pure tt
  announce_retry job spec (some a) =
      if is_running job.status
      then (do e ← find_attempt_event x job.id a started_type; announce_started job spec a e)
      else pure tt

  retried : String → String → JobSpec → Option JobRecord → M Status
  unfolding announce_retry
  retried j k spec none = do i ← dispatch j k retry_aborted; pure i.status
  retried j k spec (some job) = do
    announce_retry job spec job.current_attempt_id
    spawn (observe_task j k)
    i ← read_incident j k
    pure i.status

  -- The retry of the original command, at a workspace that holds the patch.
  start_retry : String → String → String → JobSpec → Answers → M Status
  unfolding retried
  start_retry j k job_id spec answers = do
    i ← dispatch j k retry_started
    job ← try_or_none is_runtime_error (retry x callback job_id answers.spawned)
    retried j i.id spec job

  smoke_and_retry : String → Incident → String → JobSpec → Answers → Bool → M Status
  unfolding start_retry
  smoke_and_retry j i p spec answers with_smoke =
      if with_smoke
      then (do
        passed ← run_smoke patches j i p answers
        if passed
            then start_retry j i.id i.job_id spec answers
            else do after ← read_incident j i.id; pure after.status)
      else (do
        skipped ← dispatch j i.id apply_ok_no_smoke
        start_retry j skipped.id i.job_id spec answers)

  applied : String → Incident → String → JobSpec → Answers → Bool → Option PatchReceipt → M Status
  unfolding smoke_and_retry
  applied j i p spec answers with_smoke none = do
    stale ← dispatch j i.id apply_failed
    pure stale.status
  applied j i p spec answers with_smoke (some receipt) = do
    write_receipt j i.id receipt
    current ← read_incident j i.id
    smoke_and_retry j current p spec answers with_smoke

  carry_out : String → Incident → Proposal → String → JobSpec → Answers → Bool → M Status
  unfolding applied
  carry_out j i proposal p spec answers with_smoke = do
    approving ← dispatch j i.id approve
    t ← now
    diff ← gets (λ w. (incident_files w j proposal.incident_id).diff)
    receipt ←
        try_or_none os_or_value_error (on_tree spec.workspace_root (patches.apply t proposal diff))
    applied j approving p spec answers with_smoke receipt

  observed : Option SmokeVerifierConfig → Option String
  observed none = none
  observed (some config) = some (smoke_verifier_fingerprint x config)

  approve_checked :
      String → Incident → Proposal → String → Bool → Option String → JobSpec → Answers → M Status
  unfolding carry_out observed
  approve_checked j i proposal p want_smoke fingerprint spec answers =
      if want_smoke
      then (do
        config ← lift answers.verifier
        if same_text (observed config) fingerprint
            then carry_out j i proposal p spec answers (is_some config)
            else (do stale ← dispatch j i.id approve_invalidated; pure stale.status))
      else carry_out j i proposal p spec answers false

  decided :
      String
      → Incident
      → String
      → Decision
      → Bool
      → Option String
      → Answers
      → Option Proposal
      → M Status
  unfolding approve_checked
  decided j i p decision want_smoke fingerprint answers none = raise value_error
  decided j i p rejected want_smoke fingerprint answers (some proposal) = do
    closed ← dispatch j i.id reject_event
    pure closed.status
  decided j i p approved want_smoke fingerprint answers (some proposal) = do
    applicable ← can_apply i
    if not applicable then raise value_error else do
      spec ← read_spec i.job_id
      approve_checked j i proposal p want_smoke fingerprint spec answers

  -- decide
  unfoldable pub decide :
      String → String → Decision → (run_smoke : Bool) → Option String → Answers → M Status
  unfolding decided
  decide incident_id p decision want_smoke fingerprint answers = do
    (j, found) ← find_incident incident_id
    i ← read_incident j incident_id
    if not (is_awaiting i.status)
        then pure i.status
        else decided j i p decision want_smoke fingerprint answers (active_proposal i p)

  pub read_current : String → Option String → M (Option AttemptRecord)
  read_current job_id none = pure none
  read_current job_id (some a) = do attempt ← read_attempt job_id a; pure (some attempt)

  find_final : JobRecord → String → Option JobEventType → M (Option JobEvent)
  find_final job a none = pure none
  find_final job a (some type) = find_attempt_event x job.id a type

  publish_final : JobRecord → AttemptRecord → Option JobEvent → M (Unit {0})
  publish_final job a none = pure tt
  publish_final job a (some e) =
      publish (job_finished e.seq job.id a.id job.status a.returncode a.signal)

  pub announce_final : JobRecord → Option AttemptRecord → M (Unit {0})
  unfolding find_final publish_final event_of
  announce_final job none = pure tt
  announce_final job (some a) = do
    e ← find_final job a.id (event_of job.status)
    publish_final job a e

  has_code : Option AttemptRecord → Bool
  has_code none = false
  has_code (some a) = is_some a.returncode

  settle : String → Incident → JobStatus → Bool → M (Unit {0})
  unfolding is_retrying is_succeeded is_stopped is_failed
  settle j i status coded =
      if is_succeeded status && is_retrying i.status
      then (do dispatch j i.id retry_succeeded; pure tt)
      else if is_stopped status && is_retrying i.status
          || is_failed status && not coded && is_retrying i.status
      then (do dispatch j i.id retry_aborted; pure tt)
      else pure tt

  -- _observe_retry
  unfoldable pub observe_retry : String → String → M (Unit {0})
  unfolding read_current announce_final has_code settle
  observe_retry j k = do
    i ← read_incident j k
    job ← wait i.job_id
    attempt ← read_current job.id job.current_attempt_id
    announce_final job attempt
    current ← read_incident j k
    settle j current job.status (has_code attempt)
