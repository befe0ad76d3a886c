-- ===== src/Incidents/Coordinator/Recovering.antt =====
-- After a daemon restart (coordinator.py: _recover_smoke, _resume_active_run, recover).
use Prim.Native.String.{◌++◌ as str_append}
use zgent.Common.{
  ℕ, ◌-◌, String, str_eq, Bool, true, false, not, ◌&&◌, Option, none, some, List, [], ◌∷◌, any,
  if◌then◌else◌,
}
use zgent.Common.Exec.{◌>>=◌, ◌>>◌, pure, lift, try_or_none, os_or_value_error}
use zgent.Externals.{Externals}
use zgent.Fsm.{
  Status, recover_action, quarantine, RecoveryAction, diagnosing, retry_running, unresolved,
  resolved,
}
use zgent.Jobs.Models.{
  JobStatus, succeeded, failed, starting, running, JobRecord, AttemptRecord, FailureRecord,
}
use zgent.Jobs.Store.{list_jobs, read_attempt, read_failure}
use zgent.Jobs.Supervisor.{is_exit}
use zgent.Incidents.Evidence.{Surroundings}
use zgent.Incidents.Models.{
  Incident, Proposal, SmokeStatus, SmokeExecution, RunTrigger, RunStatus, IncidentRun,
}
use zgent.Incidents.Store.{
  update_incident, list_incidents, read_run, update_run, write_smoke_execution, write_smoke_result,
}
use zgent.Incidents.Store.Names.{validate_id}
use zgent.Incidents.Coordinator.{set_status, start_run, no_options}
use zgent.Incidents.Coordinator.SmokeTest.{smoke_path}
use zgent.Incidents.Coordinator.Diagnosing.{Fresh, handle_failure}
use zgent.World.{M, now, spawn, run_diagnosis}

-- What the outside contributes to a recovery.
pub record Restart : Type 0 where
  pub around : Surroundings
  pub fresh : Fresh
  -- terminate_owned_process_group(pid, process_identity)
  pub terminated : ℕ → String → Bool
  pub run_hex : String

-- The log paths of a smoke run, also of one from before logs belonged to a proposal.
paths_for : Incident → Option Proposal → M (String × String)
paths_for i none = do
  lift (validate_id i.id)
  pure (str_append i.id "/smoke.stdout.log", str_append i.id "/smoke.stderr.log")
paths_for i (some p) = do
  lift (validate_id p.id)
  lift (validate_id i.id)
  pure (smoke_path i.id p.id "stdout.log", smoke_path i.id p.id "stderr.log")

smoke_paths : Incident → M (String × String)
unfolding paths_for
smoke_paths i = paths_for i i.proposal

-- _recover_smoke
unfoldable pub recover_smoke : Restart → String → Incident → SmokeExecution → M (Unit {0})
unfolding smoke_paths
recover_smoke restart j i e =
    if not (restart.terminated e.pid e.process_identity) then pure tt else do
      finished ← now
      write_smoke_execution j i.id
          (record e { status = SmokeStatus.interrupted; finished_at = some finished })
      (out_path, error_path) ← smoke_paths i
      write_smoke_result j i.id (record {
        status = SmokeStatus.interrupted;
        returncode = none;
        elapsed_ms = finished - e.started_at;
        stdout_path = out_path;
        stderr_path = error_path;
      })
      set_status j i.id unresolved
      pure tt

restart_run : String → Incident → IncidentRun → M Bool
restart_run j i run = do spawn (run_diagnosis j i.id run.run_id); pure true

-- run.status in {"prepared", "running"}
is_resumable : RunStatus → Bool
is_resumable RunStatus.prepared = true
is_resumable RunStatus.running = true
is_resumable _ = false

is_started : RunStatus → Bool
is_started RunStatus.running = true
is_started _ = false

resume_run : String → Incident → Option IncidentRun → M Bool
unfolding restart_run is_resumable is_started
resume_run j i none = pure false
resume_run j i (some run) =
    if not (is_resumable run.status)
    then pure false
    else if is_started run.status
    then (do
      update_run j i.id run.run_id (λ current. record current { status = RunStatus.prepared })
      restart_run j i run)
    else restart_run j i run

resume_named : String → Incident → Option String → M Bool
unfolding resume_run
resume_named j i none = pure false
resume_named j i (some r) = do
  run ← try_or_none os_or_value_error (read_run j i.id r)
  resume_run j i run

-- _resume_active_run
unfoldable pub resume_active_run : String → Incident → M Bool
unfolding resume_named
resume_active_run j i = resume_named j i i.active_run_id

is_running : SmokeStatus → Bool
is_running SmokeStatus.running = true
is_running _ = false

running_smoke : Incident → Option SmokeExecution
running_smoke i = elim i.smoke_execution [
  | none ↦ none
  | some e ↦ if is_running e.status then some e else none
]

is_quarantined : RecoveryAction → Bool
is_quarantined quarantine = true
is_quarantined _ = false

-- The incidents that a restart leaves to their user or to the end: no branch of recover is taken.
reconcile_incident : Restart → String → JobStatus → Incident → Status → M (Unit {0})
reconcile_incident restart j job i diagnosing = do
  resumed ← resume_active_run j i
  if resumed then pure tt else do
    start_run j i RunTrigger.recovery "Resume the interrupted incident investigation." no_options
        restart.run_hex
    pure tt
reconcile_incident restart j succeeded i retry_running = do set_status j i.id resolved; pure tt
reconcile_incident restart j starting i retry_running = pure tt
reconcile_incident restart j running i retry_running = pure tt
reconcile_incident restart j _ i retry_running = do set_status j i.id unresolved; pure tt
reconcile_incident restart j job i _ = pure tt

unfoldable pub recover_incident :
    Restart → String → JobStatus → Incident → Option SmokeExecution → M (Unit {0})
unfolding is_quarantined reconcile_incident
recover_incident restart j job i (some e) = recover_smoke restart j i e
recover_incident restart j job i none =
    if is_quarantined (recover_action i.status)
    then (do
      update_incident j i.id (λ current. record current { active_proposal_id = none })
      set_status j i.id unresolved
      pure tt)
    else reconcile_incident restart j job i i.status

recover_incidents : Restart → String → JobStatus → List Incident → M (Unit {0})
unfolding running_smoke is_running
recover_incidents restart j job [] = pure tt
recover_incidents restart j job (i ∷ rest) = do
  recover_incident restart j job i (running_smoke i)
  recover_incidents restart j job rest

is_failed : JobStatus → Bool
is_failed failed = true
is_failed _ = false

covers : String → Incident → Bool
covers a i = str_eq i.attempt_id a

module _ (x : Externals) (restart : Restart) where
  read_both : JobRecord → String → M (AttemptRecord × FailureRecord)
  read_both job a = do
    attempt ← read_attempt job.id a
    failure ← read_failure job.id a
    pure (attempt, failure)

  reopen : JobRecord → List Incident → Option (AttemptRecord × FailureRecord) → M (List Incident)
  reopen job incidents none = pure incidents
  reopen job incidents (some (attempt, failure)) =
      if is_exit failure.kind
      then (do
        handle_failure x restart.around restart.fresh job attempt failure
        list_incidents job.id)
      else pure incidents

  -- A failed attempt that no incident covers is handled as if it had just failed.
  catch_up : JobRecord → List Incident → Option String → M (List Incident)
  unfolding read_both reopen is_failed covers
  catch_up job incidents none = pure incidents
  catch_up job incidents (some a) =
      if is_failed job.status && not (str_eq a "") && not (any (covers a) incidents)
      then (do both ← try_or_none os_or_value_error (read_both job a); reopen job incidents both)
      else pure incidents

  recover_job : JobRecord → M (Unit {0})
  unfolding catch_up recover_incidents
  recover_job job = do
    incidents ← list_incidents job.id
    current ← catch_up job incidents job.current_attempt_id
    recover_incidents restart job.id job.status current

  recover_jobs : List JobRecord → M (Unit {0})
  unfolding recover_job
  recover_jobs [] = pure tt
  recover_jobs (job ∷ rest) = do recover_job job; recover_jobs rest

  -- recover
  unfoldable pub recover : M (Unit {0})
  unfolding recover_jobs
  recover = do jobs ← list_jobs; recover_jobs jobs
