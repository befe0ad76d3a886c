-- ===== src/Incidents/Coordinator/Diagnosing.antt =====
-- What starts an investigation (coordinator.py: _persist_capsule, handle_failure, follow_up).
pub mod Paths
use Prim.Native.String.{◌++◌ as str_append}
use zgent.Common.{
  ℕ, ◌+◌, String, str_eq, Bool, true, false, not, ◌&&◌, ◌||◌, Option, none, some, List, [], ◌∷◌,
  ◌++◌, is_some, if◌then◌else◌,
}
use zgent.Common.Dict.{get}
use zgent.Common.Exec.{
  Exec, Error, Result, ok, err, value_error, ◌>>=◌, ◌>>◌, pure, raise, lift, gets, modify,
  try_or_none, os_or_value_error,
}
use zgent.Externals.{Externals}
use zgent.Fsm.{
  Status, Event, accepts, investigation_done, investigation_failed, retry_failed,
  follow_up as follow_up_event, diagnosing, retry_running,
}
use zgent.Jobs.Models.{
  FailureKind, process_exit, JobRecord, AttemptRecord, FailureRecord, FailureCapsule, stdout,
  stderr,
}
use zgent.Jobs.Store.{attempt_files, write_failure, read_log_file}
use zgent.Jobs.Supervisor.{is_exit}
use zgent.Incidents.Evidence.{Surroundings, build_failure_capsule}
use zgent.Incidents.Models.{
  Incident, Diagnosis, Proposal, CausalSupport, RunTrigger, RunStatus, IncidentRun,
  SelectedEvidence,
}
use zgent.Incidents.Smoke.{SmokeSelection, select_smoke_evidence, smoke_evidence_bytes}
use zgent.Incidents.Store.{
  read_incident, write_incident, update_incident, clear_agent_artifacts, read_run, update_run,
  write_diagnosis, write_proposal, clear_proposal,
}
use zgent.Incidents.Coordinator.{
  latest_incident, find_incident, dispatch, previous_outcome, read_capsule, start_run, RunOptions,
  no_options,
}
use zgent.World.{
  World, M, Bytes, Stored, stored, now, publish, incident_opened, patch_proposed, incident_files,
  snapshot,
}

-- _persist_capsule
persist_capsule : Externals → Surroundings → FailureRecord → M FailureCapsule
persist_capsule x around failure = do
  capsule ← build_failure_capsule x around failure
  write_failure (record failure { capsule = some capsule })
  pure capsule

failure_path : String → String → String
failure_path j a = str_append j (str_append "/attempts/" (str_append a "/failure.json"))

is_status_retry_running : Status → Bool
is_status_retry_running retry_running = true
is_status_retry_running _ = false

-- The random parts of the ids that a handler makes.
pub record Fresh : Type 0 where
  pub incident_hex : String
  pub run_hex : String

-- The retry of a patched command failed: the same incident is investigated again.
reinvestigate : String → String → String → Fresh → M (Unit {0})
unfolding failure_path
reinvestigate j k attempt_id fresh = do
  current ← read_incident j k
  let moved = record current { attempt_id = attempt_id; failure_path = failure_path j attempt_id }
  let previous = previous_outcome moved
  write_incident j moved
  clear_agent_artifacts j moved.id
  cleared ← read_incident j moved.id
  diagnosed ← dispatch j cleared.id retry_failed
  start_run j diagnosed RunTrigger.retry_failed
      "The patched full training command failed. Reinvestigate this same incident."
      (record no_options { attempt_id = some attempt_id; previous = previous }) fresh.run_hex
  pure tt

new_incident : String → JobRecord → AttemptRecord → FailureCapsule → ℕ → ℕ → Incident
unfolding failure_path
new_incident hex job attempt capsule t u = record {
  id = str_append "inc-" hex;
  job_id = job.id;
  attempt_id = attempt.id;
  workspace_root = capsule.cwd;
  failure_path = failure_path job.id attempt.id;
  status = diagnosing;
  active_run_id = none;
  active_proposal_id = none;
  diagnosis = none;
  proposal = none;
  apply_receipt = none;
  smoke_execution = none;
  smoke_result = none;
  last_outcome = none;
  created_at = t;
  updated_at = u;
}

open_incident : JobRecord → AttemptRecord → FailureCapsule → Fresh → M (Unit {0})
unfolding new_incident
open_incident job attempt capsule fresh = do
  t ← now
  u ← now
  let i = new_incident fresh.incident_hex job attempt capsule t u
  write_incident job.id i
  publish (incident_opened job.id i.id attempt.id)
  start_run job.id i RunTrigger.initial
      "Investigate this real failed training process and submit an evidence-based diagnosis."
      no_options fresh.run_hex
  pure tt

respond : JobRecord → AttemptRecord → FailureCapsule → Fresh → Option Incident → M (Unit {0})
unfolding is_status_retry_running reinvestigate open_incident
respond job attempt capsule fresh none = open_incident job attempt capsule fresh
respond job attempt capsule fresh (some latest) =
    if str_eq latest.attempt_id attempt.id
    then pure tt
    else if is_status_retry_running latest.status
    then reinvestigate job.id latest.id attempt.id fresh
    else open_incident job attempt capsule fresh

-- handle_failure
unfoldable pub handle_failure :
    Externals → Surroundings → Fresh → JobRecord → AttemptRecord → FailureRecord → M (Unit {0})
unfolding persist_capsule respond
handle_failure x around fresh job attempt failure =
    if not (is_exit failure.kind) then pure tt else do
      capsule ← persist_capsule x around failure
      latest ← latest_incident job.id
      respond job attempt capsule fresh latest

-- follow_up
unfoldable pub follow_up : String → String → (run_hex : String) → M String
follow_up incident_id content run_hex = do
  (j, found) ← find_incident incident_id
  i ← read_incident j found.id
  if not (accepts i.status follow_up_event) then raise value_error else do
    let previous = previous_outcome i
    clear_agent_artifacts j i.id
    cleared ← read_incident j i.id
    moved ← dispatch j cleared.id follow_up_event
    current ← read_incident j moved.id
    start_run j current RunTrigger.follow_up content (record no_options { previous = previous })
        run_hex
