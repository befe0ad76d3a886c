-- ===== src/Incidents/Coordinator.antt =====
-- IncidentCoordinator (cyan/training/incidents/coordinator.py): what its handlers share. A store is
-- named by its job. The handlers that change one incident exclude one another, by its decision
-- lock or by its status, so each is one action here; what happens outside (processes, Git, the
-- model) is an argument.
pub mod Diagnosing
pub mod Running
pub mod SmokeTest
pub mod Deciding
pub mod Recovering
pub mod Paths
pub mod Returns
pub mod Trees
use Prim.Native.String.{◌++◌ as str_append}
use zgent.Common.{
  ℕ, String, str_eq, Bool, true, false, not, ◌&&◌, ◌||◌, Option, none, some, List, [], ◌∷◌, ◌++◌,
  is_some, if◌then◌else◌,
}
use zgent.Common.Exec.{
  Exec, Error, Result, ok, err, key_error, value_error, ◌>>=◌, ◌>>◌, pure, raise, lift, gets,
  modify, try_or_none, os_or_value_error,
}
use zgent.Fsm.{Status, Event, transition}
use zgent.Jobs.Models.{JobRecord, FailureRecord, FailureCapsule}
use zgent.Jobs.Store.{list_jobs, read_failure}
use zgent.Incidents.Models.{Incident, Outcome, RunTrigger}
use zgent.Incidents.Store.{read_incident, update_incident, list_incidents, create_run, RunFields}
use zgent.Incidents.Store.Names.{validate_id}
use zgent.World.{
  World, M, Stored, missing, malformed, stored, snapshot, publish, spawn, incident_status_changed,
  Task, run_diagnosis,
}

is_there : Stored Incident → Bool
is_there missing = false
is_there malformed = true
is_there (stored i) = true

find_in : List JobRecord → String → M (String × Incident)
unfolding is_there
find_in [] k = raise key_error
find_in (job ∷ rest) k = do
  lift (validate_id k)
  exists ← gets (λ w. is_there (snapshot w job.id k))
  let others = find_in rest k
  if exists then (do i ← read_incident job.id k; pure (job.id, i)) else others

-- _find_incident
unfoldable pub find_incident : String → M (String × Incident)
unfolding find_in
find_incident k = do jobs ← list_jobs; find_in jobs k

first_of_list : List Incident → Option Incident
first_of_list [] = none
first_of_list (i ∷ rest) = some i

-- _latest_incident
unfoldable pub latest_incident : String → M (Option Incident)
unfolding first_of_list
latest_incident j = do incidents ← list_incidents j; pure (first_of_list incidents)

-- _set_status: store, then publish
unfoldable pub set_status : String → String → Status → M Incident
set_status j k status = do
  i ← update_incident j k (λ current. record current { status = status })
  publish (incident_status_changed i.job_id i.id status)
  pure i

-- _dispatch: check against the state machine, then store and publish
unfoldable pub dispatch : String → String → Event → M Incident
dispatch j k event = do
  current ← read_incident j k
  next ← lift (transition current.status event)
  set_status j k next

valid_capsule : Option FailureCapsule → Result FailureCapsule
valid_capsule none = err value_error
valid_capsule (some c) = ok c

-- The failure capsule of an incident, None where it cannot be read.
unfoldable pub read_capsule : String → String → M (Option FailureCapsule)
unfolding valid_capsule
read_capsule j a =
    try_or_none os_or_value_error
      do failure ← read_failure j a; lift (valid_capsule failure.capsule)

in_git : Option FailureCapsule → Bool
in_git none = false
in_git (some c) = is_some c.git_head

-- _can_apply
unfoldable pub can_apply : Incident → M Bool
unfolding in_git
can_apply i =
    if not (is_some i.diagnosis) || not (is_some i.proposal)
    then pure false
    else do capsule ← read_capsule i.job_id i.attempt_id; pure (in_git capsule)

-- _previous_outcome: `result or None`
unfoldable pub previous_outcome : Incident → Option Outcome
previous_outcome i =
    if is_some i.diagnosis || is_some i.proposal || is_some i.smoke_result
    then some
        (record { diagnosis = i.diagnosis; proposal = i.proposal; smoke_result = i.smoke_result })
    else none

-- The keyword arguments of _start_run.
pub record RunOptions : Type 0 where
  pub attempt_id : Option String
  pub previous : Option Outcome
  pub smoke_proposal_id : Option String
  pub smoke_stdout_sha256 : Option String
  pub smoke_stderr_sha256 : Option String

abbrev pub no_options : RunOptions
no_options = record {
  attempt_id = none;
  previous = none;
  smoke_proposal_id = none;
  smoke_stdout_sha256 = none;
  smoke_stderr_sha256 = none;
}

-- a or b, at texts
or_own : Option String → String → String
or_own none own = own
or_own (some a) own = if str_eq a "" then own else a

or_previous : Option Outcome → Incident → Option Outcome
unfolding previous_outcome
or_previous none i = previous_outcome i
or_previous (some o) i = some o

-- _start_run: run.json first, then the incident, then the task; `hex` is the random part of the id
unfoldable pub start_run :
    String → Incident → RunTrigger → String → RunOptions → (hex : String) → M String
unfolding or_own or_previous
start_run j i trigger instruction o hex = do
  let run_id = str_append "run-" hex
  create_run j i.id run_id trigger instruction (record {
    attempt_id = some (or_own o.attempt_id i.attempt_id);
    previous_outcome_summary = or_previous o.previous i;
    smoke_proposal_id = o.smoke_proposal_id;
    smoke_stdout_sha256 = o.smoke_stdout_sha256;
    smoke_stderr_sha256 = o.smoke_stderr_sha256;
  })
  update_incident j i.id
      (λ current. record current { active_run_id = some run_id; last_outcome = none })
  spawn (run_diagnosis j i.id run_id)
  pure run_id
