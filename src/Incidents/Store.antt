-- ===== src/Incidents/Store.antt =====
-- IncidentStore (cyan/training/incidents/store.py). A store is named by the job that owns it. An
-- update reads, changes and writes the whole snapshot, as the code does; a write goes to the
-- directory of the snapshot's own id.
pub mod Names
pub mod Frames
pub mod Trees
use zgent.Common.{
  ℕ, String, Bool, true, false, Option, none, some, List, [], ◌∷◌, ◌++◌, map, str_eq, if◌then◌else◌,
}
use zgent.Common.Dict.{Dict, get, put, values}
use zgent.Common.Exec.{
  Exec, Result, ok, err, value_error, file_not_found, ◌>>=◌, ◌>>◌, pure, lift, gets, modify,
}
use zgent.Common.Sort.{latest_first}
use zgent.Incidents.Models.{
  Incident, Diagnosis, Proposal, PatchReceipt, SmokeResult, SmokeExecution, RunTrigger, Outcome,
  IncidentRun, RunStatus,
}
use zgent.World.{
  Stored, missing, malformed, stored, IncidentFiles, World, M, now, incident_dirs, incident_files,
  set_incident_files, snapshot,
}
use Names.{validate_id}

loaded : Stored Incident → Result Incident
loaded missing = err file_not_found
loaded malformed = err value_error
loaded (stored i) = ok i

-- read_incident
unfoldable pub read_incident : String → String → M Incident
unfolding loaded
read_incident j k = do lift (validate_id k); found ← gets (λ w. snapshot w j k); lift (loaded found)

-- write_incident
unfoldable pub write_incident : String → Incident → M (Unit {0})
write_incident j i = do
  lift (validate_id i.id)
  modify
      (λ w. set_incident_files w j i.id (record (incident_files w j i.id) { snapshot = stored i }))

-- update_incident: the mutator is a function on the snapshot
unfoldable pub update_incident : String → String → (Incident → Incident) → M Incident
update_incident j k mutator = do
  i ← read_incident j k
  t ← now
  let changed = record (mutator i) { updated_at = t }
  write_incident j changed
  pure changed

unfoldable pub set_run : String → String → String → IncidentRun → World → World
set_run j k r run w =
    let fs = incident_files w j k in
    set_incident_files w j k (record fs { runs = put fs.runs r run })

-- write of runs/<run_id>/run.json
unfoldable pub write_run : String → String → String → IncidentRun → M (Unit {0})
unfolding set_run
write_run j k r run = do lift (validate_id r); lift (validate_id k); modify (set_run j k r run)

unfoldable pub own_attempt : String → String → M String
own_attempt j k = do i ← read_incident j k; pure i.attempt_id

-- attempt_id or self.read_incident(incident_id).attempt_id
unfoldable pub or_attempt : String → String → Option String → M String
or_attempt j k (some a) = if str_eq a "" then own_attempt j k else pure a
or_attempt j k none = own_attempt j k

-- The optional arguments of create_run.
pub record RunFields : Type 0 where
  pub attempt_id : Option String
  pub previous_outcome_summary : Option Outcome
  pub smoke_proposal_id : Option String
  pub smoke_stdout_sha256 : Option String
  pub smoke_stderr_sha256 : Option String

new_run : String → String → RunTrigger → String → RunFields → ℕ → IncidentRun
new_run r attempt trigger instruction o t = record {
  run_id = r;
  attempt_id = attempt;
  trigger = trigger;
  instruction = instruction;
  smoke_proposal_id = o.smoke_proposal_id;
  smoke_stdout_sha256 = o.smoke_stdout_sha256;
  smoke_stderr_sha256 = o.smoke_stderr_sha256;
  status = RunStatus.prepared;
  selected_evidence = [];
  stdout_sha256 = none;
  stderr_sha256 = none;
  previous_outcome_summary = o.previous_outcome_summary;
  initial_input_bytes = 0;
  peak_input_bytes = 0;
  budget_exhausted = false;
  scanned_bytes = 0;
  selected_bytes = 0;
  duplicates_removed = 0;
  diagnosis = none;
  proposal = none;
  reason = none;
  created_at = t;
  updated_at = t;
}

-- create_run
unfoldable pub create_run :
    String → String → String → RunTrigger → String → RunFields → M IncidentRun
unfolding or_attempt new_run write_run
create_run j k r trigger instruction o = do
  t ← now
  attempt ← or_attempt j k o.attempt_id
  let run = new_run r attempt trigger instruction o t
  write_run j k r run
  pure run

found_run : Option IncidentRun → Result IncidentRun
found_run none = err file_not_found
found_run (some run) = ok run

-- read_run
unfoldable pub read_run : String → String → String → M IncidentRun
unfolding found_run
read_run j k r = do
  lift (validate_id r)
  lift (validate_id k)
  found ← gets (λ w. get (incident_files w j k).runs r)
  lift (found_run found)

-- update_run
unfoldable pub update_run : String → String → String → (IncidentRun → IncidentRun) → M IncidentRun
unfolding write_run
update_run j k r mutator = do
  run ← read_run j k r
  t ← now
  let changed = record (mutator run) { updated_at = t }
  write_run j k r changed
  pure changed

-- write_diagnosis
unfoldable pub write_diagnosis : String → Diagnosis → M Incident
write_diagnosis j d = update_incident j d.incident_id (λ i. record i { diagnosis = some d })

unfoldable pub set_diff : String → String → Option String → World → World
set_diff j k patch w = set_incident_files w j k (record (incident_files w j k) { diff = patch })

-- write_proposal: first the diff, then the metadata
unfoldable pub write_proposal : String → Proposal → String → M Incident
unfolding set_diff
write_proposal j p patch = do
  lift (validate_id p.incident_id)
  modify (set_diff j p.incident_id (some patch))
  update_incident j p.incident_id (λ i. record i { proposal = some p })

-- clear_proposal: first the metadata, then the diff
unfoldable pub clear_proposal : String → String → M (Unit {0})
unfolding set_diff
clear_proposal j k = do
  update_incident j k (λ i. record i { proposal = none })
  modify (set_diff j k none)

found_patch : Option String → Result String
found_patch none = err file_not_found
found_patch (some patch) = ok patch

-- read_patch
unfoldable pub read_patch : String → Proposal → M String
unfolding found_patch
read_patch j p = do
  lift (validate_id p.incident_id)
  found ← gets (λ w. (incident_files w j p.incident_id).diff)
  lift (found_patch found)

-- write_receipt, write_smoke_result, write_smoke_execution
unfoldable pub write_receipt : String → String → PatchReceipt → M Incident
write_receipt j k receipt = update_incident j k (λ i. record i { apply_receipt = some receipt })

unfoldable pub write_smoke_result : String → String → SmokeResult → M Incident
write_smoke_result j k result = update_incident j k (λ i. record i { smoke_result = some result })

unfoldable pub write_smoke_execution : String → String → SmokeExecution → M Incident
write_smoke_execution j k execution =
    update_incident j k (λ i. record i { smoke_execution = some execution })

-- clear_agent_artifacts
unfoldable pub clear_agent_artifacts : String → String → M (Unit {0})
unfolding set_diff
clear_agent_artifacts j k = do
  update_incident j k
      (λ i. record i { diagnosis = none; proposal = none; active_proposal_id = none })
  modify (set_diff j k none)

readable : List IncidentFiles → List Incident
readable [] = []
readable (fs ∷ rest) = elim fs.snapshot [
  | missing ↦ readable rest
  | malformed ↦ readable rest
  | stored i ↦ i ∷ readable rest
]

-- list_incidents: unreadable snapshots are left out, the latest update comes first
unfoldable pub list_incidents : String → M (List Incident)
unfolding readable
list_incidents j =
    gets
      (λ w. latest_first (λ (i : Incident). i.updated_at) (readable (values (incident_dirs w j))))
