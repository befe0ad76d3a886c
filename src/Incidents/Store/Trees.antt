-- ===== src/Incidents/Store/Trees.antt =====
-- The operations of the incident store leave the workspaces alone.
use zgent.Common.{String, refl, ap, Option, none, some}
use zgent.Common.Dict.{Dict}
use zgent.Common.Exec.{modify}
use zgent.World.{World, M, Tree, BusEvent, Task, now, publish, spawn, set_incident_files}
use zgent.World.Leaves.{Leaves, Leaves-modify, leaves_rules}
use zgent.Jobs.Apart.{apart, now-apart}
use zgent.Incidents.Models.{Incident, IncidentRun, RunTrigger, Diagnosis, Proposal}
use zgent.Incidents.Store.{
  read_incident, write_incident, update_incident, clear_agent_artifacts, set_diff, set_run,
  write_run, own_attempt, or_attempt, create_run, read_run, update_run, write_diagnosis,
  write_proposal, clear_proposal, RunFields, list_incidents,
}

abbrev pub trees : World → Dict Tree
trees w = w.trees

pub trees-apart : {A : Type 0} (m : M A) → Leaves apart m → Leaves trees m
trees-apart m l = record { at = λ w. ap (λ a. a.trees) (l.at w) }

pub now-trees : Leaves trees now
now-trees = trees-apart now now-apart

pub publish-trees : (e : BusEvent) → Leaves trees (publish e)
unfolding publish
publish-trees e = record { at = λ w. refl }

pub spawn-trees : (t : Task) → Leaves trees (spawn t)
unfolding spawn
spawn-trees t = record { at = λ w. refl }

ruleset trees_rules = (leaves_rules, Leaves-modify, now-trees, publish-trees, spawn-trees)

pub read_incident-trees : (j k : String) → Leaves trees (read_incident j k)
unfolding read_incident
read_incident-trees j k = search trees_rules

pub write_incident-trees : (j : String) (i : Incident) → Leaves trees (write_incident j i)
unfolding write_incident set_incident_files
write_incident-trees j i = search trees_rules

pub update_incident-trees :
    (j k : String) (f : Incident → Incident) → Leaves trees (update_incident j k f)
unfolding update_incident
update_incident-trees j k f = search (trees_rules, read_incident-trees, write_incident-trees)

pub set_diff-trees : (j k : String) (d : Option String) → Leaves trees (modify (set_diff j k d))
unfolding set_diff set_incident_files modify
set_diff-trees j k d = record { at = λ w. refl }

pub clear_agent_artifacts-trees : (j k : String) → Leaves trees (clear_agent_artifacts j k)
unfolding clear_agent_artifacts
clear_agent_artifacts-trees j k = search (leaves_rules, update_incident-trees, set_diff-trees)

pub write_run-trees : (j k r : String) (run : IncidentRun) → Leaves trees (write_run j k r run)
unfolding write_run set_run set_incident_files
write_run-trees j k r run = search trees_rules

pub own_attempt-trees : (j k : String) → Leaves trees (own_attempt j k)
unfolding own_attempt
own_attempt-trees j k = search (trees_rules, read_incident-trees)

pub or_attempt-trees : (j k : String) (a : Option String) → Leaves trees (or_attempt j k a)
unfolding or_attempt
or_attempt-trees j k none = own_attempt-trees j k
or_attempt-trees j k (some a) = search (trees_rules, own_attempt-trees)

pub create_run-trees :
    (j k r : String) (t : RunTrigger) (text : String) (o : RunFields)
    → Leaves trees (create_run j k r t text o)
unfolding create_run
create_run-trees j k r t text o = search (trees_rules, or_attempt-trees, write_run-trees)

pub read_run-trees : (j k r : String) → Leaves trees (read_run j k r)
unfolding read_run
read_run-trees j k r = search trees_rules

pub update_run-trees :
    (j k r : String) (f : IncidentRun → IncidentRun) → Leaves trees (update_run j k r f)
unfolding update_run
update_run-trees j k r f = search (trees_rules, read_run-trees, write_run-trees)

pub write_diagnosis-trees : (j : String) (d : Diagnosis) → Leaves trees (write_diagnosis j d)
unfolding write_diagnosis
write_diagnosis-trees j d = update_incident-trees j _ _

pub write_proposal-trees :
    (j : String) (p : Proposal) (patch : String) → Leaves trees (write_proposal j p patch)
unfolding write_proposal
write_proposal-trees j p patch = search (leaves_rules, update_incident-trees, set_diff-trees)

pub clear_proposal-trees : (j k : String) → Leaves trees (clear_proposal j k)
unfolding clear_proposal
clear_proposal-trees j k = search (leaves_rules, update_incident-trees, set_diff-trees)

pub list_incidents-trees : (j : String) → Leaves trees (list_incidents j)
unfolding list_incidents
list_incidents-trees j = search trees_rules

pub ruleset trees_store = (
  leaves_rules, now-trees, publish-trees, spawn-trees, read_incident-trees, write_incident-trees,
  update_incident-trees, clear_agent_artifacts-trees, create_run-trees, read_run-trees,
  update_run-trees, write_diagnosis-trees, write_proposal-trees, clear_proposal-trees,
  list_incidents-trees,
)
