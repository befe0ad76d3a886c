-- ===== src/Incidents/Coordinator/Trees.antt =====
-- What the handlers of the coordinator share leaves the workspaces alone.
use zgent.Common.{String, ◌≡◌, List, [], ◌∷◌}
use zgent.Fsm.{Status, Event}
use zgent.Incidents.Coordinator.{
  find_in, find_incident, latest_incident, set_status, dispatch, read_capsule, start_run,
  RunOptions,
}
use zgent.Incidents.Models.{Incident, RunTrigger}
use zgent.Incidents.Store.Trees.{trees, trees_store, trees-apart}
use zgent.Jobs.Apart.{list_jobs-apart, read_failure-apart}
use zgent.Jobs.Models.{JobRecord}
use zgent.World.Leaves.{Leaves, Leaves-bind, Leaves-lift, Leaves-gets, Leaves-if, leaves_rules}
use zgent.World.{World}
use zgent.Jobs.Store.{list_jobs}
use zgent.Incidents.Store.{read_incident}

find_in-trees : (js : List JobRecord) (k : String) → Leaves trees (find_in js k)
unfolding find_in
find_in-trees [] k = search trees_store
find_in-trees (job ∷ rest) k = Leaves-bind _ _ (Leaves-lift _) λ u.
    Leaves-bind _ _ (Leaves-gets _) λ b. Leaves-if b _ _ (search trees_store) (find_in-trees rest k)

-- The search for an incident changes nothing at all.
abbrev everything : World → World
everything w = w

read_incident-quiet : (j k : String) → Leaves everything (read_incident j k)
unfolding read_incident
read_incident-quiet j k = search leaves_rules

find_in-quiet : (js : List JobRecord) (k : String) → Leaves everything (find_in js k)
unfolding find_in
find_in-quiet [] k = search leaves_rules
find_in-quiet (job ∷ rest) k = Leaves-bind _ _ (Leaves-lift _) λ u.
    Leaves-bind _ _ (Leaves-gets _)
      λ b. Leaves-if b _ _ (search (leaves_rules, read_incident-quiet)) (find_in-quiet rest k)

pub find_incident-quiet : (k : String) (w : World) → (find_incident k w).1 ≡ w
unfolding find_incident list_jobs
find_incident-quiet k w = quiet.at w
  where
    quiet : Leaves everything (find_incident k)
    quiet = search (leaves_rules, find_in-quiet)

pub find_incident-trees : (k : String) → Leaves trees (find_incident k)
unfolding find_incident
find_incident-trees k = search (trees_store, trees-apart, list_jobs-apart, find_in-trees)

pub latest_incident-trees : (j : String) → Leaves trees (latest_incident j)
unfolding latest_incident
latest_incident-trees j = search trees_store

pub set_status-trees : (j k : String) (s : Status) → Leaves trees (set_status j k s)
unfolding set_status
set_status-trees j k s = search trees_store

pub dispatch-trees : (j k : String) (e : Event) → Leaves trees (dispatch j k e)
unfolding dispatch
dispatch-trees j k e = search (trees_store, set_status-trees)

pub read_capsule-trees : (j a : String) → Leaves trees (read_capsule j a)
unfolding read_capsule
read_capsule-trees j a = search (trees_store, trees-apart, read_failure-apart)

pub start_run-trees :
    (j : String) (i : Incident) (t : RunTrigger) (text : String) (o : RunOptions) (hex : String)
    → Leaves trees (start_run j i t text o hex)
unfolding start_run
start_run-trees j i t text o hex = search trees_store depth 9

pub ruleset trees_shared = (
  trees_store, find_incident-trees, latest_incident-trees, set_status-trees, dispatch-trees,
  read_capsule-trees, start_run-trees,
)
