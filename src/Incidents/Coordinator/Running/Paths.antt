-- ===== src/Incidents/Coordinator/Running/Paths.antt =====
-- A run of an investigation, and its conclusion, moves statuses along the state machine.
use zgent.Common.{String, refl, Bool, Option, none, some, List, [], ◌∷◌}
use zgent.Externals.{Externals}
use zgent.Incidents.Models.{Incident, Diagnosis, Proposal, IncidentRun}
use zgent.Incidents.Moves.{Actor, Keeps, Keeps-bind}
use zgent.Incidents.Moves.Rules.{Keeps-update_incident}
use zgent.Incidents.Coordinator.Paths.{keeps_shared, Keeps-apart}
use zgent.Incidents.Coordinator.Running.{
  ToolCall, submit_diagnosis, propose_patch, invoke, invoke_all, store_proposal, investigate,
  with_capsule, run_incident, give_up, conclude, run_diagnosis, RunOutcome, Turn, fail_run,
  smoke_unavailable,
}
use zgent.Incidents.Store.{update_incident}
use zgent.Jobs.Apart.{read_log_file-apart}
use zgent.Jobs.Models.{FailureCapsule}

Keeps-store_proposal :
    {who : Actor}
    → (j k : String) (made : Option (Proposal × String)) (checked : Bool)
    → Keeps who (store_proposal j k made checked)
unfolding store_proposal
Keeps-store_proposal j k none checked = search keeps_shared
Keeps-store_proposal j k (some (p, patch)) checked = search keeps_shared

Keeps-invoke : {who : Actor} → (j k : String) (call : ToolCall) → Keeps who (invoke j k call)
unfolding invoke
Keeps-invoke j k (submit_diagnosis d cited) = search keeps_shared
Keeps-invoke j k (propose_patch made cited checked) = search (keeps_shared, Keeps-store_proposal)

Keeps-invoke_all :
    {who : Actor} → (j k : String) (calls : List ToolCall) → Keeps who (invoke_all j k calls)
unfolding invoke_all
Keeps-invoke_all j k [] = search keeps_shared
Keeps-invoke_all j k (call ∷ rest) =
    Keeps-bind _ _ (Keeps-invoke j k call) (λ u. Keeps-invoke_all j k rest)

Keeps-note :
    {who : Actor}
    → (j k : String) (o : Option String)
    → Keeps who (update_incident j k (λ i. record i { last_outcome = o }))
Keeps-note j k o = Keeps-update_incident j k _ (λ i. (refl, refl))

Keeps-fail_run : {who : Actor} → (j k r reason : String) → Keeps who (fail_run j k r reason)
unfolding fail_run
Keeps-fail_run j k r reason = search keeps_shared

Keeps-smoke_unavailable : {who : Actor} → (j k r : String) → Keeps who (smoke_unavailable j k r)
unfolding smoke_unavailable
Keeps-smoke_unavailable j k r = search (keeps_shared, Keeps-note)

Keeps-investigate :
    {who : Actor}
    → (j k r : String) (c : FailureCapsule) (b : Bool) (turn : Turn)
    → Keeps who (investigate j k r c b turn)
unfolding investigate
Keeps-investigate j k r c b turn = search (keeps_shared, Keeps-invoke_all) depth 12

module _ (x : Externals) where
  Keeps-with_capsule :
      {who : Actor}
      → (i : Incident) (run : IncidentRun) (j k r : String) (turn : Turn)
        (c : Option FailureCapsule)
      → Keeps who (with_capsule x i run j k r turn c)
  unfolding with_capsule
  Keeps-with_capsule i run j k r turn none = search (keeps_shared, Keeps-fail_run)
  Keeps-with_capsule i run j k r turn (some c) =
      search
        (
          keeps_shared, Keeps-apart, read_log_file-apart, Keeps-fail_run, Keeps-investigate,
          Keeps-smoke_unavailable,
        )
        depth 12

  pub Keeps-run_incident :
      {who : Actor} → (j k r : String) (turn : Turn) → Keeps who (run_incident x j k r turn)
  unfolding run_incident
  Keeps-run_incident j k r turn = search (keeps_shared, Keeps-with_capsule) depth 9

Keeps-give_up : {who : Actor} → (j : String) (i : Incident) → Keeps who (give_up j i)
unfolding give_up
Keeps-give_up j i = search keeps_shared

Keeps-activate :
    {who : Actor}
    → (j k : String) (p : Option String)
    → Keeps who (update_incident j k (λ i. record i { active_proposal_id = p }))
Keeps-activate j k p = Keeps-update_incident j k _ (λ i. (refl, refl))

Keeps-conclude :
    {who : Actor}
    → (j : String) (i : Incident) (o : Option RunOutcome) (d : Option Diagnosis)
      (p : Option Proposal)
    → Keeps who (conclude j i o d p)
unfolding conclude
Keeps-conclude j i (some o) (some d) (some p) = search (keeps_shared, Keeps-activate) depth 9
Keeps-conclude j i none d p = Keeps-give_up j i
Keeps-conclude j i (some o) none p = Keeps-give_up j i
Keeps-conclude j i (some o) (some d) none = Keeps-give_up j i

-- A run of the diagnosis task, whatever the model calls in it and however it ends, loses no
-- incident, keeps each under its own id, and moves the statuses along the state machine only.
pub run_diagnosis-Keeps :
    {who : Actor}
    → (x : Externals) (j k r : String) (turn : Turn) → Keeps who (run_diagnosis x j k r turn)
unfolding run_diagnosis
run_diagnosis-Keeps x j k r turn = search (keeps_shared, Keeps-run_incident, Keeps-conclude) depth 9
