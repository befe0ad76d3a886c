-- ===== src/Incidents/Coordinator/Running.antt =====
-- One run of an investigation: IncidentRuntime.run (runtime.py), the two tools that write (tools.py:
-- SubmitDiagnosisTool.invoke, ProposePatchTool.invoke), and _run_diagnosis (coordinator.py), which
-- draws the conclusion. What the model calls and how the loop ends are arguments.
pub mod Paths
pub mod Finished
use zgent.Common.{
  ℕ, ◌+◌, String, str_eq, Bool, true, false, not, ◌&&◌, ◌||◌, Option, none, some, List, [], ◌∷◌,
  ◌++◌, is_some, if◌then◌else◌,
}
use zgent.Common.Dict.{get}
use zgent.Common.Exec.{
  Exec, Error, Result, ok, err, ◌>>=◌, ◌>>◌, pure, raise, lift, gets, modify, try_or_none, caught,
}
use zgent.Externals.{Externals}
use zgent.Fsm.{Status, investigation_done, investigation_failed, diagnosing}
use zgent.Jobs.Models.{FailureCapsule, stdout, stderr}
use zgent.Jobs.Store.{read_log_file}
use zgent.Incidents.Models.{
  Incident, Diagnosis, Proposal, CausalSupport, RunTrigger, RunStatus, IncidentRun,
  SelectedEvidence,
}
use zgent.Incidents.Smoke.{SmokeSelection}
use zgent.Incidents.Store.{
  read_incident, update_incident, read_run, update_run, write_diagnosis, write_proposal,
  clear_proposal,
}
use zgent.Incidents.Coordinator.{dispatch, read_capsule}
use zgent.World.{World, M, Bytes, publish, patch_proposed}

-- A call of one of the two writing tools. `cited` tells that the evidence passed the validator. A
-- proposal comes with what the tool makes of its arguments: the diff and the proposal, None where
-- the replacement is refused, and with the outcome of PatchService.check.
pub data ToolCall : Type 0 where
  submit_diagnosis : Diagnosis → (cited : Bool) → ToolCall
  propose_patch : Option (Proposal × String) → (cited checked : Bool) → ToolCall

is_direct : CausalSupport → Bool
is_direct CausalSupport.direct = true
is_direct CausalSupport.inferred = false

-- not patch_recommended or causal_support != "direct", negated
may_propose : Option Diagnosis → Bool
unfolding is_direct
may_propose none = false
may_propose (some d) = d.patch_recommended && is_direct d.causal_support

store_proposal : String → String → Option (Proposal × String) → Bool → M (Unit {0})
store_proposal j k none checked = pure tt
store_proposal j k (some (p, patch)) checked = do
  write_proposal j (record p { incident_id = k }) patch
  if checked then pure tt else clear_proposal j k

-- SubmitDiagnosisTool.invoke and ProposePatchTool.invoke, as to what they store
unfoldable pub invoke : String → String → ToolCall → M (Unit {0})
unfolding may_propose store_proposal
invoke j k (submit_diagnosis d cited) =
    if cited then (do write_diagnosis j (record d { incident_id = k }); pure tt) else pure tt
invoke j k (propose_patch made cited checked) = do
  i ← read_incident j k
  if may_propose i.diagnosis && cited then store_proposal j k made checked else pure tt

invoke_all : String → String → List ToolCall → M (Unit {0})
invoke_all j k [] = pure tt
invoke_all j k (call ∷ rest) = do invoke j k call; invoke_all j k rest

-- RunOutcome
pub record RunOutcome : Type 0 where
  pub status : RunStatus
  pub reason : Option String
  pub initial_input_bytes : ℕ
  pub peak_input_bytes : ℕ
  pub budget_exhausted : Bool

failed_with : String → RunOutcome
failed_with reason = record {
  status = RunStatus.failed;
  reason = some reason;
  initial_input_bytes = 0;
  peak_input_bytes = 0;
  budget_exhausted = false;
}

-- What the selectors and the agent do in a run. The selector's hashes are computed here; its
-- choice of blocks, and the tool calls and the outcome of AgentRunner.run_and_capture, are given.
pub record Turn : Type 0 where
  pub references : List SelectedEvidence
  pub scanned_bytes : ℕ
  pub selected_bytes : ℕ
  pub duplicates_removed : ℕ
  -- select_smoke_evidence on the logs of the proposal, None where it raises
  pub smoke : Option SmokeSelection
  pub smoke_references : List SelectedEvidence
  pub smoke_bytes : ℕ
  pub calls : List ToolCall
  pub outcome : RunOutcome

content_of : Option Bytes → Bytes
content_of none = []
content_of (some b) = b

fail_run : String → String → String → String → M RunOutcome
unfolding failed_with
fail_run j k r reason = do
  update_run j k r (λ run. record run { status = RunStatus.failed; reason = some reason })
  pure (failed_with reason)

-- The smoke evidence is gone: noted in the run and in the incident.
smoke_unavailable : String → String → String → M RunOutcome
unfolding failed_with
smoke_unavailable j k r = do
  update_run j k r
      (λ run. record run { status = RunStatus.failed; reason = some "smoke_evidence_unavailable" })
  update_incident j k (λ i. record i { last_outcome = some "smoke_evidence_unavailable" })
  pure (failed_with "smoke_evidence_unavailable")

same_hash : String → Option String → Bool
same_hash h none = false
same_hash h (some g) = str_eq h g

has_blocks : SmokeSelection → Bool
has_blocks s = elim s.blocks [ [] ↦ false | b ∷ bs ↦ true ]

-- The smoke evidence still is what the run was started with.
smoke_holds : IncidentRun → Option SmokeSelection → Bool
unfolding same_hash has_blocks
smoke_holds run none = false
smoke_holds run (some s) =
    has_blocks s
    && same_hash s.stdout_sha256 run.smoke_stdout_sha256
    && same_hash s.stderr_sha256 run.smoke_stderr_sha256

is_smoke_failed : RunTrigger → Bool
is_smoke_failed RunTrigger.smoke_failed = true
is_smoke_failed _ = false

is_success : RunStatus → Bool
is_success RunStatus.success = true
is_success _ = false

-- A success without a diagnosis is none.
judged : RunOutcome → Option Diagnosis → RunOutcome
unfolding is_success
judged o d =
    if is_success o.status && not (is_some d)
    then record o { status = RunStatus.failed; reason = some "diagnosis_missing" }
    else o

-- The agent runs and its results are kept in run.json.
investigate : String → String → String → FailureCapsule → Bool → Turn → M RunOutcome
unfolding invoke_all judged
investigate j k r capsule with_smoke turn = do
  update_run j k r (λ run. record run {
    status = RunStatus.running;
    selected_evidence = turn.references ++ (if with_smoke then turn.smoke_references else []);
    stdout_sha256 = some capsule.out.sha256;
    stderr_sha256 = some capsule.errors.sha256;
    scanned_bytes = turn.scanned_bytes;
    selected_bytes = turn.selected_bytes + (if with_smoke then turn.smoke_bytes else 0);
    duplicates_removed = turn.duplicates_removed;
  })
  invoke_all j k turn.calls
  i ← read_incident j k
  let outcome = judged turn.outcome i.diagnosis
  update_run j k r (λ run. record run {
    status = outcome.status;
    reason = outcome.reason;
    diagnosis = i.diagnosis;
    proposal = i.proposal;
    initial_input_bytes = outcome.initial_input_bytes;
    peak_input_bytes = outcome.peak_input_bytes;
    budget_exhausted = outcome.budget_exhausted;
  })
  pure outcome

with_capsule :
    Externals
    → Incident
    → IncidentRun
    → String
    → String
    → String
    → Turn
    → Option FailureCapsule
    → M RunOutcome
unfolding content_of fail_run smoke_unavailable smoke_holds is_smoke_failed investigate
with_capsule x i run j k r turn none = fail_run j k r "failure_capsule_unavailable"
with_capsule x i run j k r turn (some capsule) = do
  out_log ← read_log_file i.job_id i.attempt_id stdout
  error_log ← read_log_file i.job_id i.attempt_id stderr
  if not (
        str_eq (x.sha256 (content_of out_log)) capsule.out.sha256
        && str_eq (x.sha256 (content_of error_log)) capsule.errors.sha256)
      then fail_run j k r "log_changed"
      else if is_smoke_failed run.trigger
      then (if is_some run.smoke_proposal_id && smoke_holds run turn.smoke
          then investigate j k r capsule true turn
          else smoke_unavailable j k r)
      else investigate j k r capsule false turn

-- IncidentRuntime.run
unfoldable pub run_incident : Externals → String → String → String → Turn → M RunOutcome
unfolding with_capsule
run_incident x j k r turn = do
  i ← read_incident j k
  run ← read_run j k r
  capsule ← read_capsule i.job_id i.attempt_id
  with_capsule x i run j k r turn capsule

any_error : Error → Bool
any_error e = true

is_status_diagnosing : Status → Bool
is_status_diagnosing diagnosing = true
is_status_diagnosing _ = false

-- No conclusion: only an incident that is still diagnosed becomes unresolved.
give_up : String → Incident → M (Unit {0})
unfolding is_status_diagnosing
give_up j i =
    if is_status_diagnosing i.status
    then (do dispatch j i.id investigation_failed; pure tt)
    else pure tt

conclude : String → Incident → Option RunOutcome → Option Diagnosis → Option Proposal → M (Unit {0})
unfolding give_up
conclude j i (some o) (some d) (some p) = do
  named ← update_incident j i.id (λ current. record current { active_proposal_id = some p.id })
  proposed ← dispatch j named.id investigation_done
  publish (patch_proposed proposed.job_id proposed.id p.id d.summary)
conclude j i _ _ _ = give_up j i

-- _run_diagnosis
unfoldable pub run_diagnosis : Externals → String → String → String → Turn → M (Unit {0})
unfolding any_error conclude
run_diagnosis x j k r turn = do
  outcome ← try_or_none any_error (run_incident x j k r turn)
  i ← read_incident j k
  conclude j i outcome i.diagnosis i.proposal
