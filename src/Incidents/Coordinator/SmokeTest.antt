-- ===== src/Incidents/Coordinator/SmokeTest.antt =====
-- The smoke test of an applied patch (coordinator.py: _run_smoke): the test, its result, and the
-- rollback after a failure.
pub mod Paths
use Prim.Native.String.{◌++◌ as str_append}
use zgent.Common.{ℕ, String, Bool, true, false, ◌||◌, Option, none, some, [], ◌∷◌, if◌then◌else◌}
use zgent.Common.Dict.{get, put}
use zgent.Common.Exec.{
  Error, Result, err, file_not_found, ◌>>=◌, ◌>>◌, pure, lift, gets, try_or_none, os_or_value_error,
  is_runtime_error,
}
use zgent.Fsm.{
  apply_ok_smoke, smoke_is_ok, smoke_failed_rolled_back, smoke_failed_rolled_back_no_evidence,
  smoke_failed_rollback_blocked,
}
use zgent.Jobs.Store.{read_spec}
use zgent.Jobs.Supervisor.{Spawn}
use zgent.Incidents.Models.{
  Incident, Proposal, PatchReceipt, SmokeStatus, SmokeResult, SmokeExecution, SmokeVerifierConfig,
  RunTrigger,
}
use zgent.Incidents.Patches.{Patches}
use zgent.Incidents.Smoke.{SmokeProcess, SmokeSelection, run_executor}
use zgent.Incidents.Store.{
  read_incident, update_incident, write_smoke_result, write_smoke_execution, clear_agent_artifacts,
}
use zgent.Incidents.Store.Names.{validate_id}
use zgent.Incidents.Coordinator.{dispatch, previous_outcome, start_run}
use zgent.World.{World, M, Tree, now, publish, smoke_finished, incident_files}

-- What the outside contributes to a decision.
pub record Answers : Type 0 where
  -- load_smoke_verifier(workspace_root)
  pub verifier : Result (Option SmokeVerifierConfig)
  pub process : SmokeProcess
  -- select_smoke_evidence on the logs of the smoke run, None where it raises
  pub evidence : Option SmokeSelection
  pub spawned : Spawn
  pub run_hex : String

is_passed : SmokeStatus → Bool
is_passed SmokeStatus.passed = true
is_passed _ = false

module _ {A : Type 0} where
  put_tree : String → World → Result A × Tree → Result A × World
  put_tree root w (r, t) = (r, record w { trees = put w.trees root t })

  on_found : String → (Tree → Result A × Tree) → Option Tree → M A
  unfolding put_tree
  on_found root act none w = (err file_not_found, w)
  on_found root act (some t) w = put_tree root w (act t)

  -- An action of the patch service on a workspace: what it changed before an error stays changed.
  unfoldable pub on_tree : String → (Tree → Result A × Tree) → M A
  unfolding on_found
  on_tree root act w = on_found root act (get w.trees root) w

unfoldable pub smoke_path : String → String → String → String
smoke_path k p name = str_append k (str_append "/smoke/" (str_append p (str_append "/" name)))

module _ (patches : Patches) where
  -- The callback that persists the identity of the smoke process before smoke_running shows.
  smoke_started : String → String → ℕ → String → M (Unit {0})
  smoke_started j k pid identity = do
    t ← now
    write_smoke_execution j k (record {
      status = SmokeStatus.running;
      pid = pid;
      process_identity = identity;
      started_at = t;
      finished_at = none;
    })
    dispatch j k apply_ok_smoke
    pure tt

  finish_execution : String → String → SmokeStatus → Option SmokeExecution → M (Unit {0})
  finish_execution j k status none = pure tt
  finish_execution j k status (some e) = do
    t ← now
    write_smoke_execution j k (record e { status = status; finished_at = some t })
    pure tt

  or_failed : String → String → Option SmokeResult → SmokeResult
  or_failed out_path error_path (some r) = r
  or_failed out_path error_path none = record {
    status = SmokeStatus.failed;
    returncode = none;
    elapsed_ms = 0;
    stdout_path = out_path;
    stderr_path = error_path;
  }

  smoke_errors : Error → Bool
  smoke_errors e = os_or_value_error e || is_runtime_error e

  blocked : String → String → M Bool
  blocked j k = do dispatch j k smoke_failed_rollback_blocked; pure false

  usable : Option SmokeSelection → Option SmokeSelection
  usable none = none
  usable (some s) = elim s.blocks [ [] ↦ none | b ∷ bs ↦ some s ]

  -- After the rollback: a new run on the evidence of the smoke test, or none without evidence.
  revise : String → Incident → Incident → String → Option SmokeSelection → String → M Bool
  revise j before cleared p none hex = do
    update_incident j cleared.id
        (λ i. record i { last_outcome = some "smoke_evidence_unavailable" })
    dispatch j cleared.id smoke_failed_rolled_back_no_evidence
    pure false
  revise j before cleared p (some s) hex = do
    moved ← dispatch j cleared.id smoke_failed_rolled_back
    start_run j moved RunTrigger.smoke_failed
        (str_append "Smoke verifier failed after proposal "
          (str_append p "; inspect its result and revise."))
        (record {
          attempt_id = none;
          previous = previous_outcome before;
          smoke_proposal_id = some p;
          smoke_stdout_sha256 = some s.stdout_sha256;
          smoke_stderr_sha256 = some s.stderr_sha256;
        })
        hex
    pure false

  reversed : String → Incident → String → Answers → Option (Unit {0}) → M Bool
  unfolding blocked usable revise
  reversed j i p answers none = blocked j i.id
  reversed j i p answers (some done) = do
    clear_agent_artifacts j i.id
    cleared ← read_incident j i.id
    revise j i cleared p (usable answers.evidence) answers.run_hex

  roll_back :
      String → String → Incident → String → Answers → Option Proposal → Option PatchReceipt → M Bool
  unfolding reversed blocked
  roll_back j root i p answers (some proposal) (some receipt) = do
    diff ← gets (λ w. (incident_files w j proposal.incident_id).diff)
    done ← try_or_none os_or_value_error (on_tree root (patches.reverse proposal diff receipt))
    reversed j i p answers done
  roll_back j root i p answers _ _ = blocked j i.id

  -- _run_smoke: true if the smoke test passed
  unfoldable pub run_smoke : String → Incident → String → Answers → M Bool
  unfolding smoke_started finish_execution or_failed smoke_errors roll_back smoke_path is_passed
  run_smoke j i p answers = do
    spec ← read_spec i.job_id
    lift (validate_id p)
    let out_path = smoke_path i.id p "stdout.log"
    let error_path = smoke_path i.id p "stderr.log"
    attempt ←
        try_or_none smoke_errors
          (run_executor answers.process j i.id p out_path error_path (smoke_started j i.id))
    let result = or_failed out_path error_path attempt
    current ← read_incident j i.id
    finish_execution j i.id result.status current.smoke_execution
    write_smoke_result j i.id result
    publish (smoke_finished i.job_id i.id result.status result.returncode)
    if is_passed result.status then (do dispatch j i.id smoke_is_ok; pure true) else (do
      after ← read_incident j i.id
      roll_back j spec.workspace_root after p answers after.proposal after.apply_receipt)
