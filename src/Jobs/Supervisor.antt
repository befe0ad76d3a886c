-- ===== src/Jobs/Supervisor.antt =====
-- JobSupervisor (cyan/training/jobs/supervisor.py): starting, watching and cancelling the process
-- of a job. What the system answers is an argument: the outcome of the spawn, the exit code, the
-- errors of the log writers. The callback of a failure is a parameter, as in the constructor.
pub mod Settled
use Prim.Native.String.{◌++◌ as str_append}
use zgent.Common.{
  ℕ, ◌+◌, String, Bool, true, false, not, Option, none, some, [], ◌∷◌, ◌++◌, length, is_some,
  if◌then◌else◌,
}
use zgent.Common.Decimal.{padded4}
use zgent.Common.Dict.{get, put}
use zgent.Common.Exec.{
  Error, Result, runtime_error, ◌>>=◌, ◌>>◌, pure, raise, lift, gets, modify, try_or_none,
}
use zgent.Externals.{Externals}
use zgent.Jobs.Models.{
  starting, running, failed, job_started, job_failed, FailureKind, launch_error, process_exit,
  JobSpec, JobRecord, AttemptRecord, FailureRecord,
}
use zgent.Jobs.Store.{
  create_job, write_job, read_job, read_spec, write_attempt, write_failure, attempt_files,
  set_attempt_files,
}
use zgent.Jobs.EventStore.{append_event}
use zgent.World.{World, M, now}

-- What create_subprocess_exec and read_process_identity give.
pub data Spawn : Type 0 where
  spawned : (pid : ℕ) (identity : Option String) → Spawn
  spawn_error : (message : String) → Spawn

-- FailureCallback
abbrev pub Callback : Type 0
Callback = JobRecord → AttemptRecord → FailureRecord → M (Unit {0})

-- stop_starting
unfoldable pub stop_starting : M (Unit {0})
stop_starting = modify (λ w. record w { accepting_starts = false })

any_error : Error → Bool
any_error e = true

unfoldable pub is_exit : FailureKind → Bool
is_exit process_exit = true
is_exit _ = false

-- _notify_failure: the callback's exceptions end here
unfoldable pub notify_failure : Callback → Callback
unfolding any_error is_exit
notify_failure callback job attempt failure =
    if is_exit failure.kind
    then (do try_or_none any_error (callback job attempt failure); pure tt)
    else pure tt

new_attempt : JobRecord → String → ℕ → AttemptRecord
new_attempt job a t = record {
  id = a;
  job_id = job.id;
  status = starting;
  started_at = t;
  finished_at = none;
  pid = none;
  process_identity = none;
  returncode = none;
  signal = none;
  error = none;
}

-- f"attempt-{len(job.attempt_ids) + 1:04d}"
unfoldable pub next_attempt_id : JobRecord → String
next_attempt_id job = str_append "attempt-" (padded4 (length job.attempt_ids + 1))

-- stdout_path.open("wb"), stderr_path.open("wb")
unfoldable pub open_logs : String → String → World → World
open_logs j a w =
    set_attempt_files j a (record (attempt_files w j a) { out_log = some []; error_log = some [] })
      w

module _ (x : Externals) (callback : Callback) where
  -- _record_launch_failure
  unfoldable pub record_launch_failure : JobRecord → AttemptRecord → String → M (Unit {0})
  unfolding notify_failure
  record_launch_failure job attempt message = do
    t ← now
    let a = record attempt { status = failed; finished_at = some t; error = some message }
    let j = record job { status = failed; updated_at = t }
    let failure =
        let f : FailureRecord = record {
          job_id = job.id;
          attempt_id = attempt.id;
          occurred_at = t;
          kind = launch_error;
          returncode = none;
          signal = none;
          message = message;
          capsule = none;
        } in
        f
    write_failure failure
    write_attempt a
    write_job j
    append_event x job_failed job.id (some attempt.id) failed t
    notify_failure callback j a failure

  unfoldable pub run_spawned : JobRecord → AttemptRecord → Spawn → M (Unit {0})
  unfolding record_launch_failure
  run_spawned job attempt (spawn_error message) = record_launch_failure job attempt message
  run_spawned job attempt (spawned pid identity) = do
    t ← now
    let a = record attempt { status = running; pid = some pid; process_identity = identity }
    let j = record job { status = running; updated_at = t }
    write_attempt a
    write_job j
    append_event x job_started job.id (some attempt.id) running t
    modify (λ w. record w {
      running = put w.running job.id (record { attempt_id = attempt.id; cancel_requested = false });
    })

  -- _launch
  unfoldable pub launch : JobRecord → Spawn → M (Unit {0})
  unfolding run_spawned new_attempt open_logs
  launch job outcome = do
    t ← now
    let a = next_attempt_id job
    let attempt = new_attempt job a t
    let j = record job {
      status = starting;
      updated_at = t;
      current_attempt_id = some a;
      attempt_ids = job.attempt_ids ++ (a ∷ []);
    }
    write_attempt attempt
    write_job j
    modify (open_logs job.id a)
    run_spawned j attempt outcome

  -- start; `root` is workspace_root resolved to an existing directory, or the error of that
  unfoldable pub start : JobSpec → Result String → String → Spawn → M JobRecord
  start spec root job_id outcome = do
    resolved ← lift root
    t ← now
    accepting ← gets (λ w. w.accepting_starts)
    if not accepting then raise runtime_error else do
      let job =
          let r : JobRecord = record {
            id = job_id;
            status = starting;
            created_at = t;
            updated_at = t;
            current_attempt_id = none;
            attempt_ids = [];
          } in
          r
      create_job job (record spec { workspace_root = resolved })
      launch job outcome
      read_job job_id

  -- retry
  unfoldable pub retry : String → Spawn → M JobRecord
  retry job_id outcome = do
    accepting ← gets (λ w. w.accepting_starts)
    busy ← gets (λ w. is_some (get w.running job_id))
    if not accepting
        then raise runtime_error
        else if busy
        then raise runtime_error
        else do job ← read_job job_id; read_spec job_id; launch job outcome; read_job job_id
