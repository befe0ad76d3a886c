-- ===== src/Jobs/Recover.antt =====
-- JobStore.recover_interrupted (cyan/training/jobs/store.py): after a daemon restart every job that
-- was active is closed, as failed where the failure was already recorded, else as interrupted.
pub mod Frames
pub mod Closes
pub mod Closed
use zgent.Common.{
  ℕ, String, Bool, true, false, not, Option, none, some, List, [], ◌∷◌, ◌++◌, is_some,
  if◌then◌else◌,
}
use zgent.Common.Exec.{◌>>=◌, ◌>>◌, pure, gets}
use zgent.Externals.{Externals}
use zgent.Jobs.Models.{
  JobStatus, starting, running, failed, interrupted, job_failed, job_interrupted, JobRecord,
  AttemptRecord, FailureRecord, JobEvent,
}
use zgent.Jobs.Store.{
  attempt_files, write_job, list_jobs, write_attempt, read_attempt, read_failure,
}
use zgent.Jobs.EventStore.{matches, read_events, append_event}
use zgent.World.{M, now}

-- status in ("starting", "running")
unfoldable pub is_active : JobStatus → Bool
is_active starting = true
is_active running = true
is_active _ = false

-- not events or the last one is not this attempt's job.failed
lacks_failed : String → List JobEvent → Bool
lacks_failed a [] = true
lacks_failed a (e ∷ []) = not (matches a job_failed e)
lacks_failed a (e ∷ f ∷ es) = lacks_failed a (f ∷ es)

module _ (x : Externals) where
  -- The failure was persisted before the crash: complete the other records.
  close_failed : JobRecord → String → AttemptRecord → FailureRecord → M (Unit {0})
  unfolding lacks_failed
  close_failed job a attempt failure = do
    write_attempt (record attempt { status = failed; finished_at = some failure.occurred_at })
    write_job (record job { status = failed; updated_at = failure.occurred_at })
    events ← read_events x job.id
    if lacks_failed a events
        then (do append_event x job_failed job.id (some a) failed failure.occurred_at; pure tt)
        else pure tt

  -- job.status = "interrupted", with its event
  mark_interrupted : JobRecord → ℕ → M (List JobRecord)
  mark_interrupted job t = do
    let closed = record job { status = interrupted; updated_at = t }
    write_job closed
    append_event x job_interrupted job.id job.current_attempt_id interrupted t
    pure (closed ∷ [])

  close_attempt : JobRecord → ℕ → AttemptRecord → M (List JobRecord)
  unfolding mark_interrupted
  close_attempt job t attempt =
      if is_active attempt.status
      then (do
        write_attempt (record attempt { status = interrupted; finished_at = some t })
        mark_interrupted job t)
      else mark_interrupted job t

  recover_current : JobRecord → ℕ → Option String → M (List JobRecord)
  unfolding close_failed close_attempt mark_interrupted
  recover_current job t none = mark_interrupted job t
  recover_current job t (some a) = do
    attempt ← read_attempt job.id a
    has_failure ← gets (λ w. is_some (attempt_files w job.id a).failure)
    if has_failure
        then (do failure ← read_failure job.id a; close_failed job a attempt failure; pure [])
        else close_attempt job t attempt

  recover_job : JobRecord → M (List JobRecord)
  unfolding recover_current
  recover_job job =
      if is_active job.status
      then (do t ← now; recover_current job t job.current_attempt_id)
      else pure []

  recover_jobs : List JobRecord → M (List JobRecord)
  unfolding recover_job
  recover_jobs [] = pure []
  recover_jobs (job ∷ rest) = do
    first ← recover_job job
    others ← recover_jobs rest
    pure (first ++ others)

  -- recover_interrupted: the jobs that it closed as interrupted
  unfoldable pub recover_interrupted : M (List JobRecord)
  unfolding recover_jobs
  recover_interrupted = do jobs ← list_jobs; recover_jobs jobs
