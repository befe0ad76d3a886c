-- ===== src/Jobs/Monitor.antt =====
-- The end of an attempt (cyan/training/jobs/supervisor.py: _drain, _monitor, cancel, wait): the
-- output is drained to the logs, the exit is classified and persisted, the failure is passed on.
pub mod Classify
use Prim.Native.String.{◌++◌ as str_append}
use zgent.Common.{
  ℕ, suc, ◌+◌, String, str_eq, Bool, true, false, not, ◌&&◌, ◌||◌, Option, none, some, List, [],
  ◌∷◌, ◌++◌, length, take, drop, is_some, if◌then◌else◌,
}
use zgent.Common.Dict.{get, put, remove}
use zgent.Common.Exec.{Exec, Result, ok, ◌>>=◌, ◌>>◌, pure, gets, modify}
use zgent.Common.Int.{ℤ, pos, negsuc, negated}
use zgent.Externals.{Externals}
use zgent.Jobs.Models.{
  JobStatus, succeeded, failed, cancelled, job_succeeded, job_failed, job_cancelled, JobEventType,
  FailureKind, process_exit, supervisor_error, JobRecord, AttemptRecord, FailureRecord,
}
use zgent.Jobs.Store.{write_job, read_job, write_attempt, read_attempt, write_failure}
use zgent.Jobs.EventStore.{append_event}
use zgent.Jobs.Supervisor.{Callback, notify_failure, is_exit}
use zgent.World.{Bytes, World, M, RunningAttempt, now}

-- The outcome of file.write and file.flush at a chunk: it is on disk, or they raise after so many
-- of its bytes.
pub data Write : Type 0 where
  whole : Write
  raised : (kept : ℕ) (message : String) → Write

-- One turn of the loop of _drain: a chunk with the outcome of its write, or a failing read.
pub data Drained : Type 0 where
  chunk : Bytes → Write → Drained
  read_error : (message : String) → Drained

-- The locals of _drain, with the contents of the file and what its buffer may hold after a failed
-- write: the rest of that chunk.
pub record DrainState : Type 0 where
  pub content : Bytes
  pub pending : Bytes
  pub writable : Bool
  pub errors : List String

written : DrainState → Bytes → Write → DrainState
written s c whole = record s { content = s.content ++ c }
written s c (raised kept message) = record s {
  content = s.content ++ take kept c;
  pending = drop kept c;
  writable = false;
  errors = s.errors ++ (message ∷ []);
}

-- What the loop does with one chunk.
accept : DrainState → Bytes → Write → DrainState
unfolding written
accept s c outcome = if s.writable then written s c outcome else s

-- _drain; a chunk that arrives after a failed write is read and dropped. The list ends with the
-- stream, or after a failing read.
unfoldable pub drain : DrainState → List Drained → DrainState
unfolding accept
drain s [] = s
drain s (read_error message ∷ rest) = record s { errors = s.errors ++ (message ∷ []) }
drain s (chunk c outcome ∷ rest) = drain (accept s c outcome) rest

flushed_part : ℕ → DrainState → DrainState
flushed_part flushed s = record s {
  content = s.content ++ take flushed s.pending;
  pending = drop flushed s.pending;
}

-- `finally: file.close()`, which writes so many bytes of what the buffer holds
unfoldable pub closed : DrainState → (flushed : ℕ) → Option String → DrainState
unfolding flushed_part
closed s flushed none = flushed_part flushed s
closed s flushed (some message) = record (flushed_part flushed s) {
  errors = s.errors ++ (message ∷ []);
}

is_zero : ℤ → Bool
is_zero (pos n) = elim n [ ℕ.zero ↦ true | suc m ↦ false ]
is_zero (negsuc n) = false

first_error : List String → String
first_error [] = ""
first_error (e ∷ es) = e

has_errors : List String → Bool
has_errors [] = false
has_errors (e ∷ es) = true

-- The status that _monitor gives an attempt and its job.
unfoldable pub final_status :
    (cancelled : Bool) → (errors : List String) → (returncode : ℤ) → JobStatus
unfolding is_zero has_errors
final_status was_cancelled errors returncode =
    if was_cancelled
    then cancelled
    else if has_errors errors
    then failed
    else if is_zero returncode
    then succeeded
    else failed

-- The event of a final status.
unfoldable pub final_event : JobStatus → JobEventType
final_event cancelled = job_cancelled
final_event succeeded = job_succeeded
final_event _ = job_failed

unfoldable pub failure_kind : List String → FailureKind
unfolding has_errors
failure_kind errors = if has_errors errors then supervisor_error else process_exit

is_failed : JobStatus → Bool
is_failed failed = true
is_failed _ = false

-- attempt.error, set only for the errors of the log writers
final_error : Bool → List String → Option String → Option String
unfolding has_errors first_error
final_error was_cancelled errors old =
    if not was_cancelled && has_errors errors
    then some (str_append "log persistence failed: " (first_error errors))
    else old

-- f"process exited with status {returncode}" needs no more than the code itself.
exit_message : (ℤ → String) → List String → ℤ → String
unfolding has_errors first_error
exit_message print errors returncode =
    if has_errors errors
    then str_append "log persistence failed: " (first_error errors)
    else str_append "process exited with status " (print returncode)

requested : Option RunningAttempt → Bool
requested none = false
requested (some r) = r.cancel_requested

module _ (x : Externals) (callback : Callback) (print : ℤ → String) where
  -- The records that _monitor writes once the process has exited and its logs are closed.
  abbrev failure_of : JobRecord → AttemptRecord → List String → ℤ → ℕ → FailureRecord
  failure_of job attempt errors returncode t = record {
    job_id = job.id;
    attempt_id = attempt.id;
    occurred_at = t;
    kind = failure_kind errors;
    returncode = some returncode;
    signal = negated returncode;
    message = exit_message print errors returncode;
    capsule = none;
  }

  -- _monitor, after `returncode = await process_task` and the drains
  unfoldable pub monitor : String → String → ℤ → List String → M (Unit {0})
  unfolding is_failed final_error requested exit_message
  monitor job_id attempt_id returncode errors = do
    was_cancelled ← gets (λ w. requested (get w.running job_id))
    attempt ← read_attempt job_id attempt_id
    job ← read_job job_id
    t ← now
    let status = final_status was_cancelled errors returncode
    let a = record attempt {
      status = status;
      finished_at = some t;
      returncode = some returncode;
      signal = negated returncode;
      error = final_error was_cancelled errors attempt.error;
    }
    let j = record job { status = status; updated_at = t }
    let failure = failure_of job attempt errors returncode t
    if is_failed status then write_failure failure else pure tt
    write_attempt a
    write_job j
    append_event x (final_event status) job.id (some attempt.id) status t
    modify (λ w. record w { running = remove w.running job_id })
    if is_failed status && is_exit failure.kind
        then notify_failure callback j a failure
        else pure tt

-- wait, once the monitor has ended
unfoldable pub wait : String → M JobRecord
wait job_id = read_job job_id

mark_cancelled : String → Bool → Option RunningAttempt → World → World
mark_cancelled job_id exited none w = w
mark_cancelled job_id exited (some r) w =
    if exited
    then w
    else record w { running = put w.running job_id (record r { cancel_requested = true }) }

-- cancel, up to its wait for the monitor: `exited` tells that the process has ended already
unfoldable pub request_cancel : String → (exited : Bool) → M JobRecord
unfolding mark_cancelled
request_cancel job_id exited = do
  found ← gets (λ w. get w.running job_id)
  modify (mark_cancelled job_id exited found)
  read_job job_id
