-- ===== src/Jobs/Store.antt =====
-- JobStore (cyan/training/jobs/store.py): the job directories. A file that is absent raises
-- FileNotFoundError; job.json, launch.json, attempt.json and failure.json are written atomically,
-- so what is there reads back.
pub mod Chunks
use zgent.Common.{
  ℕ, zero, suc, ◌+◌, ◌*◌, min, String, Bool, true, false, not, ◌&&◌, ◌||◌, Option, none, some, List,
  [], ◌∷◌, ◌++◌, map, reverse, any, length, take, drop, str_eq, ltb, leb, ◌==◌, is_some,
  if◌then◌else◌,
}
use zgent.Common.Dict.{Dict, get, put, values}
use zgent.Common.Exec.{
  Exec, Error, Result, ok, err, value_error, file_not_found, os_error, ◌>>=◌, ◌>>◌, pure, raise,
  lift, gets, modify,
}
use zgent.Common.Int.{ℤ, pos, negsuc}
use zgent.Common.Sort.{latest_first}
use zgent.Common.Text.{codes}
use zgent.Externals.{Externals}
use zgent.Jobs.Models.{
  JobStatus, JobStatus-discrete, starting, running, failed, interrupted, LogStream, stdout, stderr,
  JobEventType, job_started, job_succeeded, job_failed, job_cancelled, job_interrupted, JobSpec,
  JobRecord, AttemptRecord, FailureRecord, JobEvent, LogChunk,
}
use zgent.Jobs.Events.{load_events, repaired, last_seq, newline}
use zgent.World.{Bytes, AttemptFiles, JobFiles, World, M, now}

is_slash : ℕ → Bool
is_slash c = c == b'/'

-- _component: one path component
unfoldable pub component : String → Result (Unit {0})
unfolding is_slash
component value =
    if str_eq value "" || any is_slash (codes value) || str_eq value "." || str_eq value ".."
    then err value_error
    else ok tt

abbrev pub or_no_job : Option JobFiles → JobFiles
or_no_job none = record { job = none; launch = none; events = none; attempts = [] }
or_no_job (some fs) = fs

abbrev or_no_attempt : Option AttemptFiles → AttemptFiles
or_no_attempt none = record { attempt = none; failure = none; out_log = none; error_log = none }
or_no_attempt (some fs) = fs

unfoldable pub job_files : World → String → JobFiles
job_files w j = or_no_job (get w.jobs j)

unfoldable pub set_job_files : String → JobFiles → World → World
set_job_files j fs w = record w { jobs = put w.jobs j fs }

unfoldable pub attempt_files : World → String → String → AttemptFiles
unfolding job_files
attempt_files w j a = or_no_attempt (get (job_files w j).attempts a)

unfoldable pub set_attempt_files : String → String → AttemptFiles → World → World
unfolding job_files set_job_files
set_attempt_files j a fs w =
    let all = job_files w j in set_job_files j (record all { attempts = put all.attempts a fs }) w

unfoldable pub found {ℓ} : {A : Type ℓ} → Option A → Result A
found none = err file_not_found
found (some a) = ok a

-- write_job
unfoldable pub write_job : JobRecord → M (Unit {0})
write_job r = do
  lift (component r.id)
  modify (λ w. set_job_files r.id (record (job_files w r.id) { job = some r }) w)

-- create_job: mkdir(exist_ok=False)
unfoldable pub create_job : JobRecord → JobSpec → M (Unit {0})
create_job r spec = do
  lift (component r.id)
  taken ← gets (λ w. is_some (get w.jobs r.id))
  if taken then raise os_error else do
    write_job r
    modify (λ w. set_job_files r.id (record (job_files w r.id) { launch = some spec }) w)
    modify (λ w. set_job_files r.id (record (job_files w r.id) { events = some [] }) w)

-- read_job
unfoldable pub read_job : String → M JobRecord
unfolding found
read_job j = do lift (component j); r ← gets (λ w. (job_files w j).job); lift (found r)

-- read_spec
unfoldable pub read_spec : String → M JobSpec
unfolding found
read_spec j = do lift (component j); spec ← gets (λ w. (job_files w j).launch); lift (found spec)

unfoldable pub job_records : List JobFiles → List JobRecord
job_records [] = []
job_records (fs ∷ rest) = elim fs.job [ none ↦ job_records rest | some r ↦ r ∷ job_records rest ]

-- list_jobs: the latest update comes first
unfoldable pub list_jobs : M (List JobRecord)
unfolding job_records
list_jobs = gets (λ w. latest_first (λ (r : JobRecord). r.updated_at) (job_records (values w.jobs)))

-- attempt_dir's checks
unfoldable pub attempt_dir : String → String → M (Unit {0})
attempt_dir j a = do lift (component j); lift (component a)

-- write_attempt
unfoldable pub write_attempt : AttemptRecord → M (Unit {0})
unfolding attempt_dir
write_attempt r = do
  attempt_dir r.job_id r.id
  modify (λ w.
      set_attempt_files r.job_id r.id (record (attempt_files w r.job_id r.id) { attempt = some r })
        w)

-- read_attempt
unfoldable pub read_attempt : String → String → M AttemptRecord
unfolding found attempt_dir
read_attempt j a = do attempt_dir j a; r ← gets (λ w. (attempt_files w j a).attempt); lift (found r)

-- write_failure
unfoldable pub write_failure : FailureRecord → M (Unit {0})
unfolding attempt_dir
write_failure r = do
  attempt_dir r.job_id r.attempt_id
  modify (λ w.
      set_attempt_files r.job_id r.attempt_id
        (record (attempt_files w r.job_id r.attempt_id) { failure = some r }) w)

-- read_failure
unfoldable pub read_failure : String → String → M FailureRecord
unfolding found attempt_dir
read_failure j a = do attempt_dir j a; r ← gets (λ w. (attempt_files w j a).failure); lift (found r)

pub log_of : LogStream → AttemptFiles → Option Bytes
log_of stdout fs = fs.out_log
log_of stderr fs = fs.error_log

-- The file behind log_path(job_id, attempt_id, stream).
unfoldable pub read_log_file : String → String → LogStream → M (Option Bytes)
unfolding attempt_dir log_of
read_log_file j a s = do attempt_dir j a; gets (λ w. log_of s (attempt_files w j a))

abbrev pub max_log_read_bytes : ℕ
max_log_read_bytes = 32 * 1024

module _ (x : Externals) where
  chunk : LogStream → ℕ → ℕ → Option Bytes → LogChunk
  chunk s offset limit none = record {
    stream = s;
    start_offset = 0;
    end_offset = 0;
    total_bytes = 0;
    eof = true;
    text = x.decode_text [];
  }
  chunk s offset limit (some content) =
      let total = length content in
      let start = min offset total in
      let read = take limit (drop start content) in
      record {
        stream = s;
        start_offset = start;
        end_offset = start + length read;
        total_bytes = total;
        eof = leb total (start + length read);
        text = x.decode_text read;
      }

  checked_log : String → String → LogStream → ℕ → ℕ → M LogChunk
  unfolding chunk
  checked_log j a s offset limit = do
    read_attempt j a
    content ← read_log_file j a s
    pure (chunk s offset limit content)

  bounded_log : String → String → LogStream → ℕ → ℤ → M LogChunk
  unfolding checked_log
  bounded_log j a s offset (negsuc n) = raise value_error
  bounded_log j a s offset (pos limit) =
      if ltb limit 1 || ltb max_log_read_bytes limit
      then raise value_error
      else checked_log j a s offset limit

  -- read_log
  unfoldable pub read_log : String → String → LogStream → ℤ → ℤ → M LogChunk
  unfolding bounded_log
  read_log j a s (negsuc n) limit = raise value_error
  read_log j a s (pos offset) limit = bounded_log j a s offset limit
