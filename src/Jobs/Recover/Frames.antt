-- ===== src/Jobs/Recover/Frames.antt =====
-- What leaves every job.json alone.
use zgent.Common.{ℕ, String, str_eq, eq_iff, ◌≡◌, refl, Option, none, some, arith, if◌then◌else◌}
use zgent.Common.Dict.{put, get-put}
use zgent.Common.Exec.{modify}
use zgent.Externals.{Externals}
use zgent.Jobs.Models.{JobRecord, JobStatus, AttemptRecord, JobEventType}
use zgent.Jobs.Store.{
  job_files, set_job_files, set_attempt_files, attempt_dir, write_attempt, read_attempt,
  read_failure,
}
use zgent.Jobs.EventStore.{
  append_event, read_events, last_event_seq, load_repairing, uncached, append_payload, set_events,
  set_seq, repair,
}
use zgent.World.{World, Bytes, JobFiles, AttemptFiles, now}
use zgent.World.Leaves.{Leaves, Leaves-modify, leaves_rules}

-- job.json of one job.
unfoldable pub job_at : String → World → Option JobRecord
job_at j w = (job_files w j).job

pub job_at-set :
    (j k : String) (fs : JobFiles) (w : World)
    → (job_files (set_job_files k fs w) j) ≡ (if str_eq k j then fs else job_files w j)
unfolding job_files set_job_files
job_at-set j k fs w = ground (arith, get-put w.jobs k j fs)

pub set_attempt_files-job :
    (j k a : String) (fs : AttemptFiles) (w : World)
    → job_at j (set_attempt_files k a fs w) ≡ job_at j w
unfolding job_at set_attempt_files
set_attempt_files-job j k a fs w = ground (
  arith,
  eq_iff k j,
  job_at-set j k (record (job_files w k) { attempts = put (job_files w k).attempts a fs }) w,
)

pub set_events-job :
    (j k : String) (b : Bytes) (w : World) → job_at j (set_events k b w) ≡ job_at j w
unfolding job_at set_events
set_events-job j k b w =
    ground (arith, eq_iff k j, job_at-set j k (record (job_files w k) { events = some b }) w)

module _ (j : String) where
  pub now-job : Leaves (job_at j) now
  unfolding now job_at job_files
  now-job = record { at = λ w. refl }

  pub attempt_dir-job : (k a : String) → Leaves (job_at j) (attempt_dir k a)
  unfolding attempt_dir
  attempt_dir-job k a = search leaves_rules

  pub write_attempt-job : (r : AttemptRecord) → Leaves (job_at j) (write_attempt r)
  unfolding write_attempt
  write_attempt-job r = search (leaves_rules, Leaves-modify, set_attempt_files-job, attempt_dir-job)

  pub read_attempt-job : (k a : String) → Leaves (job_at j) (read_attempt k a)
  unfolding read_attempt
  read_attempt-job k a = search (leaves_rules, attempt_dir-job)

  pub read_failure-job : (k a : String) → Leaves (job_at j) (read_failure k a)
  unfolding read_failure
  read_failure-job k a = search (leaves_rules, attempt_dir-job)

module _ (x : Externals) (j : String) where
  pub read_events-job : (k : String) → Leaves (job_at j) (read_events x k)
  unfolding read_events
  read_events-job k = search leaves_rules

  pub repair-job : (k : String) (c : Option Bytes) → Leaves (job_at j) (modify (repair x k c))
  unfolding repair modify
  repair-job k none = record { at = λ w. refl }
  repair-job k (some c) = record { at = λ w. set_events-job j k _ w }

  pub set_seq-job : (k : String) (n : ℕ) → Leaves (job_at j) (modify (set_seq k n))
  unfolding set_seq modify job_at job_files
  set_seq-job k n = record { at = λ w. refl }

  pub load_repairing-job : (k : String) → Leaves (job_at j) (load_repairing x k)
  unfolding load_repairing
  load_repairing-job k = search (leaves_rules, repair-job)

  pub uncached-job : (k : String) (n : Option ℕ) → Leaves (job_at j) (uncached x k n)
  unfolding uncached
  uncached-job k (some n) = search leaves_rules
  uncached-job k none = search (leaves_rules, load_repairing-job, set_seq-job)

  pub last_event_seq-job : (k : String) → Leaves (job_at j) (last_event_seq x k)
  unfolding last_event_seq
  last_event_seq-job k = search (leaves_rules, uncached-job)

  pub append_payload-job : (k : String) (b : Bytes) → Leaves (job_at j) (append_payload x k b)
  unfolding append_payload
  append_payload-job k b = search (leaves_rules, Leaves-modify, set_events-job)

  pub append_event-job :
      (t : JobEventType) (k : String) (a : Option String) (s : JobStatus) (n : ℕ)
      → Leaves (job_at j) (append_event x t k a s n)
  unfolding append_event
  append_event-job t k a s n =
      search (leaves_rules, last_event_seq-job, append_payload-job, set_seq-job) depth 9

pub ruleset quiet_jobs = (
  leaves_rules, now-job, write_attempt-job, read_attempt-job, read_failure-job, read_events-job,
  append_event-job,
)
