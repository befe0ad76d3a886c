-- ===== src/Jobs/Apart.antt =====
-- The job store and the supervisor leave the incidents and the workspaces alone.
use zgent.Common.{refl, String, Option, none, some, ℕ, List}
use zgent.Common.Dict.{Dict}
use zgent.Common.Exec.{modify}
use zgent.Externals.{Externals}
use zgent.World.{World, IncidentFiles, Tree, Bytes, now}
use zgent.World.Leaves.{Leaves, Leaves-modify, leaves_rules}
use zgent.Jobs.Models.{
  JobRecord, JobSpec, AttemptRecord, FailureRecord, LogStream, JobStatus, JobEventType,
}
use zgent.Jobs.Store.{
  write_job, create_job, read_job, read_spec, list_jobs, write_attempt, read_attempt, write_failure,
  read_failure, read_log_file, set_job_files, set_attempt_files,
}
use zgent.Jobs.Supervisor.{
  Callback, Spawn, spawned, spawn_error, record_launch_failure, run_spawned, launch, open_logs,
  notify_failure, retry,
}
use zgent.Common.Int.{ℤ}
use zgent.Jobs.Monitor.{monitor}
use zgent.Jobs.EventStore.{
  append_event, find_attempt_event, read_events, last_event_seq, repair, load_repairing, uncached,
  append_payload, set_events, set_seq,
}

-- What the training jobs do not touch.
pub record Apart : Type 0 where
  pub incidents : Dict (Dict IncidentFiles)
  pub trees : Dict Tree

abbrev pub apart : World → Apart
apart w = record { incidents = w.incidents; trees = w.trees }

pub now-apart : Leaves apart now
unfolding now
now-apart = record { at = λ w. refl }

ruleset apart_rules = (leaves_rules, Leaves-modify, now-apart)

pub write_job-apart : (r : JobRecord) → Leaves apart (write_job r)
unfolding write_job set_job_files
write_job-apart r = search apart_rules

pub create_job-apart : (r : JobRecord) (s : JobSpec) → Leaves apart (create_job r s)
unfolding create_job set_job_files
create_job-apart r s = search (apart_rules, write_job-apart) depth 9

pub read_job-apart : (j : String) → Leaves apart (read_job j)
unfolding read_job
read_job-apart j = search apart_rules

pub read_spec-apart : (j : String) → Leaves apart (read_spec j)
unfolding read_spec
read_spec-apart j = search apart_rules

pub list_jobs-apart : Leaves apart list_jobs
unfolding list_jobs
list_jobs-apart = search apart_rules

pub write_attempt-apart : (r : AttemptRecord) → Leaves apart (write_attempt r)
unfolding write_attempt set_attempt_files
write_attempt-apart r = search apart_rules

pub read_attempt-apart : (j a : String) → Leaves apart (read_attempt j a)
unfolding read_attempt
read_attempt-apart j a = search apart_rules

pub write_failure-apart : (r : FailureRecord) → Leaves apart (write_failure r)
unfolding write_failure set_attempt_files
write_failure-apart r = search apart_rules

pub read_failure-apart : (j a : String) → Leaves apart (read_failure j a)
unfolding read_failure
read_failure-apart j a = search apart_rules

pub read_log_file-apart : (j a : String) (s : LogStream) → Leaves apart (read_log_file j a s)
unfolding read_log_file
read_log_file-apart j a s = search apart_rules

module _ (x : Externals) where
  pub read_events-apart : (j : String) → Leaves apart (read_events x j)
  unfolding read_events
  read_events-apart j = search apart_rules

  pub find_attempt_event-apart :
      (j a : String) (t : JobEventType) → Leaves apart (find_attempt_event x j a t)
  unfolding find_attempt_event
  find_attempt_event-apart j a t = search (apart_rules, read_events-apart)

  repair-apart : (j : String) (c : Option Bytes) → Leaves apart (modify (repair x j c))
  unfolding repair set_events set_job_files modify
  repair-apart j none = record { at = λ w. refl }
  repair-apart j (some c) = record { at = λ w. refl }

  load_repairing-apart : (j : String) → Leaves apart (load_repairing x j)
  unfolding load_repairing
  load_repairing-apart j = search (leaves_rules, repair-apart)

  uncached-apart : (j : String) (n : Option ℕ) → Leaves apart (uncached x j n)
  unfolding uncached set_seq
  uncached-apart j (some n) = search apart_rules
  uncached-apart j none = search (apart_rules, load_repairing-apart)

  last_event_seq-apart : (j : String) → Leaves apart (last_event_seq x j)
  unfolding last_event_seq
  last_event_seq-apart j = search (leaves_rules, uncached-apart)

  append_payload-apart : (j : String) (b : Bytes) → Leaves apart (append_payload x j b)
  unfolding append_payload set_events set_job_files
  append_payload-apart j b = search apart_rules

  pub append_event-apart :
      (t : JobEventType) (j : String) (a : Option String) (s : JobStatus) (n : ℕ)
      → Leaves apart (append_event x t j a s n)
  unfolding append_event set_seq
  append_event-apart t j a s n = search (apart_rules, last_event_seq-apart, append_payload-apart)

pub ruleset apart_store = (
  leaves_rules, now-apart, write_job-apart, create_job-apart, read_job-apart, read_spec-apart,
  list_jobs-apart, write_attempt-apart, read_attempt-apart, write_failure-apart, read_failure-apart,
  read_log_file-apart, read_events-apart, find_attempt_event-apart, append_event-apart,
)

module _ (x : Externals) (callback : Callback) where
  record_launch_failure-apart :
      (job : JobRecord) (a : AttemptRecord) (m : String)
      → Leaves apart (record_launch_failure x callback job a m)
  unfolding record_launch_failure notify_failure
  record_launch_failure-apart job a m = search apart_store depth 12

  run_spawned-apart :
      (job : JobRecord) (a : AttemptRecord) (o : Spawn)
      → Leaves apart (run_spawned x callback job a o)
  unfolding run_spawned
  run_spawned-apart job a (spawn_error m) = record_launch_failure-apart job a m
  run_spawned-apart job a (spawned pid identity) = search (apart_store, Leaves-modify) depth 12

  launch-apart : (job : JobRecord) (o : Spawn) → Leaves apart (launch x callback job o)
  unfolding launch open_logs set_attempt_files
  launch-apart job o = search (apart_store, Leaves-modify, run_spawned-apart) depth 12

  -- A retry starts a process and touches neither the incidents nor the workspaces, also where the
  -- start fails: a launch error is not passed to the coordinator.
  pub retry-apart : (j : String) (o : Spawn) → Leaves apart (retry x callback j o)
  unfolding retry
  retry-apart j o = search (apart_store, launch-apart) depth 12

-- The end of an attempt touches them as far as its callback does.
pub monitor-apart :
    (x : Externals) (callback : Callback) (print : ℤ → String)
    → ((job : JobRecord) (a : AttemptRecord) (f : FailureRecord) → Leaves apart (callback job a f))
    → (j a : String) (code : ℤ) (errors : List String)
    → Leaves apart (monitor x callback print j a code errors)
unfolding monitor notify_failure
monitor-apart x callback print quiet j a code errors =
    search (apart_store, Leaves-modify, quiet) depth 16
