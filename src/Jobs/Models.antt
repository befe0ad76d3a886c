-- ===== src/Jobs/Models.antt =====
-- The records of cyan/training/jobs/models.py, with the failure capsule of
-- cyan/training/incidents/models.py that a failure record embeds. Times are clock readings.
use zgent.Common.{ℕ, String, Bool, Option, List}
use zgent.Common.Dict.{Dict}
use zgent.Common.Int.{ℤ}

-- JobStatus and AttemptStatus: the two list the same words.
pub data JobStatus : Type 0 where
  starting running succeeded failed cancelled interrupted : JobStatus

pub JobStatus-discrete : Discrete JobStatus
JobStatus-discrete = hlevel

pub data LogStream : Type 0 where
  stdout stderr : LogStream

pub data JobEventType : Type 0 where
  job_started job_succeeded job_failed job_cancelled job_interrupted : JobEventType

pub data FailureKind : Type 0 where
  launch_error process_exit supervisor_error : FailureKind

pub record JobSpec : Type 0 where
  pub argv : List String
  pub workspace_root : String
  pub env : Dict String

pub record JobRecord : Type 0 where
  pub id : String
  pub status : JobStatus
  pub created_at : ℕ
  pub updated_at : ℕ
  pub current_attempt_id : Option String
  pub attempt_ids : List String

pub record AttemptRecord : Type 0 where
  pub id : String
  pub job_id : String
  pub status : JobStatus
  pub started_at : ℕ
  pub finished_at : Option ℕ
  pub pid : Option ℕ
  pub process_identity : Option String
  pub returncode : Option ℤ
  pub signal : Option ℕ
  pub error : Option String

pub record LogSnapshot : Type 0 where
  pub size : ℕ
  pub sha256 : String
  pub included_start : ℕ
  pub included_end : ℕ
  pub tail : String

pub record FailureCapsule : Type 0 where
  pub job_id : String
  pub attempt_id : String
  pub argv : List String
  pub cwd : String
  pub occurred_at : ℕ
  pub failure_kind : FailureKind
  pub returncode : Option ℤ
  pub signal : Option ℕ
  pub git_head : Option String
  pub dirty_paths : List String
  pub environment : Dict String
  pub out : LogSnapshot
  pub errors : LogSnapshot

pub record FailureRecord : Type 0 where
  pub job_id : String
  pub attempt_id : String
  pub occurred_at : ℕ
  pub kind : FailureKind
  pub returncode : Option ℤ
  pub signal : Option ℕ
  pub message : String
  pub capsule : Option FailureCapsule

pub record JobEvent : Type 0 where
  pub seq : ℕ
  pub type : JobEventType
  pub job_id : String
  pub attempt_id : Option String
  pub status : JobStatus
  pub occurred_at : ℕ

pub record LogChunk : Type 0 where
  pub stream : LogStream
  pub start_offset : ℕ
  pub end_offset : ℕ
  pub total_bytes : ℕ
  pub eof : Bool
  pub text : String
