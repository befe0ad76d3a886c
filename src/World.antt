-- ===== src/World.antt =====
-- The state that the training subsystem reads and writes: the job and incident directories on
-- disk, the workspaces, the published events, and the daemon's own memory.
pub mod Laws
pub mod Leaves
pub mod Runs
use zgent.Common.{
  ℕ, suc, String, Bool, true, false, Option, none, some, List, [], ◌∷◌, ◌++◌, if◌then◌else◌,
}
use zgent.Common.Dict.{Dict, get, put}
use zgent.Common.Exec.{Exec, Result, ok}
use zgent.Common.Int.{ℤ}
use zgent.Jobs.Models.{JobSpec, JobRecord, AttemptRecord, FailureRecord, JobStatus}
use zgent.Fsm.{Status}
use zgent.Incidents.Models.{Incident, IncidentRun, SmokeStatus}

-- A JSON file of a model: absent, refused by the model's validation, or a record.
pub data Stored {ℓ} (A : Type ℓ) : Type ℓ where
  missing malformed : Stored A
  stored : A → Stored A

abbrev pub Bytes : Type 0
Bytes = List ℕ

-- attempts/<attempt_id>/
pub record AttemptFiles : Type 0 where
  pub attempt : Option AttemptRecord
  pub failure : Option FailureRecord
  pub out_log : Option Bytes
  pub error_log : Option Bytes

-- <job_id>/, without its incidents
pub record JobFiles : Type 0 where
  pub job : Option JobRecord
  pub launch : Option JobSpec
  pub events : Option Bytes
  pub attempts : Dict AttemptFiles

-- smoke/<proposal_id>/
pub record SmokeLogs : Type 0 where
  pub out_log : Option Bytes
  pub error_log : Option Bytes

-- <job_id>/incidents/<incident_id>/
pub record IncidentFiles : Type 0 where
  pub snapshot : Stored Incident
  pub diff : Option String
  pub smoke : Dict SmokeLogs
  pub runs : Dict IncidentRun

-- A node of a workspace: a regular file, or one that no patch may touch.
pub data Node : Type 0 where
  file : Bytes → Node
  symlink directory : Node

-- The nodes of one workspace by their path from its root.
abbrev pub Tree : Type 0
Tree = Dict Node

-- cyan/training/events.py
pub data BusEvent : Type 0 where
  job_started :
      (seq : ℕ) (job_id attempt_id : String) (argv : List String) (root : String) → BusEvent
  job_finished :
      (seq : ℕ) (job_id attempt_id : String)
      → JobStatus
      → (exit_code : Option ℤ) → Option ℕ
      → BusEvent
  incident_opened : (job_id incident_id attempt_id : String) → BusEvent
  incident_status_changed : (job_id incident_id : String) → Status → BusEvent
  patch_proposed : (job_id incident_id proposal_id summary : String) → BusEvent
  smoke_finished : (job_id incident_id : String) → SmokeStatus → (exit_code : Option ℤ) → BusEvent

-- The background tasks of the coordinator.
pub data Task : Type 0 where
  run_diagnosis : (job_id incident_id run_id : String) → Task
  observe_retry : (job_id incident_id : String) → Task

-- An entry of JobSupervisor._running
pub record RunningAttempt : Type 0 where
  pub attempt_id : String
  pub cancel_requested : Bool

pub record World : Type 0 where
  pub clock : ℕ
  pub jobs : Dict JobFiles
  pub incidents : Dict (Dict IncidentFiles)
  pub trees : Dict Tree
  pub published : List BusEvent
  pub tasks : List Task
  pub running : Dict RunningAttempt
  pub accepting_starts : Bool
  pub event_seq : Dict ℕ

abbrev pub M : Type 0 → Type 0
M A = Exec World A

-- _now(): the clock reads a later value each time.
unfoldable pub now : M ℕ
now w = (ok w.clock, record w { clock = suc w.clock })

-- EventBus.publish; subscribers are assumed to return.
unfoldable pub publish : BusEvent → M (Unit {0})
publish e w = (ok tt, record w { published = w.published ++ (e ∷ []) })

-- IncidentCoordinator._spawn
unfoldable pub spawn : Task → M (Unit {0})
spawn t w = (ok tt, record w { tasks = w.tasks ++ (t ∷ []) })

abbrev pub or_empty {ℓ} : {V : Type ℓ} → Option (Dict V) → Dict V
or_empty none = []
or_empty (some d) = d

-- The incident directories of a job: an IncidentStore creates its root if need be.
unfoldable pub incident_dirs : World → String → Dict IncidentFiles
incident_dirs w j = or_empty (get w.incidents j)

abbrev pub no_files : IncidentFiles
no_files = record { snapshot = missing; diff = none; smoke = []; runs = [] }

abbrev pub or_no_files : Option IncidentFiles → IncidentFiles
or_no_files none = no_files
or_no_files (some fs) = fs

-- The files of one incident; a directory that is absent has none.
unfoldable pub incident_files : World → String → String → IncidentFiles
unfolding incident_dirs
incident_files w j k = or_no_files (get (incident_dirs w j) k)

unfoldable pub set_incident_files : World → String → String → IncidentFiles → World
unfolding incident_dirs
set_incident_files w j k fs = record w {
  incidents = put w.incidents j (put (incident_dirs w j) k fs);
}

unfoldable pub snapshot : World → String → String → Stored Incident
unfolding incident_files
snapshot w j k = (incident_files w j k).snapshot
