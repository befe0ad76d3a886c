-- ===== src/Incidents/Models.antt =====
-- The records of cyan/training/incidents/models.py, smoke.py and store.py. Times are clock
-- readings; a confidence is a whole number of millionths.
use zgent.Common.{ℕ, String, Bool, Option, List}
use zgent.Common.Int.{ℤ}
use zgent.Fsm.{Status}

pub data Category : Type 0 where
  data_fault config shape dtype device memory environment checkpoint io runtime unknown : Category

pub data CausalSupport : Type 0 where
  direct inferred : CausalSupport

pub data EvidenceSource : Type 0 where
  stdout stderr workspace : EvidenceSource

pub data ChangeType : Type 0 where
  create change delete : ChangeType

pub ChangeType-discrete : Discrete ChangeType
ChangeType-discrete = hlevel

pub record EvidenceRef : Type 0 where
  pub source : EvidenceSource
  pub reference : String
  pub description : String

pub record Diagnosis : Type 0 where
  pub id : String
  pub incident_id : String
  pub category : Category
  pub summary : String
  pub root_cause : String
  pub evidence : List EvidenceRef
  pub confidence : ℕ
  pub causal_support : CausalSupport
  pub patch_recommended : Bool
  pub created_at : ℕ

pub record ProposalFile : Type 0 where
  pub path : String
  pub change_type : ChangeType
  pub base_sha256 : Option String

pub record Proposal : Type 0 where
  pub id : String
  pub incident_id : String
  pub diagnosis_id : Option String
  pub patch_sha256 : String
  pub files : List ProposalFile
  pub evidence : List EvidenceRef
  pub created_at : ℕ

pub record AppliedFile : Type 0 where
  pub path : String
  pub applied_sha256 : Option String

pub record PatchReceipt : Type 0 where
  pub proposal_id : String
  pub files : List AppliedFile
  pub applied_at : ℕ

-- The words of SmokeResult.status and of SmokeExecution.status, which adds `running`.
pub data SmokeStatus : Type 0 where
  running passed failed timed_out interrupted : SmokeStatus

pub record SmokeVerifierConfig : Type 0 where
  pub argv : List String
  pub timeout_s : ℕ

pub record SmokeResult : Type 0 where
  pub status : SmokeStatus
  pub returncode : Option ℤ
  pub elapsed_ms : ℕ
  pub stdout_path : String
  pub stderr_path : String

pub record SmokeExecution : Type 0 where
  pub status : SmokeStatus
  pub pid : ℕ
  pub process_identity : String
  pub started_at : ℕ
  pub finished_at : Option ℕ

pub record Incident : Type 0 where
  pub id : String
  pub job_id : String
  pub attempt_id : String
  pub workspace_root : String
  pub failure_path : String
  pub status : Status
  pub active_run_id : Option String
  pub active_proposal_id : Option String
  pub diagnosis : Option Diagnosis
  pub proposal : Option Proposal
  pub apply_receipt : Option PatchReceipt
  pub smoke_execution : Option SmokeExecution
  pub smoke_result : Option SmokeResult
  pub last_outcome : Option String
  pub created_at : ℕ
  pub updated_at : ℕ

pub data RunTrigger : Type 0 where
  initial follow_up smoke_failed retry_failed recovery : RunTrigger

-- The summary dictionary of a run's predecessor: only these three keys occur.
pub record Outcome : Type 0 where
  pub diagnosis : Option Diagnosis
  pub proposal : Option Proposal
  pub smoke_result : Option SmokeResult

-- The words that IncidentRun.status takes.
pub data RunStatus : Type 0 where
  prepared running success failed : RunStatus

pub record SelectedEvidence : Type 0 where
  pub source : EvidenceSource
  pub reference : String
  pub kind : String
  pub selection_reason : String
  pub sha256 : String

pub record IncidentRun : Type 0 where
  pub run_id : String
  pub attempt_id : String
  pub trigger : RunTrigger
  pub instruction : String
  pub smoke_proposal_id : Option String
  pub smoke_stdout_sha256 : Option String
  pub smoke_stderr_sha256 : Option String
  pub status : RunStatus
  pub selected_evidence : List SelectedEvidence
  pub stdout_sha256 : Option String
  pub stderr_sha256 : Option String
  pub previous_outcome_summary : Option Outcome
  pub initial_input_bytes : ℕ
  pub peak_input_bytes : ℕ
  pub budget_exhausted : Bool
  pub scanned_bytes : ℕ
  pub selected_bytes : ℕ
  pub duplicates_removed : ℕ
  pub diagnosis : Option Diagnosis
  pub proposal : Option Proposal
  pub reason : Option String
  pub created_at : ℕ
  pub updated_at : ℕ
