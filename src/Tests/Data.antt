-- ===== src/Tests/Data.antt =====
-- The data of the concrete runs: a job that has failed, a diagnosis, a proposal, a workspace.
use zgent.Common.{true, false, none, some, [], ◌∷◌}
use zgent.Common.Exec.{ok}
use zgent.Common.Int.{pos}
use zgent.Externals.{Externals}
use zgent.Incidents.Coordinator.Diagnosing.{Fresh}
use zgent.Incidents.Coordinator.Running.{submit_diagnosis, propose_patch, RunOutcome, Turn}
use zgent.Incidents.Coordinator.SmokeTest.{Answers}
use zgent.Incidents.Evidence.{Surroundings}
use zgent.Fsm.{diagnosing}
use zgent.Incidents.Models.{
  Incident, Category, CausalSupport, Diagnosis, Proposal, PatchReceipt, RunStatus,
}
use zgent.Incidents.Patches.{Patches}
use zgent.Incidents.Smoke.{SmokeProcess, exited}
use zgent.Jobs.Models.{
  failed, process_exit, JobSpec, JobRecord, AttemptRecord, FailureRecord, JobEvent, job_failed,
}
use zgent.Jobs.Supervisor.{Callback, spawned}
use zgent.Jobs.Events.Repair.{lines}
use zgent.Tests.Codec.{encode, decode}
use zgent.World.{World, AttemptFiles, JobFiles, Tree, file}

-- An event of the failed attempt.
abbrev pub event : JobEvent
event = record {
  seq = 1;
  type = job_failed;
  job_id = "job-1";
  attempt_id = some "attempt-0001";
  status = failed;
  occurred_at = 9;
}

abbrev pub externals : Externals
externals = record {
  sha256 = λ b. "digest";
  decode_text = λ b. "text";
  encode_event = encode;
  decode_event = decode;
  encode_config = λ c. [];
}

abbrev pub receipt : PatchReceipt
receipt = record { proposal_id = "fix-1"; files = []; applied_at = 40 }

abbrev pub patched : Tree
patched = ("train.py", file (112 ∷ [])) ∷ []

abbrev pub patches : Patches
patches = record {
  apply = λ t p diff tree. (ok receipt, patched);
  reverse = λ p diff r tree. (ok tt, tree);
}

abbrev pub callback : Callback
callback job attempt failure w = (ok tt, w)

abbrev pub job : JobRecord
job = record {
  id = "job-1";
  status = failed;
  created_at = 1;
  updated_at = 9;
  current_attempt_id = some "attempt-0001";
  attempt_ids = "attempt-0001" ∷ [];
}

abbrev pub attempt : AttemptRecord
attempt = record {
  id = "attempt-0001";
  job_id = "job-1";
  status = failed;
  started_at = 2;
  finished_at = some 9;
  pid = some 77;
  process_identity = some "started";
  returncode = some (pos 1);
  signal = none;
  error = none;
}

abbrev pub failure : FailureRecord
failure = record {
  job_id = "job-1";
  attempt_id = "attempt-0001";
  occurred_at = 9;
  kind = process_exit;
  returncode = some (pos 1);
  signal = none;
  message = "process exited with status 1";
  capsule = none;
}

abbrev pub spec : JobSpec
spec = record { argv = "python" ∷ "train.py" ∷ []; workspace_root = "/work"; env = [] }

abbrev pub attempt_dir : AttemptFiles
attempt_dir = record {
  attempt = some attempt;
  failure = some failure;
  out_log = some (111 ∷ []);
  error_log = some (101 ∷ 114 ∷ []);
}

abbrev pub job_dir : JobFiles
job_dir = record {
  job = some job;
  launch = some spec;
  events = some (lines encode (event ∷ []));
  attempts = ("attempt-0001", attempt_dir) ∷ [];
}

-- The job has failed, and no incident is there yet.
abbrev pub at_failure : World
at_failure = record {
  clock = 10;
  jobs = ("job-1", job_dir) ∷ [];
  incidents = [];
  trees = ("/work", ("train.py", file (98 ∷ [])) ∷ []) ∷ [];
  published = [];
  tasks = [];
  running = [];
  accepting_starts = true;
  event_seq = [];
}

abbrev pub around : Surroundings
around = record {
  git_head = some "abc";
  git_status = some "";
  executable = "python";
  version = "3.12";
}

abbrev pub fresh : Fresh
fresh = record { incident_hex = "1"; run_hex = "1" }

abbrev pub diagnosis : Diagnosis
diagnosis = record {
  id = "diag-1";
  incident_id = "inc-1";
  category = Category.shape;
  summary = "shapes differ";
  root_cause = "the head has the wrong width";
  evidence = [];
  confidence = 900000;
  causal_support = CausalSupport.direct;
  patch_recommended = true;
  created_at = 20;
}

abbrev pub proposal : Proposal
proposal = record {
  id = "fix-1";
  incident_id = "inc-1";
  diagnosis_id = some "diag-1";
  patch_sha256 = "digest";
  files = [];
  evidence = [];
  created_at = 21;
}

abbrev pub outcome : RunOutcome
outcome = record {
  status = RunStatus.success;
  reason = none;
  initial_input_bytes = 100;
  peak_input_bytes = 200;
  budget_exhausted = false;
}

abbrev pub turn : Turn
turn = record {
  references = [];
  scanned_bytes = 3;
  selected_bytes = 3;
  duplicates_removed = 0;
  smoke = none;
  smoke_references = [];
  smoke_bytes = 0;
  calls = submit_diagnosis diagnosis true ∷ propose_patch (some (proposal, "diff")) true true ∷ [];
  outcome = outcome;
}

abbrev pub process : SmokeProcess
process = record {
  pid = 80;
  identity = some "smoke";
  out = [];
  errors = [];
  exit = exited (pos 0) 5;
}

abbrev pub answers : Answers
answers = record {
  verifier = ok none;
  process = process;
  evidence = none;
  spawned = spawned 81 (some "retry");
  run_hex = "2";
}

-- An incident with no content.
abbrev pub blank : Incident
blank = record {
  id = "";
  job_id = "";
  attempt_id = "";
  workspace_root = "";
  failure_path = "";
  status = diagnosing;
  active_run_id = none;
  active_proposal_id = none;
  diagnosis = none;
  proposal = none;
  apply_receipt = none;
  smoke_execution = none;
  smoke_result = none;
  last_outcome = none;
  created_at = 0;
  updated_at = 0;
}
