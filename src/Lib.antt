-- ===== src/Lib.antt =====
-- Verification of cyan (src/cyan), the daemon that watches training jobs, investigates their crashes
-- with a language model, and patches the workspace after the user's approval.
--
-- The parts and how they interact. A JobSupervisor starts the process of a job, drains its output
-- into log files and persists its end in a JobStore; for a failed exit it calls the
-- IncidentCoordinator. The coordinator keeps one Incident for the failure in an IncidentStore, starts
-- a diagnosis run, whose tools write a diagnosis and a proposal, and waits for the user's decision;
-- an approved proposal is applied to the workspace, tried by a smoke test, rolled back if that fails,
-- and otherwise the job is retried. Each change of an incident's status is checked against the table
-- of fsm.py.
--
-- Files. `cyan` below stands for src/cyan.
--   Common      helpers: lists and numbers, Python's str and dict, actions with exceptions
--   Externals   hashing, JSON and text decoding, which libraries provide
--   World       the state: the job and incident directories, the workspaces, the published events
--               (cyan/training/events.py, cyan/agent/events/bus.py), the daemon's memory; World/Leaves
--               has the rules for actions that leave a part of it alone
--   Fsm         cyan/training/incidents/fsm.py: Event, TRANSITIONS, RECOVERY, accepts, transition
--   Jobs        Models: cyan/training/jobs/models.py
--               Store, Events, EventStore, Recover: cyan/training/jobs/store.py (JobStore); Events has
--               the event file as bytes, with its repair after a crash
--               Supervisor, Monitor: cyan/training/jobs/supervisor.py (JobSupervisor)
--               Apart: what the jobs do not touch
--   Incidents   Models: cyan/training/incidents/models.py and the records of smoke.py and store.py
--               Store: cyan/training/incidents/store.py (IncidentStore)
--               Evidence: cyan/training/incidents/evidence.py (build_failure_capsule)
--               Smoke: cyan/training/incidents/smoke.py, and select_smoke_evidence of evidence.py
--               Patches: what the coordinator needs of PatchService
--               Patch: cyan/training/incidents/patch.py: parse_unified_diff; its children Hunks
--               (apply_unified_diff_to_text), Diff (build_replacement_diff), Workspace (the files of a
--               proposal) and Service (PatchService, an instance of Patches)
--               Selector: cyan/training/incidents/selector.py: the scan of a log, with its patterns;
--               Choice (select_evidence)
--               Replacing: cyan/training/incidents/tools.py: the search-and-replace of propose_patch
--               LogTool: cyan/training/incidents/log_tool.py
--               Coordinator: cyan/training/incidents/coordinator.py, with one child module per
--               handler: Diagnosing (handle_failure, follow_up), Running (_run_diagnosis, with
--               IncidentRuntime.run of runtime.py and the tools of tools.py), SmokeTest (_run_smoke),
--               Deciding (decide, _observe_retry), Recovering (recover)
--               Moves: the paths that the statuses take, by the events that an actor brings about;
--               Lifecycle: sequences of handlers, Decisions and Retries: what they contain
--   Service     Broadcaster: cyan/service/transport/ipc_broadcaster.py (IpcEventBroadcaster)
--   Tests       concrete runs
--
-- How the code is read. An action takes the state and returns a value or an exception with the
-- state that it leaves, so what was written before a raise stays written. The handlers that change
-- one incident exclude one another in the code, by its decision lock or by its status, and each is
-- one action here; a sequence of actions is a Run. What the outside decides in an action (the
-- outcome of a spawn, exit codes, write errors, Git's answers, the model's tool calls, the smoke
-- process, random ids) is an argument. Times are clock readings, each later than the one before. A
-- file that is written atomically is absent, or a record that reads back, or for a snapshot one
-- that the validators refuse. A loop is a recursion on a list; three loops have fuel: that of
-- _smoke_block, one more than its tail has bytes, and more changes nothing (fit-fuel in
-- Incidents/Smoke/Fits), that of _search_file, one more than the log has bytes, and that of
-- select_evidence, as much as its content has bytes (shorten-IsFit in Incidents/Selector/Budget).
-- Bytes and code points are native natural numbers, and a path is a text.
--
-- Not modelled. The prompts, the validator of evidence that tools.py is given, and the agent loop
-- are arguments of a run. Git, the comparison of two files by difflib, and the regular expressions'
-- Unicode digits are outside. The socket server, the language-model clients, the CLI and the TUI
-- are input and output. A Run is a run of one daemon process: what recover does to the statuses at
-- a restart is defined, but not part of a Run.
pub mod Common
pub mod Externals
pub mod World
pub mod Fsm
pub mod Jobs
pub mod Incidents
pub mod Service
mod Tests
