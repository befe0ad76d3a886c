-- ===== src/Incidents/Coordinator/Deciding/Paths.antt =====
-- A decision, and the outcome of a retry, move statuses along the state machine, by an approval or
-- a rejection of their own incident only.
use zgent.Common.{String, subst, Bool, Option, none, some}
use zgent.Externals.{Externals}
use zgent.Incidents.Models.{Incident, Proposal, PatchReceipt}
use zgent.Incidents.Moves.{
  Actor, approves, rejects, observes, approving, rejecting, confirming, Keeps-bind, Keeps-pure,
  Keeps-if, Keeps,
}
use zgent.Incidents.Patches.{Patches}
use zgent.Incidents.Coordinator.Paths.{
  keeps_shared, Keeps-dispatch, Keeps-read_then, Keeps-find_incident, Keeps-apart,
}
use zgent.Incidents.Coordinator.SmokeTest.{Answers}
use zgent.Incidents.Moves.Rules.{Keeps-read_incident}
use zgent.Incidents.Coordinator.SmokeTest.Paths.{Keeps-run_smoke, Keeps-on_tree}
use zgent.Incidents.Coordinator.Deciding.{
  Decision, approved, rejected, decide, decided, approve_checked, carry_out, applied,
  smoke_and_retry, start_retry, retried, announce_retry, announce_started, observe_retry, settle,
  announce_final, find_final, publish_final, read_current, active_proposal, has_code,
}
use zgent.Jobs.Apart.{
  retry-apart, read_spec-apart, find_attempt_event-apart, read_attempt-apart, read_job-apart,
}
use zgent.Jobs.Models.{JobRecord, JobSpec, JobEvent, JobStatus, JobEventType, AttemptRecord}
use zgent.Jobs.Monitor.{wait}
use zgent.Jobs.Supervisor.{Callback}

-- On whose behalf a decision on an incident runs.
abbrev pub deciding : Decision → String → Actor
deciding approved k = approves k
deciding rejected k = rejects k

module _ (x : Externals) (patches : Patches) (callback : Callback) where
  Keeps-announce_started :
      {who : Actor}
      → (job : JobRecord) (spec : JobSpec) (a : String) (e : Option JobEvent)
      → Keeps who (announce_started x patches callback job spec a e)
  unfolding announce_started
  Keeps-announce_started job spec a none = search keeps_shared
  Keeps-announce_started job spec a (some e) = search keeps_shared

  pub Keeps-announce_retry :
      {who : Actor}
      → (job : JobRecord) (spec : JobSpec) (a : Option String)
      → Keeps who (announce_retry x patches callback job spec a)
  unfolding announce_retry
  Keeps-announce_retry job spec none = search keeps_shared
  Keeps-announce_retry job spec (some a) =
      search (keeps_shared, Keeps-apart, find_attempt_event-apart, Keeps-announce_started)

  Keeps-retried :
      {who : Actor}
      → (j k : String) (spec : JobSpec) (job : Option JobRecord)
      → Keeps who (retried x patches callback j k spec job)
  unfolding retried
  Keeps-retried j k spec none = search keeps_shared
  Keeps-retried j k spec (some job) = search (keeps_shared, Keeps-announce_retry)

  Keeps-start_retry :
      {who : Actor}
      → (j k job_id : String) (spec : JobSpec) (answers : Answers)
      → Keeps who (start_retry x patches callback j k job_id spec answers)
  unfolding start_retry
  Keeps-start_retry j k job_id spec answers =
      search (keeps_shared, Keeps-apart, retry-apart, Keeps-retried)

  Keeps-smoke_and_retry :
      {who : Actor}
      → (j : String) (i : Incident) (p : String) (spec : JobSpec) (answers : Answers) (b : Bool)
      → Keeps who (smoke_and_retry x patches callback j i p spec answers b)
  unfolding smoke_and_retry
  Keeps-smoke_and_retry j i p spec answers b =
      search (keeps_shared, Keeps-run_smoke, Keeps-start_retry) depth 9

  Keeps-applied :
      {who : Actor}
      → (j : String) (i : Incident) (p : String) (spec : JobSpec) (answers : Answers) (b : Bool)
        (receipt : Option PatchReceipt)
      → Keeps who (applied x patches callback j i p spec answers b receipt)
  unfolding applied
  Keeps-applied j i p spec answers b none = search keeps_shared
  Keeps-applied j i p spec answers b (some receipt) = search (keeps_shared, Keeps-smoke_and_retry)

  Keeps-carry_out :
      (j : String) (i : Incident) (o : Proposal) (p : String) (spec : JobSpec) (answers : Answers)
      (b : Bool)
      → Keeps (approves i.id) (carry_out x patches callback j i o p spec answers b)
  unfolding carry_out
  Keeps-carry_out j i o p spec answers b =
      search (keeps_shared, Keeps-dispatch, approving, Keeps-on_tree, Keeps-applied) depth 12

  Keeps-approve_checked :
      (j : String) (i : Incident) (o : Proposal) (p : String) (b : Bool) (f : Option String)
      (spec : JobSpec) (answers : Answers)
      → Keeps (approves i.id) (approve_checked x patches callback j i o p b f spec answers)
  unfolding approve_checked
  Keeps-approve_checked j i o p b f spec answers = search (keeps_shared, Keeps-carry_out) depth 9

  Keeps-decided :
      (j : String) (i : Incident) (p : String) (d : Decision) (b : Bool) (f : Option String)
      (answers : Answers) (o : Option Proposal)
      → Keeps (deciding d i.id) (decided x patches callback j i p d b f answers o)
  unfolding decided
  Keeps-decided j i p d b f answers none = search keeps_shared
  Keeps-decided j i p rejected b f answers (some o) =
      search (keeps_shared, Keeps-dispatch, rejecting)
  Keeps-decided j i p approved b f answers (some o) =
      search (keeps_shared, Keeps-apart, read_spec-apart, Keeps-approve_checked) depth 9

  -- A decision on a proposal, on every branch and however the patch, the smoke test and the start
  -- of the retry end, loses no incident, keeps each under its own id, and moves the statuses along
  -- the state machine only.
  pub decide-Keeps :
      (k p : String) (d : Decision) (b : Bool) (f : Option String) (answers : Answers)
      → Keeps (deciding d k) (decide x patches callback k p d b f answers)
  unfolding decide
  decide-Keeps k p d b f answers = Keeps-bind _ _ (Keeps-find_incident k) λ found.
      Keeps-read_then found.0 k _ λ i named. Keeps-if _ _ _ (Keeps-pure _) (
        subst
          (λ y.
            Keeps (deciding d y)
              (decided x patches callback found.0 i p d b f answers (active_proposal i p)))
          named (Keeps-decided found.0 i p d b f answers _))

  pub Keeps-read_current :
      {who : Actor}
      → (j : String) (a : Option String) → Keeps who (read_current x patches callback j a)
  unfolding read_current
  Keeps-read_current j none = search keeps_shared
  Keeps-read_current j (some a) = search (keeps_shared, Keeps-apart, read_attempt-apart)

  Keeps-find_final :
      {who : Actor}
      → (job : JobRecord) (a : String) (t : Option JobEventType)
      → Keeps who (find_final x patches callback job a t)
  unfolding find_final
  Keeps-find_final job a none = search keeps_shared
  Keeps-find_final job a (some t) = Keeps-apart _ (find_attempt_event-apart x job.id a t)

  Keeps-publish_final :
      {who : Actor}
      → (job : JobRecord) (a : AttemptRecord) (e : Option JobEvent)
      → Keeps who (publish_final x patches callback job a e)
  unfolding publish_final
  Keeps-publish_final job a none = search keeps_shared
  Keeps-publish_final job a (some e) = search keeps_shared

  pub Keeps-announce_final :
      {who : Actor}
      → (job : JobRecord) (a : Option AttemptRecord)
      → Keeps who (announce_final x patches callback job a)
  unfolding announce_final
  Keeps-announce_final job none = search keeps_shared
  Keeps-announce_final job (some a) = search (keeps_shared, Keeps-find_final, Keeps-publish_final)

  Keeps-settle :
      (j : String) (i : Incident) (s : JobStatus) (b : Bool)
      → Keeps (observes i.id) (settle x patches callback j i s b)
  unfolding settle
  Keeps-settle j i s b = search (keeps_shared, Keeps-dispatch, confirming)

  -- The observation of a retry moves the statuses along the state machine only.
  pub observe_retry-Keeps :
      (j k : String) → Keeps (observes k) (observe_retry x patches callback j k)
  unfolding observe_retry wait
  observe_retry-Keeps j k = Keeps-bind _ _ (Keeps-read_incident j k) λ i.
      Keeps-bind _ _ (Keeps-apart _ (read_job-apart i.job_id)) λ job.
        Keeps-bind _ _ (Keeps-read_current job.id job.current_attempt_id) λ attempt.
          Keeps-bind _ _ (Keeps-announce_final job attempt) λ u.
            Keeps-read_then j k _ λ current named.
              subst
                (λ y. Keeps (observes y) (
                  settle x patches callback j current job.status
                    (has_code x patches callback attempt)))
                named (Keeps-settle j current job.status (has_code x patches callback attempt))
