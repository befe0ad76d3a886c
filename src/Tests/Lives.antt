-- ===== src/Tests/Lives.antt =====
-- The life of one incident, from the failure to the successful retry.
use zgent.Common.{String, ◌≡◌, ◌≢◌, refl, ap, ◌⊎◌, arith, true, false, Option, none, some, []}
use zgent.Common.Int.{pos}
use zgent.Fsm
use zgent.Fsm.{
  Event, is_terminal, retry_succeeded, retry_started, awaiting_approval, retry_running, resolved,
}
use zgent.Common.Exec.{ok}
use zgent.Incidents.Coordinator.Deciding.{approved, decide, observe_retry}
use zgent.Incidents.Coordinator.Deciding.Trees.{MayPatch, decide-trees}
use zgent.Incidents.Coordinator.Diagnosing.{handle_failure, follow_up}
use zgent.Incidents.Coordinator.Running.{run_diagnosis}
use zgent.Incidents.Coordinator.Running.Finished.{run_diagnosis-concludes}
use zgent.Incidents.Coordinator.Deciding.Reports.{decide-reports}
use zgent.Incidents.Lifecycle.{
  Run, start, next, failed, investigated, asked, decided, observed, elsewhere, Run-IsKeyed,
  closed_stays,
}
use zgent.Incidents.Coordinator.Deciding
use zgent.Incidents.Lifecycle.Decisions.{HasDecision, rejected_after_rejection}
use zgent.Incidents.Lifecycle.Retries.{HasSuccess, resolved_after_approval}
use zgent.Incidents.Moves.{IsKeyed}
use zgent.Incidents.Models.{Incident}
use zgent.Jobs.Apart.{apart, monitor-apart}
use zgent.Jobs.Models.{JobRecord, AttemptRecord, FailureRecord}
use zgent.World.Leaves.{Leaves}
use zgent.Jobs.Monitor.{monitor}
use zgent.Tests.Data.{
  blank, externals, patches, callback, at_failure, around, fresh, job, attempt, failure, turn,
  answers,
}
use zgent.Tests.Code.{code}
use zgent.World.{World, Stored, missing, malformed, stored, snapshot}

abbrev opened : World
opened = (handle_failure externals around fresh job attempt failure at_failure).1

abbrev proposed : World
proposed = (run_diagnosis externals "job-1" "inc-1" "run-1" turn opened).1

abbrev retried : World
retried = (decide externals patches callback "inc-1" "fix-1" approved false none answers proposed).1

abbrev ended : World
ended = (monitor externals callback (λ n. "0") "job-1" "attempt-0002" (pos 0) [] retried).1

abbrev over : World
over = (observe_retry externals patches callback "job-1" "inc-1" ended).1

abbrev status_of : Stored Incident → Option Fsm.Status
status_of (stored i) = some i.status
status_of missing = none
status_of malformed = none

opened-status : status_of (snapshot opened "job-1" "inc-1") ≡ some Fsm.diagnosing
unfolding code
opened-status = refl

proposed-status : status_of (snapshot proposed "job-1" "inc-1") ≡ some awaiting_approval
unfolding code
proposed-status = refl

over-status : status_of (snapshot over "job-1" "inc-1") ≡ some resolved
unfolding code
over-status = refl

incident_in : Stored Incident → Incident
incident_in (stored i) = i
incident_in missing = blank
incident_in malformed = blank

abbrev first : World → Incident
first w = incident_in (snapshot w "job-1" "inc-1")

stored_with :
    (o : Stored Incident) (s : Fsm.Status)
    → status_of o ≡ some s
    → (o ≡ stored (incident_in o)) × ((incident_in o).status ≡ s)
unfolding incident_in
stored_with o s h = ground (arith, h)

quiet : (j : JobRecord) (a : AttemptRecord) (f : FailureRecord) → Leaves apart (callback j a f)
quiet j a f = record { at = λ w. refl }

ended-incidents : ended.incidents ≡ retried.incidents
ended-incidents =
    ap (λ w. w.incidents)
      ((monitor-apart externals callback (λ n. "0") quiet "job-1" "attempt-0002" (pos 0) []).at
        retried)

-- From the failure to the successful retry.
life : Run externals patches callback at_failure over
unfolding code
life =
    next
      (next
        (next
          (next (next start (failed around fresh job attempt failure refl))
            (investigated "job-1" "inc-1" "run-1" turn))
          (decided "inc-1" "fix-1" approved false none answers))
        (elsewhere ended ended-incidents))
      (observed "job-1" "inc-1")

none_yet : (j k : String) → snapshot at_failure j k ≡ missing
unfolding code
none_yet j k = refl

over-stored :
    (snapshot over "job-1" "inc-1" ≡ stored (first over)) × ((first over).status ≡ resolved)
over-stored = stored_with (snapshot over "job-1" "inc-1") resolved over-status

at_failure-IsKeyed : IsKeyed at_failure
at_failure-IsKeyed = record { at = λ j k i e. ground (arith, none_yet j k) }

later : Run externals patches callback opened over
unfolding code
later =
    next
      (next
        (next (next start (investigated "job-1" "inc-1" "run-1" turn))
          (decided "inc-1" "fix-1" approved false none answers))
        (elsewhere ended ended-incidents))
      (observed "job-1" "inc-1")

opened-IsKeyed : IsKeyed opened
opened-IsKeyed =
    (Run-IsKeyed externals patches callback
      (next start (failed around fresh job attempt failure (none_yet "job-1" "inc-1")))
      at_failure-IsKeyed)

opened-stored : snapshot opened "job-1" "inc-1" ≡ stored (first opened)
opened-stored = (stored_with (snapshot opened "job-1" "inc-1") Fsm.diagnosing opened-status).0

abbrev asked_again : World
asked_again = (follow_up "inc-1" "Why?" "3" over).1

over-IsKeyed : IsKeyed over
over-IsKeyed = (Run-IsKeyed externals patches callback life at_failure-IsKeyed)

over-closed : is_terminal (first over).status ≡ true
unfolding is_terminal
over-closed = rw over-stored.1 refl

resolved_after_approval_example : HasSuccess externals patches callback "inc-1" over life
resolved_after_approval_example =
    resolved_after_approval externals patches callback life at_failure-IsKeyed "job-1" "inc-1"
      (first over) (none_yet "job-1" "inc-1") over-stored.0 over-stored.1

abbrev refused : World
refused =
    (decide externals patches callback "inc-1" "fix-1" Deciding.rejected false none answers
      proposed).1

refusal : Run externals patches callback at_failure refused
unfolding code
refusal =
    next
      (next (next start (failed around fresh job attempt failure refl))
        (investigated "job-1" "inc-1" "run-1" turn))
      (decided "inc-1" "fix-1" Deciding.rejected false none answers)

refused-status : status_of (snapshot refused "job-1" "inc-1") ≡ some Fsm.rejected
unfolding code
refused-status = refl

refused-stored :
    (snapshot refused "job-1" "inc-1" ≡ stored (first refused))
    × ((first refused).status ≡ Fsm.rejected)
refused-stored = stored_with (snapshot refused "job-1" "inc-1") Fsm.rejected refused-status

rejected_after_rejection_example :
    HasDecision externals patches callback "inc-1" Deciding.rejected refused refusal
rejected_after_rejection_example =
    rejected_after_rejection externals patches callback refusal at_failure-IsKeyed "job-1" "inc-1"
      (first refused) (none_yet "job-1" "inc-1") refused-stored.0 refused-stored.1

closed_stays_example :
    (i' : Incident) × (snapshot asked_again "job-1" "inc-1" ≡ stored i')
    × (i'.status ≡ (first over).status)
closed_stays_example =
    closed_stays externals patches callback (next start (asked "inc-1" "Why?" "3")) over-IsKeyed
      "job-1" "inc-1" (first over) over-stored.0 over-closed

decide-trees_example :
    (retried.trees ≡ proposed.trees)
    ⊎ MayPatch externals patches callback "inc-1" "fix-1" approved false none answers proposed
decide-trees_example =
    decide-trees externals patches callback "inc-1" "fix-1" approved false none answers proposed

run_returned : (run_diagnosis externals "job-1" "inc-1" "run-1" turn opened).0 ≡ ok tt
unfolding code
run_returned = refl

run_diagnosis-concludes_example :
    (i : Incident) × (snapshot proposed "job-1" "inc-1" ≡ stored i) × (i.status ≢ Fsm.diagnosing)
run_diagnosis-concludes_example =
    run_diagnosis-concludes externals "job-1" "inc-1" "run-1" turn opened proposed opened-IsKeyed
      (ap (λ r. (r, proposed)) run_returned)

proposed-IsKeyed : IsKeyed proposed
proposed-IsKeyed =
    (Run-IsKeyed externals patches callback (next start (investigated "job-1" "inc-1" "run-1" turn))
      opened-IsKeyed)

decision_returned :
    (decide externals patches callback "inc-1" "fix-1" approved false none answers proposed).0
    ≡ ok retry_running
unfolding code
decision_returned = refl

decide-reports_example :
    (j : String) × (i : Incident) × (snapshot retried j "inc-1" ≡ stored i)
    × (i.status ≡ retry_running)
decide-reports_example =
    decide-reports externals patches callback "inc-1" "fix-1" approved false none answers proposed
      retried retry_running proposed-IsKeyed (ap (λ r. (r, retried)) decision_returned)
