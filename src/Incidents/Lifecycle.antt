-- ===== src/Incidents/Lifecycle.antt =====
-- The life of incidents over any sequence of the coordinator's actions in one process: a failure,
-- a run of the diagnosis task, a follow-up question, a decision, the end of a retry, and what the
-- jobs do in between.
pub mod Reached
pub mod Decisions
pub mod Retries
use Prim.Native.String.{◌++◌ as str_append}
use zgent.Common.{
  String, ◌≡◌, refl, sym, ap, ◌∙◌, Bool, true, Option, List, [], ◌∷◌, arith, inl, inr,
}
use zgent.Common.Exec.{ok}
use zgent.Externals.{Externals}
use zgent.Fsm.{
  Status, Event, initial_state, is_terminal, transition, retry_succeeded, retry_started, resolved,
  transitions,
}
use zgent.Fsm.History.{history, Approved, resolved_needs_approval}
use zgent.Incidents.Coordinator.Deciding.{Decision, decide, observe_retry}
use zgent.Incidents.Coordinator.Deciding.Paths.{deciding, decide-Keeps, observe_retry-Keeps}
use zgent.Incidents.Coordinator.Diagnosing.{Fresh, handle_failure, follow_up}
use zgent.Incidents.Coordinator.Diagnosing.Paths.{handle_failure-Fits, follow_up-Keeps}
use zgent.Incidents.Coordinator.Running.{Turn, run_diagnosis}
use zgent.Incidents.Coordinator.Running.Paths.{run_diagnosis-Keeps}
use zgent.Incidents.Coordinator.SmokeTest.{Answers}
use zgent.Incidents.Evidence.{Surroundings}
use zgent.Incidents.Models.{Incident}
use zgent.Incidents.Moves.{
  Actor, nobody, observes, Leads, here, step, IsKeyed, Moves-refl, Moves-trans, Same, Same-IsKeyed,
  Same-Moves,
}
use zgent.Incidents.Moves.Writes.{Fits, Fits-run}
use zgent.Incidents.Patches.{Patches}
use zgent.Jobs.Models.{JobRecord, AttemptRecord, FailureRecord}
use zgent.Jobs.Supervisor.{Callback}
use zgent.World.{World, missing, stored, snapshot}
use zgent.World.Laws.{snapshot-incidents}

terminal-final :
    {who : Actor} {k : String} {s t : Status} → Leads who k s t → is_terminal s ≡ true → t ≡ s
unfolding is_terminal transition transitions
terminal-final here h = refl
terminal-final {s} (step {t = t} l e m q) h = ground (arith, terminal-final l h)

module _ (x : Externals) (patches : Patches) (callback : Callback) where
  -- One action, with whatever the outside answers in it; a raise counts like a return.
  pub data Step (w : World) : World → Type 0 where
    failed :
        (around : Surroundings) (fresh : Fresh) (job : JobRecord) (a : AttemptRecord)
        (failure : FailureRecord)
        → snapshot w job.id (str_append "inc-" fresh.incident_hex) ≡ missing
        → Step w (handle_failure x around fresh job a failure w).1
    investigated : (j k r : String) (turn : Turn) → Step w (run_diagnosis x j k r turn w).1
    asked : (k content hex : String) → Step w (follow_up k content hex w).1
    decided :
        (k p : String) (d : Decision) (smoke : Bool) (fingerprint : Option String)
        (answers : Answers)
        → Step w (decide x patches callback k p d smoke fingerprint answers w).1
    observed : (j k : String) → Step w (observe_retry x patches callback j k w).1
    -- the supervisor, the clock, the bus
    elsewhere : (w' : World) → w'.incidents ≡ w.incidents → Step w w'

  pub data Run (w : World) : World → Type 0 where
    start : Run w w
    next : {u v : World} → Run w u → Step u v → Run w v

  -- On whose behalf an action runs.
  unfoldable pub actor : {w w' : World} → Step w w' → Actor
  actor (failed around fresh job a failure new) = nobody
  actor (investigated j k r turn) = nobody
  actor (asked k content hex) = nobody
  actor (decided k p d smoke fingerprint answers) = deciding d k
  actor (observed j k) = observes k
  actor (elsewhere w' e) = nobody

  pub Step-Fits : {w w' : World} (s : Step w w') → IsKeyed w → Fits (actor s) w w'
  unfolding actor
  Step-Fits (failed around fresh job a failure new) h =
      handle_failure-Fits x around fresh job a failure _ new h
  Step-Fits (investigated j k r turn) h = Fits-run _ (run_diagnosis-Keeps x j k r turn) _ h
  Step-Fits (asked k content hex) h = Fits-run _ (follow_up-Keeps k content hex) _ h
  Step-Fits (decided k p d smoke fingerprint answers) h =
      Fits-run _ (decide-Keeps x patches callback k p d smoke fingerprint answers) _ h
  Step-Fits (observed j k) h = Fits-run _ (observe_retry-Keeps x patches callback j k) _ h
  Step-Fits {w} (elsewhere w' e) h = (Same-IsKeyed same h, Same-Moves same)
    where
      same : Same w w'
      same = record { at = λ j k. snapshot-incidents w w' e j k }

  pub Run-IsKeyed : {w w' : World} → Run w w' → IsKeyed w → IsKeyed w'
  Run-IsKeyed start h = h
  Run-IsKeyed (next run s) h = (Step-Fits s (Run-IsKeyed run h)).0

  -- Over any run of the coordinator, an incident that is stored as resolved or rejected at its
  -- beginning is still stored, with the same status, at its end, where the run begins with
  -- each snapshot under its own id.
  pub closed_stays :
      {w₀ w : World} (run : Run w₀ w) (keyed : IsKeyed w₀) (j k : String) (i : Incident)
      → snapshot w₀ j k ≡ stored i
      → is_terminal i.status ≡ true
      → (i' : Incident) × (snapshot w j k ≡ stored i') × (i'.status ≡ i.status)
  closed_stays start keyed j k i s t = (i, s, refl)
  closed_stays (next run a) keyed j k i s t =
      let (i', s', e) = closed_stays run keyed j k i s t in
      let (i'', s'', l) = (Step-Fits a (Run-IsKeyed run keyed)).1.at j k i' s' in
      (i'', s'', terminal-final l (ap is_terminal e ∙ t) ∙ e)
