-- ===== src/Incidents/Coordinator/Diagnosing/Paths.antt =====
-- A failure and a follow-up question move statuses along the state machine; a new incident takes no
-- other's place.
use Prim.Native.String.{◌++◌ as str_append}
use zgent.Common.{
  ℕ, not, String, str_eq, ◌≡◌, refl, ap, ◌∙◌, Bool, true, false, Option, none, some, inl, inr,
  if◌then◌else◌,
}
use zgent.Common.Exec.{◌>>=◌, pure}
use zgent.Externals.{Externals}
use zgent.Jobs.Apart.{apart, apart_store}
use zgent.Jobs.Models.{JobRecord, AttemptRecord, FailureRecord, FailureCapsule}
use zgent.Jobs.Supervisor.{is_exit}
use zgent.Incidents.Evidence.{Surroundings, build_failure_capsule}
use zgent.Incidents.Models.{Incident}
use zgent.Incidents.Moves.{
  Actor, nobody, IsKeyed, Moves, Moves-refl, Moves-trans, Keeps, Same, Same-IsKeyed, Same-Moves,
  here,
}
use zgent.Incidents.Moves.Writes.{Fits, Fits-run, rewrite_over, write_new, prepared}
use zgent.Incidents.Coordinator.{latest_incident}
use zgent.Incidents.Coordinator.Paths.{keeps_shared, read_incident_cases}
use zgent.Incidents.Coordinator.Diagnosing.{
  Fresh, follow_up, handle_failure, persist_capsule, respond, reinvestigate, open_incident,
  new_incident, is_status_retry_running,
}
use zgent.Incidents.Store.{list_incidents}
use zgent.Incidents.Store.Frames.{tick}
use zgent.World.{World, M, now, missing, snapshot}
use zgent.World.Leaves.{Leaves, leaves_rules}

-- A follow-up question loses no incident, keeps each under its own id, and moves the statuses along
-- the state machine only.
pub follow_up-Keeps : {who : Actor} → (k content hex : String) → Keeps who (follow_up k content hex)
unfolding follow_up
follow_up-Keeps k content hex = search keeps_shared depth 16

reinvestigate-Keeps :
    {who : Actor}
    → (j k a : String) (fresh : Fresh) (w : World) → IsKeyed w
    → Fits who w (reinvestigate j k a fresh w).1
unfolding reinvestigate ◌>>=◌
reinvestigate-Keeps j k a fresh w h = elim (read_incident_cases j k w) [
  | inl (x, r) ↦ rw r (h, Moves-refl w)
  | inr (i, s, r) ↦
      rw r (rewrite_over j k i _ w _ refl refl s (λ u. search keeps_shared depth 16) h)
]

twice : World → World
twice w = tick (tick w)

twice-Same : (w : World) → Same w (twice w)
unfolding snapshot twice
twice-Same w = record { at = λ j k. refl }

open_incident-Fits :
    (job : JobRecord) (a : AttemptRecord) (c : FailureCapsule) (fresh : Fresh) (w : World)
    → snapshot w job.id (str_append "inc-" fresh.incident_hex) ≡ missing
    → IsKeyed w
    → Fits nobody w (open_incident job a c fresh w).1
unfolding open_incident ◌>>=◌ now twice new_incident
open_incident-Fits job a c fresh w new h =
    let (h', l) =
      write_new job.id (new_incident fresh.incident_hex job a c w.clock (ℕ.suc w.clock)) (twice w) _
        ((twice-Same w).at job.id (str_append "inc-" fresh.incident_hex) ∙ new) here
        (λ u. search keeps_shared depth 16) (Same-IsKeyed (twice-Same w) h) in
    (h', Moves-trans (Same-Moves (twice-Same w)) l)

respond-Fits :
    (job : JobRecord) (a : AttemptRecord) (c : FailureCapsule) (fresh : Fresh)
    (latest : Option Incident) (w : World)
    → snapshot w job.id (str_append "inc-" fresh.incident_hex) ≡ missing
    → IsKeyed w
    → Fits nobody w (respond job a c fresh latest w).1
unfolding respond pure
respond-Fits job a c fresh none w new h = open_incident-Fits job a c fresh w new h
respond-Fits job a c fresh (some i) w new h =
    either (str_eq i.attempt_id a.id) _ _ (h, Moves-refl w)
      (either (is_status_retry_running i.status) _ _
        (reinvestigate-Keeps job.id i.id a.id fresh w h) (open_incident-Fits job a c fresh w new h))
  where
    either :
        (b : Bool) (m n : M (Unit {0}))
        → Fits nobody w (m w).1
        → Fits nobody w (n w).1
        → Fits nobody w ((if b then m else n) w).1
    either true m n fm fn = fm
    either false m n fm fn = fn

persist_capsule-incidents :
    (x : Externals) (around : Surroundings) (failure : FailureRecord)
    → Leaves (λ w. w.incidents) (persist_capsule x around failure)
unfolding persist_capsule build_failure_capsule
persist_capsule-incidents x around failure = record { at = λ w. ap (λ a. a.incidents) (quiet.at w) }
  where
    quiet : Leaves apart (persist_capsule x around failure)
    quiet = search apart_store depth 12

latest_incident-incidents : (j : String) → Leaves (λ w. w.incidents) (latest_incident j)
unfolding latest_incident list_incidents
latest_incident-incidents j = search leaves_rules

-- A failed attempt, whichever of the three answers it gets, loses no incident, keeps each under its
-- own id, and moves the statuses along the state machine only, where the id that is drawn for a new
-- incident is not in use.
pub handle_failure-Fits :
    (x : Externals) (around : Surroundings) (fresh : Fresh) (job : JobRecord) (a : AttemptRecord)
    (failure : FailureRecord) (w : World)
    → snapshot w job.id (str_append "inc-" fresh.incident_hex) ≡ missing
    → IsKeyed w
    → IsKeyed (handle_failure x around fresh job a failure w).1
      × Moves nobody w (handle_failure x around fresh job a failure w).1
unfolding handle_failure
handle_failure-Fits x around fresh job a failure w new h = go (not (is_exit failure.kind))
  where
    k : String
    k = str_append "inc-" fresh.incident_hex

    go :
        (b : Bool)
        → Fits nobody w
            ((if b
                then pure tt
                else (persist_capsule x around failure >>= λ c.
                    latest_incident job.id >>= λ latest. respond job a c fresh latest))
              w).1
    go true = Fits-run (pure tt) (search keeps_shared) w h
    go false =
        prepared job.id k _ _ (persist_capsule-incidents x around failure)
          (λ c.
            prepared job.id k _ _ (latest_incident-incidents job.id)
              (λ latest. respond-Fits job a c fresh latest))
          w new h
