-- ===== src/Incidents/Coordinator/Paths.antt =====
-- The coordinator's handlers move the status of an incident only along the state machine.
use zgent.Common.{String, false, ◌⊎◌, inl, inr, ◌≡◌, refl, ap, Option, none, List, [], ◌∷◌, arith}
use zgent.Common.Dict.{get}
use zgent.Common.Exec.{Error, Result, ok, err, file_not_found, value_error, ◌>>=◌, and_then}
use zgent.Fsm.{Status, Event, transition}
use zgent.Incidents.Models.{Incident, RunTrigger}
use zgent.Fsm
use zgent.Incidents.Moves.{
  nobody, approves, rejects, observes, approving, rejecting, confirming, Actor, May, free,
  is_reserved, Leads, here, step, IsKeyed, Moves, Moves-refl, Keeps, Keeps-quiet, Keeps-bind,
  Keeps-and_then, Keeps-lift, Keeps-gets, Keeps-if,
}
use zgent.Incidents.Moves.Rules.{
  keeps_basics, keeps_store, Keeps-update_incident, update_incident-IsKeyed, update_incident-Moves,
}
use zgent.Incidents.Store.{read_incident, update_incident}
use zgent.Incidents.Store.Names.{validate_id}
use zgent.Incidents.Coordinator.{
  dispatch, set_status, start_run, RunOptions, find_incident, find_in, latest_incident, can_apply,
  read_capsule,
}
use zgent.Jobs.Models.{JobRecord}
use zgent.Jobs.Apart.{apart, list_jobs-apart, read_failure-apart}
use zgent.World.{
  World, M, Stored, stored, missing, malformed, snapshot, incident_files, incident_dirs, or_empty,
  or_no_files,
}
use zgent.World.Leaves.{Leaves}

-- What leaves the incidents alone keeps their statuses.
pub Keeps-untouched :
    {who : Actor} → {A : Type 0} (m : M A) → Leaves (λ w. w.incidents) m → Keeps who m
unfolding snapshot incident_files incident_dirs
Keeps-untouched m l = Keeps-quiet m (λ w. record {
  at = λ j k. ap (λ d. (or_no_files (get (or_empty (get d j)) k)).snapshot) (l.at w);
})

pub Keeps-apart : {who : Actor} → {A : Type 0} (m : M A) → Leaves apart m → Keeps who m
Keeps-apart m l = Keeps-untouched m (record { at = λ w. ap (λ a. a.incidents) (l.at w) })

-- A read finds the snapshot or raises, and changes nothing.
pub read_incident_cases :
    (j k : String) (w : World)
    → ((e : Error) × (read_incident j k w ≡ (err e, w)))
      ⊎ ((i : Incident) × (snapshot w j k ≡ stored i) × (read_incident j k w ≡ (ok i, w)))
unfolding read_incident ◌>>=◌
read_incident_cases j k w = go (validate_id k) refl (snapshot w j k) refl
  where
    Goal : Type 0
    Goal =
        ((e : Error) × (read_incident j k w ≡ (err e, w)))
        ⊎ ((i : Incident) × (snapshot w j k ≡ stored i) × (read_incident j k w ≡ (ok i, w)))

    go :
        (r : Result (Unit {0}))
        → validate_id k ≡ r
        → (o : Stored Incident) → snapshot w j k ≡ o
        → Goal
    go (err e) v o s = inl (e, ground (arith, v, s))
    go (ok u) v missing s = inl (file_not_found, ground (arith, v, s))
    go (ok u) v malformed s = inl (value_error, ground (arith, v, s))
    go (ok u) v (stored i) s = inr (i, s, ground (arith, v, s))

-- An update of the status on a path, from what is stored.
module _ {who : Actor} (j k : String) (t : Status) (w : World)
    (led : (i : Incident) → snapshot w j k ≡ stored i → Leads who k i.status t)
    (h : IsKeyed w) where
  set_status-keeps : IsKeyed (set_status j k t w).1 × Moves who w (set_status j k t w).1
  unfolding set_status ◌>>=◌
  set_status-keeps =
      Keeps-and_then (update_incident j k f w).0 w (update_incident j k f w).1 _
        (update_incident-IsKeyed j k f w (λ i. refl) h)
        (update_incident-Moves j k f w (λ i. refl) h led) (λ i. search keeps_basics)
    where
      f : Incident → Incident
      f i = record i { status = t }

dispatch-keeps :
    {who : Actor} (j k : String) (e : Event) (w : World)
    → May who k e
    → IsKeyed w
    → IsKeyed (dispatch j k e w).1 × Moves who w (dispatch j k e w).1
unfolding dispatch ◌>>=◌
dispatch-keeps {who} j k e w may h = elim (read_incident_cases j k w) [
  | inl (x, r) ↦ rw r (h, Moves-refl w)
  | inr (i, s, r) ↦ rw r (go i s (transition i.status e) refl)
]
  where
    go :
        (i : Incident)
        → snapshot w j k ≡ stored i
        → (r : Result Status) → transition i.status e ≡ r
        → IsKeyed (and_then (r, w) (λ t. set_status j k t)).1
          × Moves who w (and_then (r, w) (λ t. set_status j k t)).1
    go i s (err x) q = (h, Moves-refl w)
    go i s (ok t) q = set_status-keeps j k t w led h
      where
        led : (i' : Incident) → snapshot w j k ≡ stored i' → Leads who k i'.status t
        led i' s' = step here e may (ground (arith, s, s', q))

pub Keeps-dispatch :
    {who : Actor} (j k : String) (e : Event) → May who k e → Keeps who (dispatch j k e)
Keeps-dispatch j k e may = record {
  keyed = λ w h. (dispatch-keeps j k e w may h).0;
  moves = λ w h. (dispatch-keeps j k e w may h).1;
}

-- Every event is some actor's.
some_actor : (k : String) (e : Event) → (who : Actor) × May who k e
some_actor k Fsm.approve = (approves k, approving)
some_actor k Fsm.reject = (rejects k, rejecting)
some_actor k Fsm.retry_succeeded = (observes k, confirming)
some_actor k Fsm.investigation_done = (nobody, free refl)
some_actor k Fsm.investigation_failed = (nobody, free refl)
some_actor k Fsm.approve_invalidated = (nobody, free refl)
some_actor k Fsm.follow_up = (nobody, free refl)
some_actor k Fsm.apply_ok_smoke = (nobody, free refl)
some_actor k Fsm.apply_ok_no_smoke = (nobody, free refl)
some_actor k Fsm.apply_failed = (nobody, free refl)
some_actor k Fsm.smoke_is_ok = (nobody, free refl)
some_actor k Fsm.smoke_failed_rolled_back = (nobody, free refl)
some_actor k Fsm.smoke_failed_rolled_back_no_evidence = (nobody, free refl)
some_actor k Fsm.smoke_failed_rollback_blocked = (nobody, free refl)
some_actor k Fsm.retry_started = (nobody, free refl)
some_actor k Fsm.retry_aborted = (nobody, free refl)
some_actor k Fsm.retry_failed = (nobody, free refl)

pub dispatch-IsKeyed :
    (j k : String) (e : Event) (w : World) → IsKeyed w → IsKeyed (dispatch j k e w).1
dispatch-IsKeyed j k e w h = (dispatch-keeps j k e w (some_actor k e).1 h).0

-- An event that every actor may bring about.
pub Keeps-dispatch_free :
    {who : Actor} (j k : String) (e : Event) → is_reserved e ≡ false → Keeps who (dispatch j k e)
Keeps-dispatch_free j k e q = Keeps-dispatch j k e (free q)

-- After the read of an incident under its own id.
pub Keeps-read_then :
    {who : Actor} {A : Type 0} (j k : String) (f : Incident → M A)
    → ((i : Incident) → i.id ≡ k → Keeps who (f i))
    → Keeps who (read_incident j k >>= f)
unfolding ◌>>=◌
Keeps-read_then {who} j k f kf = record { keyed = λ w h. (both w h).0; moves = λ w h. (both w h).1 }
  where
    both :
        (w : World)
        → IsKeyed w
        → IsKeyed (and_then (read_incident j k w) f).1
          × Moves who w (and_then (read_incident j k w) f).1
    both w h = elim (read_incident_cases j k w) [
      | inl (x, r) ↦ rw r (h, Moves-refl w)
      | inr (i, s, r) ↦ rw r ((kf i (h.at j k i s)).keyed w h, (kf i (h.at j k i s)).moves w h)
    ]

Keeps-find_in : {who : Actor} → (js : List JobRecord) (k : String) → Keeps who (find_in js k)
unfolding find_in
Keeps-find_in [] k = search keeps_store
Keeps-find_in (job ∷ rest) k = Keeps-bind _ _ (Keeps-lift _) λ u.
    Keeps-bind _ _ (Keeps-gets _) λ b. Keeps-if b _ _ (search keeps_store) (Keeps-find_in rest k)

pub Keeps-find_incident : {who : Actor} → (k : String) → Keeps who (find_incident k)
unfolding find_incident
Keeps-find_incident k = Keeps-bind _ _ (Keeps-apart _ list_jobs-apart) (λ js. Keeps-find_in js k)

pub Keeps-latest_incident : {who : Actor} → (j : String) → Keeps who (latest_incident j)
unfolding latest_incident
Keeps-latest_incident j = search keeps_store

pub Keeps-read_capsule : {who : Actor} → (j a : String) → Keeps who (read_capsule j a)
unfolding read_capsule
Keeps-read_capsule j a = search (keeps_store, Keeps-apart, read_failure-apart)

pub Keeps-can_apply : {who : Actor} → (i : Incident) → Keeps who (can_apply i)
unfolding can_apply
Keeps-can_apply i = search (keeps_store, Keeps-read_capsule)

Keeps-began :
    {who : Actor}
    → (j k : String) (r : Option String)
    → Keeps who (update_incident j k (λ i. record i { active_run_id = r; last_outcome = none }))
Keeps-began j k r = Keeps-update_incident j k _ (λ i. (refl, refl))

pub Keeps-start_run :
    {who : Actor}
    → (j : String) (i : Incident) (t : RunTrigger) (text : String) (o : RunOptions) (hex : String)
    → Keeps who (start_run j i t text o hex)
unfolding start_run
Keeps-start_run j i t text o hex = search (keeps_store, Keeps-began) depth 9

pub ruleset keeps_shared = (
  keeps_store, Keeps-dispatch_free, refl, Keeps-find_incident, Keeps-latest_incident,
  Keeps-read_capsule, Keeps-can_apply, Keeps-start_run,
)
