-- ===== src/Incidents/Moves/Rules.antt =====
-- The store's operations keep the snapshots' statuses on the paths of the state machine.
use zgent.Common.{
  String, str_eq, eq_iff, ◌≡◌, refl, ◌∙◌, ◌&&◌, subst, true, Option, some, none, arith, inl, inr,
  Bool-cases,
}
use zgent.Common.Exec.{modify}
use zgent.World.{World, stored, snapshot}
use zgent.Incidents.Models.{
  Incident, IncidentRun, RunTrigger, Diagnosis, Proposal, PatchReceipt, SmokeResult, SmokeExecution,
}
use zgent.Incidents.Store.{
  read_incident, update_incident, clear_agent_artifacts, set_diff, set_run, write_run, own_attempt,
  or_attempt, create_run, read_run, update_run, write_diagnosis, write_proposal, clear_proposal,
  read_patch, write_receipt, write_smoke_result, write_smoke_execution, list_incidents, RunFields,
}
use zgent.Incidents.Store.Frames.{
  put_snapshot, snapshot-put_snapshot, at_clock, tick, update_incident_state, snapshot-set_diff,
  snapshot-set_run,
}
use zgent.Incidents.Moves.{
  Actor, Leads, here, IsKeyed, Moves, Keeps, Same, Same-IsKeyed, Same-Moves, Keeps-quiet,
  Keeps-bind, Keeps-pure, Keeps-raise, Keeps-gets, Keeps-lift, Keeps-if, Keeps-try_or_none,
  Keeps-now, Keeps-publish, Keeps-spawn, Moves-refl, Moves-trans,
}

tick-Same : (w : World) → Same w (tick w)
unfolding snapshot
tick-Same w = record { at = λ j k. refl }

-- A write over a snapshot, of the same id and with a status on a path from the old one.
module _ (j : String) (w : World) (i n : Incident) (key : n.id ≡ i.id) (k : String)
    (found : snapshot w j k ≡ stored i) where
  pub put_over-IsKeyed : IsKeyed w → IsKeyed (put_snapshot j n w)
  put_over-IsKeyed h = record {
    at = λ j' k' i' e. ground (
      arith,
      snapshot-put_snapshot j n w j' k',
      h.at j' k' i',
      h.at j k i found,
      eq_iff n.id k',
      eq_iff j j',
    );
  }

  same_incident :
      (j' k' : String) (i' : Incident)
      → IsKeyed w
      → snapshot w j' k' ≡ stored i'
      → (str_eq j j' && str_eq n.id k') ≡ true
      → i ≡ i'
  same_incident j' k' i' h e t = ground (arith, eq_iff j j', eq_iff n.id k', h.at j k i found)

  same_id : (j' k' : String) → IsKeyed w → (str_eq j j' && str_eq n.id k') ≡ true → k ≡ k'
  same_id j' k' h t = ground (arith, eq_iff n.id k', h.at j k i found)

  pub put_over-Moves :
      {who : Actor} → IsKeyed w → Leads who k i.status n.status → Moves who w (put_snapshot j n w)
  put_over-Moves {who} h l = record {
    at = λ j' k' i' e. elim (Bool-cases (str_eq j j' && str_eq n.id k')) [
      | inl t ↦ (
        n,
        ground (arith, snapshot-put_snapshot j n w j' k'),
        subst (λ (x : Incident). Leads who k' x.status n.status) (same_incident j' k' i' h e t)
            (subst (λ y. Leads who y i.status n.status) (same_id j' k' h t) l),
      )
      | inr f ↦ (i', ground (arith, snapshot-put_snapshot j n w j' k'), here)
    ];
    from = λ j' k' i' e. elim (Bool-cases (str_eq j j' && str_eq n.id k')) [
      | inl t ↦ inl (i, ground (arith, eq_iff j j', eq_iff n.id k', h.at j k i found, found))
      | inr f ↦ inl (i', ground (arith, snapshot-put_snapshot j n w j' k'))
    ];
  }

-- An update by a mutator that leaves the id and, for what is stored, moves the status on a path.
module _ (j k : String) (f : Incident → Incident) (w : World)
    (id_kept : (i : Incident) → (f i).id ≡ i.id) (h : IsKeyed w) where
  ticked : (i : Incident) → snapshot w j k ≡ stored i → snapshot (tick w) j k ≡ stored i
  ticked i e = (tick-Same w).at j k ∙ e

  pub update_incident-IsKeyed : IsKeyed (update_incident j k f w).1
  update_incident-IsKeyed = elim (update_incident_state j k f w) [
    | inl e ↦ rw e h
    | inr (inl e) ↦ rw e (Same-IsKeyed (tick-Same w) h)
    | inr (inr (i, found, e)) ↦ rw e (
        put_over-IsKeyed j (tick w) i (at_clock w.clock (f i)) (id_kept i) k (ticked i found)
          (Same-IsKeyed (tick-Same w) h))
  ]

  pub update_incident-Moves :
      {who : Actor}
      → ((i : Incident) → snapshot w j k ≡ stored i → Leads who k i.status (f i).status)
      → Moves who w (update_incident j k f w).1
  update_incident-Moves led = elim (update_incident_state j k f w) [
    | inl e ↦ rw e (Moves-refl w)
    | inr (inl e) ↦ rw e (Same-Moves (tick-Same w))
    | inr (inr (i, found, e)) ↦ rw e (
        Moves-trans (Same-Moves (tick-Same w)) (
          put_over-Moves j (tick w) i (at_clock w.clock (f i)) (id_kept i) k (ticked i found)
            (Same-IsKeyed (tick-Same w) h) (led i found)))
  ]

pub Keeps-update_incident :
    {who : Actor}
    → (j k : String) (f : Incident → Incident)
    → ((i : Incident) → ((f i).id ≡ i.id) × ((f i).status ≡ i.status))
    → Keeps who (update_incident j k f)
Keeps-update_incident j k f same = record {
  keyed = λ w h. update_incident-IsKeyed j k f w (λ i. (same i).0) h;
  moves = λ w h. update_incident-Moves j k f w (λ i. (same i).0) h (λ i e. stay i);
}
  where
    stay : {who : Actor} (i : Incident) → Leads who k i.status (f i).status
    stay i = rw ((same i).1) here

Keeps-set_diff :
    {who : Actor} → (j k : String) (d : Option String) → Keeps who (modify (set_diff j k d))
unfolding modify
Keeps-set_diff j k d = Keeps-quiet _ (λ w. record { at = λ j' k'. snapshot-set_diff j k d w j' k' })

pub Keeps-clear_agent_artifacts :
    {who : Actor} → (j k : String) → Keeps who (clear_agent_artifacts j k)
unfolding clear_agent_artifacts
Keeps-clear_agent_artifacts j k =
    Keeps-bind _ _ (Keeps-update_incident j k _ (λ i. (refl, refl))) (λ i. Keeps-set_diff j k none)

pub ruleset keeps_basics = (
  Keeps-bind, Keeps-pure, Keeps-raise, Keeps-gets, Keeps-lift, Keeps-if, Keeps-try_or_none,
  Keeps-now, Keeps-publish, Keeps-spawn,
)

pub Keeps-read_incident : {who : Actor} → (j k : String) → Keeps who (read_incident j k)
unfolding read_incident
Keeps-read_incident j k = search keeps_basics

Keeps-set_run :
    {who : Actor} → (j k r : String) (run : IncidentRun) → Keeps who (modify (set_run j k r run))
unfolding modify
Keeps-set_run j k r run =
    Keeps-quiet _ (λ w. record { at = λ j' k'. snapshot-set_run j k r run w j' k' })

pub Keeps-write_run :
    {who : Actor} → (j k r : String) (run : IncidentRun) → Keeps who (write_run j k r run)
unfolding write_run
Keeps-write_run j k r run = search (keeps_basics, Keeps-set_run)

Keeps-own_attempt : {who : Actor} → (j k : String) → Keeps who (own_attempt j k)
unfolding own_attempt
Keeps-own_attempt j k = search (keeps_basics, Keeps-read_incident)

Keeps-or_attempt : {who : Actor} → (j k : String) (a : Option String) → Keeps who (or_attempt j k a)
unfolding or_attempt
Keeps-or_attempt j k none = Keeps-own_attempt j k
Keeps-or_attempt j k (some a) = search (keeps_basics, Keeps-own_attempt)

pub Keeps-create_run :
    {who : Actor}
    → (j k r : String) (t : RunTrigger) (text : String) (o : RunFields)
    → Keeps who (create_run j k r t text o)
unfolding create_run
Keeps-create_run j k r t text o = search (keeps_basics, Keeps-or_attempt, Keeps-write_run)

pub Keeps-read_run : {who : Actor} → (j k r : String) → Keeps who (read_run j k r)
unfolding read_run
Keeps-read_run j k r = search keeps_basics

pub Keeps-update_run :
    {who : Actor}
    → (j k r : String) (f : IncidentRun → IncidentRun) → Keeps who (update_run j k r f)
unfolding update_run
Keeps-update_run j k r f = search (keeps_basics, Keeps-read_run, Keeps-write_run)

pub Keeps-write_diagnosis :
    {who : Actor} → (j : String) (d : Diagnosis) → Keeps who (write_diagnosis j d)
unfolding write_diagnosis
Keeps-write_diagnosis j d = Keeps-update_incident j _ _ (λ i. (refl, refl))

pub Keeps-write_proposal :
    {who : Actor}
    → (j : String) (p : Proposal) (patch : String) → Keeps who (write_proposal j p patch)
unfolding write_proposal
Keeps-write_proposal j p patch =
    Keeps-bind _ _ (Keeps-lift _) λ u.
      Keeps-bind _ _ (Keeps-set_diff j _ _) λ u'. Keeps-update_incident j _ _ (λ i. (refl, refl))

pub Keeps-clear_proposal : {who : Actor} → (j k : String) → Keeps who (clear_proposal j k)
unfolding clear_proposal
Keeps-clear_proposal j k =
    Keeps-bind _ _ (Keeps-update_incident j k _ (λ i. (refl, refl))) (λ i. Keeps-set_diff j k none)

pub Keeps-read_patch : {who : Actor} → (j : String) (p : Proposal) → Keeps who (read_patch j p)
unfolding read_patch
Keeps-read_patch j p = search keeps_basics

pub Keeps-write_receipt :
    {who : Actor} → (j k : String) (r : PatchReceipt) → Keeps who (write_receipt j k r)
unfolding write_receipt
Keeps-write_receipt j k r = Keeps-update_incident j k _ (λ i. (refl, refl))

pub Keeps-write_smoke_result :
    {who : Actor} → (j k : String) (r : SmokeResult) → Keeps who (write_smoke_result j k r)
unfolding write_smoke_result
Keeps-write_smoke_result j k r = Keeps-update_incident j k _ (λ i. (refl, refl))

pub Keeps-write_smoke_execution :
    {who : Actor} → (j k : String) (e : SmokeExecution) → Keeps who (write_smoke_execution j k e)
unfolding write_smoke_execution
Keeps-write_smoke_execution j k e = Keeps-update_incident j k _ (λ i. (refl, refl))

pub Keeps-list_incidents : {who : Actor} → (j : String) → Keeps who (list_incidents j)
unfolding list_incidents
Keeps-list_incidents j = Keeps-gets _

pub ruleset keeps_store = (
  keeps_basics, Keeps-read_incident, Keeps-create_run, Keeps-read_run, Keeps-update_run,
  Keeps-write_diagnosis, Keeps-write_proposal, Keeps-clear_proposal, Keeps-read_patch,
  Keeps-write_receipt, Keeps-write_smoke_result, Keeps-write_smoke_execution,
  Keeps-clear_agent_artifacts, Keeps-list_incidents,
)
