-- ===== src/Incidents/Coordinator/Deciding/Reports.antt =====
-- The status that a decision returns is the one that is stored.
use zgent.Common.{
  String, ◌≡◌, sym, ap, subst, ◌∙◌, Bool, true, false, not, Option, none, some, arith,
  if◌then◌else◌,
}
use zgent.Common.Exec.{ok, Error, ◌>>=◌, pure, raise}
use zgent.Externals.{Externals}
use zgent.Fsm.{Status, Event}
use zgent.Incidents.Coordinator.{dispatch}
use zgent.Incidents.Coordinator.Deciding.{
  Decision, approved, rejected, decide, decided, approve_checked, carry_out, applied,
  smoke_and_retry, start_retry, retried, is_awaiting, active_proposal,
}
use zgent.Incidents.Coordinator.Deciding.Paths.{Keeps-announce_retry}
use zgent.Incidents.Coordinator.Paths.{
  Keeps-apart, dispatch-IsKeyed, Keeps-find_incident, Keeps-can_apply,
}
use zgent.Incidents.Coordinator.Returns.{read_incident-stored, dispatch-stored}
use zgent.World.Runs.{bind-inverted}
use zgent.Incidents.Coordinator.SmokeTest.{Answers}
use zgent.Incidents.Coordinator.SmokeTest.Paths.{Keeps-run_smoke, Keeps-on_tree}
use zgent.Incidents.Models.{Incident, Proposal, PatchReceipt}
use zgent.Incidents.Moves.{
  nobody, IsKeyed, Keeps, Keeps-try_or_none, Keeps-now, Keeps-gets, Keeps-lift, Keeps-spawn,
}
use zgent.Incidents.Moves.Rules.{Keeps-write_receipt}
use zgent.Incidents.Patches.{Patches}
use zgent.Incidents.Store.{read_incident}
use zgent.Jobs.Apart.{retry-apart, read_spec-apart}
use zgent.Jobs.Models.{JobRecord, JobSpec}
use zgent.Jobs.Supervisor.{Callback}
use zgent.World.{World, M, stored, snapshot}

record Reports (j k : String) (m : M Status) : Type 0 where
  at :
      (w w' : World) (s : Status)
      → IsKeyed w
      → m w ≡ (ok s, w')
      → (i : Incident) × (snapshot w' j k ≡ stored i) × (i.status ≡ s)

module _ (j k : String) where
  Reports-bind :
      {A : Type 0} (m : M A) (f : A → M Status)
      → Keeps nobody m
      → ((a : A) → Reports j k (f a))
      → Reports j k (m >>= f)
  Reports-bind m f km kf = record {
    at = λ w w' s h e.
        let (a, v, run, rest) = bind-inverted m f w w' s e in
        (kf a).at v w' s (subst IsKeyed (ap (λ y. y.1) run) (km.keyed w h)) rest;
  }

  Reports-raise : (e : Error) → Reports j k (raise e)
  unfolding raise
  Reports-raise e = record { at = λ w w' s h q. absurd (ground (arith, q)) }

  Reports-if :
      (b : Bool) (m n : M Status) → Reports j k m → Reports j k n → Reports j k (if b then m else n)
  Reports-if true m n rm rn = rm
  Reports-if false m n rm rn = rn

  -- What is read, or dispatched, is the incident of the id.
  Reports-read :
      (f : Incident → M Status)
      → ((i : Incident) → Reports j i.id (f i))
      → Reports j k (read_incident j k >>= f)
  Reports-read f kf = record {
    at = λ w w' s h e.
        let (i, v, read, rest) = bind-inverted _ f w w' s e in
        let (same, found) = read_incident-stored j k w v i read in
        let named : Reports j k (f i) = subst (λ z. Reports j z (f i)) (h.at j k i found) (kf i) in
        named.at v w' s (subst IsKeyed (sym same) h) rest;
  }

  Reports-dispatch :
      (e : Event) (f : Incident → M Status)
      → ((i : Incident) → Reports j i.id (f i))
      → Reports j k (dispatch j k e >>= f)
  Reports-dispatch ev f kf = record {
    at = λ w w' s h e.
        let (i', v, run, rest) = bind-inverted _ f w w' s e in
        let (i, found, target, at) = dispatch-stored j k ev w v i' run in
        let kept : IsKeyed v = subst IsKeyed (ap (λ y. y.1) run) (dispatch-IsKeyed j k ev w h) in
        let same : i'.id ≡ k = kept.at j i.id i' at ∙ h.at j k i found in
        let named : Reports j k (f i') = subst (λ z. Reports j z (f i')) same (kf i') in
        named.at v w' s kept rest;
  }

  read-Reports : Reports j k (read_incident j k >>= λ i. pure i.status)
  unfolding pure
  read-Reports = record {
    at = λ w w' s h e.
        let (i, v, read, rest) = bind-inverted _ _ w w' s e in
        let (same, found) = read_incident-stored j k w v i read in
        (
          i,
          ap (λ y. snapshot y j k) (sym (ap (λ y. y.1) rest) ∙ same) ∙ found,
          ground (arith, rest),
        );
  }

  dispatch-Reports : (ev : Event) → Reports j k (dispatch j k ev >>= λ i. pure i.status)
  unfolding pure
  dispatch-Reports ev = record {
    at = λ w w' s h e.
        let (i', v, run, rest) = bind-inverted _ _ w w' s e in
        let (i, found, target, at) = dispatch-stored j k ev w v i' run in
        (
          i',
          ap (λ y. snapshot y j k) (sym (ap (λ y. y.1) rest))
              ∙ ap (λ z. snapshot v j z) (sym (h.at j k i found))
              ∙ at,
          ground (arith, rest),
        );
  }

module _ (x : Externals) (patches : Patches) (callback : Callback) where
  retried-Reports :
      (j k : String) (spec : JobSpec) (job : Option JobRecord)
      → Reports j k (retried x patches callback j k spec job)
  unfolding retried
  retried-Reports j k spec none = dispatch-Reports j k _
  retried-Reports j k spec (some job) =
      Reports-bind j k _ _ (Keeps-announce_retry x patches callback job spec _)
        λ u. Reports-bind j k _ _ (Keeps-spawn _) (λ u'. read-Reports j k)

  start_retry-Reports :
      (j k job_id : String) (spec : JobSpec) (answers : Answers)
      → Reports j k (start_retry x patches callback j k job_id spec answers)
  unfolding start_retry
  start_retry-Reports j k job_id spec answers = Reports-dispatch j k _ _ λ i.
      Reports-bind j i.id _ _
        (Keeps-try_or_none _ _ (Keeps-apart _ (retry-apart x callback job_id answers.spawned)))
        (λ job. retried-Reports j i.id spec job)

  smoke_and_retry-Reports :
      (j : String) (i : Incident) (p : String) (spec : JobSpec) (answers : Answers) (b : Bool)
      → Reports j i.id (smoke_and_retry x patches callback j i p spec answers b)
  unfolding smoke_and_retry
  smoke_and_retry-Reports j i p spec answers b =
      Reports-if j i.id b _ _
        (Reports-bind j i.id _ _ (Keeps-run_smoke patches j i p answers) λ passed.
          Reports-if j i.id passed _ _ (start_retry-Reports j i.id i.job_id spec answers)
            (read-Reports j i.id))
        (Reports-dispatch j i.id _ _ (λ s. start_retry-Reports j s.id i.job_id spec answers))

  applied-Reports :
      (j : String) (i : Incident) (p : String) (spec : JobSpec) (answers : Answers) (b : Bool)
      (receipt : Option PatchReceipt)
      → Reports j i.id (applied x patches callback j i p spec answers b receipt)
  unfolding applied
  applied-Reports j i p spec answers b none = dispatch-Reports j i.id _
  applied-Reports j i p spec answers b (some receipt) =
      Reports-bind j i.id _ _ (Keeps-write_receipt j i.id receipt)
        λ u. Reports-read j i.id _ (λ current. smoke_and_retry-Reports j current p spec answers b)

  carry_out-Reports :
      (j : String) (i : Incident) (o : Proposal) (p : String) (spec : JobSpec) (answers : Answers)
      (b : Bool)
      → Reports j i.id (carry_out x patches callback j i o p spec answers b)
  unfolding carry_out
  carry_out-Reports j i o p spec answers b = Reports-dispatch j i.id _ _ λ approving.
      Reports-bind j approving.id _ _ Keeps-now λ t.
        Reports-bind j approving.id _ _ (Keeps-gets _) λ diff.
          Reports-bind j approving.id _ _ (Keeps-try_or_none _ _ (Keeps-on_tree _ _))
            λ receipt. applied-Reports j approving p spec answers b receipt

  approve_checked-Reports :
      (j : String) (i : Incident) (o : Proposal) (p : String) (b : Bool) (f : Option String)
      (spec : JobSpec) (answers : Answers)
      → Reports j i.id (approve_checked x patches callback j i o p b f spec answers)
  unfolding approve_checked
  approve_checked-Reports j i o p b f spec answers =
      Reports-if j i.id b _ _
        (Reports-bind j i.id _ _ (Keeps-lift _) λ config.
          Reports-if j i.id _ _ _ (carry_out-Reports j i o p spec answers _)
            (dispatch-Reports j i.id _))
        (carry_out-Reports j i o p spec answers false)

  decided-Reports :
      (j : String) (i : Incident) (p : String) (d : Decision) (b : Bool) (f : Option String)
      (answers : Answers) (o : Option Proposal)
      → Reports j i.id (decided x patches callback j i p d b f answers o)
  unfolding decided
  decided-Reports j i p d b f answers none = Reports-raise j i.id _
  decided-Reports j i p rejected b f answers (some o) = dispatch-Reports j i.id _
  decided-Reports j i p approved b f answers (some o) =
      Reports-bind j i.id _ _ (Keeps-can_apply i) λ can.
        Reports-if j i.id _ _ _ (Reports-raise j i.id _) (
          Reports-bind j i.id _ _ (Keeps-apart _ (read_spec-apart i.job_id))
            λ spec. approve_checked-Reports j i o p b f spec answers)

  awaited :
      (j k : String) (i : Incident) (m : M Status) (w w' : World) (s : Status) (c : Bool)
      → IsKeyed w
      → snapshot w j k ≡ stored i
      → Reports j i.id m
      → (if not c then pure i.status else m) w ≡ (ok s, w')
      → (i : Incident) × (snapshot w' j k ≡ stored i) × (i.status ≡ s)
  unfolding pure
  awaited j k i m w w' s false h found r e =
      (i, ap (λ y. snapshot y j k) (sym (ap (λ y. y.1) e)) ∙ found, ground (arith, e))
  awaited j k i m w w' s true h found r e =
      let named : Reports j k m = subst (λ z. Reports j z m) (h.at j k i found) r in
      named.at w w' s h e

  -- A decision that returns a status has returned the status that is stored then, on every branch:
  -- where nothing was decided, after a rejection, a stale or failed patch, a failed smoke test, and
  -- after the start of the retry or its failure; where each snapshot was under its own id.
  pub decide-reports :
      (k p : String) (d : Decision) (b : Bool) (f : Option String) (answers : Answers)
      (w w' : World) (s : Status)
      → IsKeyed w
      → decide x patches callback k p d b f answers w ≡ (ok s, w')
      → (j : String) × (i : Incident) × (snapshot w' j k ≡ stored i) × (i.status ≡ s)
  unfolding decide
  decide-reports k p d b f answers w w' s h e =
      let (found, v, run, rest) = bind-inverted _ _ w w' s e in
      let kept : IsKeyed v =
        subst IsKeyed (ap (λ y. y.1) run) ((Keeps-find_incident {who = nobody} k).keyed w h) in
      let (i, stored_at, same) = (reads found.0).at v w' s kept rest in
      (found.0, i, stored_at, same)
    where
      reads :
          (j : String)
          → Reports j k (
              read_incident j k >>= λ i.
              if not (is_awaiting i.status)
              then pure i.status
              else decided x patches callback j i p d b f answers (active_proposal i p))
      reads j = record {
        at = λ w w' s h e.
            let (i, v, read, rest) = bind-inverted _ _ w w' s e in
            let (same, found) = read_incident-stored j k w v i read in
            awaited j k i _ v w' s (is_awaiting i.status) (subst IsKeyed (sym same) h)
              (ap (λ y. snapshot y j k) same ∙ found)
              (decided-Reports j i p d b f answers (active_proposal i p)) rest;
      }
