-- ===== src/Incidents/Coordinator/Deciding/Guards.antt =====
-- When a decision does anything, and when the observation of a retry can end in success.
use zgent.Common.{
  String, ◌≡◌, refl, Bool, true, false, not, Option, none, some, ◌⊎◌, inl, inr, arith,
  if◌then◌else◌, Bool-cases,
}
use zgent.Common.Exec.{Result, ok, err, ◌>>=◌, and_then, pure, raise}
use zgent.Externals.{Externals}
use zgent.Fsm.{Status, awaiting_approval}
use zgent.Incidents.Coordinator.{find_incident}
use zgent.Incidents.Coordinator.Deciding.{
  Decision, decide, decided, is_awaiting, active_proposal, observe_retry, settle, is_succeeded,
  read_current, announce_final, has_code,
}
use zgent.Incidents.Coordinator.Deciding.Paths.{Keeps-read_current, Keeps-announce_final}
use zgent.Incidents.Coordinator.Deciding.Trees.{is_awaiting_sound, active_proposal_sound}
use zgent.Incidents.Coordinator.Paths.{
  read_incident_cases, keeps_shared, Keeps-apart, Keeps-dispatch_free,
}
use zgent.Incidents.Coordinator.SmokeTest.{Answers}
use zgent.Incidents.Coordinator.Trees.{find_incident-quiet}
use zgent.Incidents.Models.{Incident, Proposal}
use zgent.Incidents.Moves.{Keeps, Keeps-if, Keeps-bind, Keeps-pure, nobody, IsKeyed, Moves-refl}
use zgent.Incidents.Moves.Writes.{Fits, Fits-run, Fits-then}
use zgent.Incidents.Patches.{Patches}
use zgent.Incidents.Store.{read_incident}
use zgent.Jobs.Apart.{read_job-apart}
use zgent.Jobs.Models.{JobRecord, JobStatus, succeeded}
use zgent.Jobs.Monitor.{wait}
use zgent.Jobs.Supervisor.{Callback}
use zgent.World.{World, M, stored, snapshot}

-- An incident awaits a decision on the proposal.
abbrev pub IsDecidable : String → String → World → Type 0
IsDecidable k p w =
    (j : String) × (i : Incident) × (snapshot w j k ≡ stored i)
    × (i.status ≡ awaiting_approval)
    × (i.active_proposal_id ≡ some p)

-- The job of an incident is read as succeeded.
abbrev pub HasSucceeded : String → String → World → Type 0
HasSucceeded j k w =
    (i : Incident) × (snapshot w j k ≡ stored i)
    × (job : JobRecord) × ((wait i.job_id w).0 ≡ ok job)
    × (job.status ≡ succeeded)

is_succeeded_sound : (s : JobStatus) → is_succeeded s ≡ true → s ≡ succeeded
unfolding is_succeeded
is_succeeded_sound s h = ground arith

module _ (x : Externals) (patches : Patches) (callback : Callback) where
  module _ (k p : String) (d : Decision) (smoke : Bool) (fingerprint : Option String)
      (answers : Answers) where
    decided-acts :
        (j : String) (i : Incident) (w : World)
        → ((decided x patches callback j i p d smoke fingerprint answers (active_proposal i p) w).1
            ≡ w)
          ⊎ (i.active_proposal_id ≡ some p)
    unfolding decided raise
    decided-acts j i w = go (active_proposal i p) refl
      where
        go :
            (o : Option Proposal)
            → active_proposal i p ≡ o
            → ((decided x patches callback j i p d smoke fingerprint answers o w).1 ≡ w)
              ⊎ (i.active_proposal_id ≡ some p)
        go none e = inl refl
        go (some o) e = inr (active_proposal_sound i p o e).0

    -- A decision changes nothing at all, unless an incident awaits it on its active proposal.
    pub decide-acts :
        (w : World)
        → ((decide x patches callback k p d smoke fingerprint answers w).1 ≡ w) ⊎ IsDecidable k p w
    unfolding decide ◌>>=◌ pure
    decide-acts w = go (find_incident k w).0 (find_incident k w).1 (find_incident-quiet k w)
      where
        after : String × Incident → M Status
        after found = read_incident found.0 k >>= λ i.
            if not (is_awaiting i.status)
            then pure i.status
            else decided x patches callback found.0 i p d smoke fingerprint answers
                (active_proposal i p)

        decides :
            (j : String) (i : Incident)
            → snapshot w j k ≡ stored i
            → (b : Bool) → is_awaiting i.status ≡ b
            → (((if not b
                    then pure i.status
                    else decided x patches callback j i p d smoke fingerprint answers
                        (active_proposal i p))
                  w).1
                ≡ w)
              ⊎ IsDecidable k p w
        decides j i s false e = inl refl
        decides j i s true e = elim (decided-acts j i w) [
          | inl same ↦ inl same
          | inr active ↦ inr (j, i, s, is_awaiting_sound i.status e, active)
        ]

        reads : (found : String × Incident) → ((after found w).1 ≡ w) ⊎ IsDecidable k p w
        reads found = elim (read_incident_cases found.0 k w) [
          | inl (e, r) ↦ inl (rw r refl)
          | inr (i, s, r) ↦ rw r (decides found.0 i s (is_awaiting i.status) refl)
        ]

        go :
            (r : Result (String × Incident)) (w' : World)
            → w' ≡ w
            → ((and_then (r, w') after).1 ≡ w) ⊎ IsDecidable k p w
        go (err e) w' same = inl same
        go (ok found) w' same = rw same (reads found)

  Keeps-settle_unless :
      (j : String) (i : Incident) (s : JobStatus) (b : Bool)
      → is_succeeded s ≡ false
      → Keeps nobody (settle x patches callback j i s b)
  unfolding settle
  Keeps-settle_unless j i s b h = rw h (
      Keeps-if _ _ _ (Keeps-bind _ _ (Keeps-dispatch_free _ _ _ refl) λ u. Keeps-pure _)
        (Keeps-pure _))

  unfoldable observed_after : String → String → JobRecord → M (Unit {0})
  observed_after j k job =
      read_current x patches callback job.id job.current_attempt_id >>= λ attempt.
      announce_final x patches callback job attempt >>= λ u. read_incident j k >>= λ current.
      settle x patches callback j current job.status (has_code x patches callback attempt)

  Keeps-observed_after :
      (j k : String) (job : JobRecord)
      → is_succeeded job.status ≡ false
      → Keeps nobody (observed_after j k job)
  unfolding observed_after
  Keeps-observed_after j k job h =
      search (keeps_shared, Keeps-read_current, Keeps-announce_final, Keeps-settle_unless, h) depth
        9

  -- The observation of a retry brings about no success of a retry, unless the job has succeeded.
  pub observe_retry-acts :
      (j k : String) (w : World)
      → IsKeyed w
      → Fits nobody w (observe_retry x patches callback j k w).1 ⊎ HasSucceeded j k w
  unfolding observe_retry ◌>>=◌ observed_after wait
  observe_retry-acts j k w h = elim (read_incident_cases j k w) [
    | inl (e, r) ↦ inl (rw r (h, Moves-refl w))
    | inr (i, s, r) ↦ rw r (
        go i s (wait i.job_id w).0 (wait i.job_id w).1 refl
          (Fits-run _ (Keeps-apart _ (read_job-apart i.job_id)) w h))
  ]
    where
      go :
          (i : Incident)
          → snapshot w j k ≡ stored i
          → (r : Result JobRecord) (w' : World) → (wait i.job_id w).0 ≡ r
          → Fits nobody w w'
          → Fits nobody w (and_then (r, w') (observed_after j k)).1 ⊎ HasSucceeded j k w
      go i s (err e) w' q f = inl f
      go i s (ok job) w' q f = elim (Bool-cases (is_succeeded job.status)) [
        | inl t ↦ inr (i, s, job, q, is_succeeded_sound job.status t)
        | inr n ↦ inl (Fits-then w w' _ (Keeps-observed_after j k job n) f)
      ]
