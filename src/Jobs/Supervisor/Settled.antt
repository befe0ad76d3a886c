-- ===== src/Jobs/Supervisor/Settled.antt =====
-- A start leaves the job running, or failed without a process, never starting (supervisor.py:
-- start, _launch).
use zgent.Common.{
  String, eq_refl, ◌≡◌, refl, sym, ap, subst, ◌∙◌, Bool, true, false, Option, none, some, arith, [],
  ◌∷◌, ◌++◌, if◌then◌else◌,
}
use zgent.Common.Dict.{Dict}
use zgent.Common.Exec.{Result, ok, err, Error, ◌>>=◌, raise, modify}
use zgent.Externals.{Externals}
use zgent.World.Runs.{bind-inverted}
use zgent.Jobs.Models.{JobStatus, starting, running, failed, JobRecord, JobSpec, AttemptRecord}
use zgent.Jobs.Recover.Closes.{write_job-job}
use zgent.Jobs.Recover.Frames.{job_at, quiet_jobs}
use zgent.Jobs.Store.{write_job, read_job, component, job_files, found}
use zgent.Jobs.Supervisor.{
  Spawn, spawned, spawn_error, Callback, launch, start, new_attempt, next_attempt_id, run_spawned,
  record_launch_failure, notify_failure,
}
use zgent.World.{World, M, RunningAttempt}
use zgent.World.Leaves.{Leaves}

-- The status that the outcome of the spawn asks for.
abbrev pub IsOutcome : Spawn → JobStatus → Type 0
IsOutcome (spawned pid identity) s = s ≡ running
IsOutcome (spawn_error message) s = s ≡ failed

-- An action that leaves the job with such a status whenever it returns.
record Settles (k : String) (P : JobStatus → Type 0) (m : M (Unit {0})) : Type 0 where
  at :
      (w w' : World) (u : Unit {0})
      → m w ≡ (ok u, w')
      → (r : JobRecord) × (job_at k w' ≡ some r) × P r.status

module _ (k : String) (P : JobStatus → Type 0) where
  Settles-last :
      {A : Type 0} (m : M A) (f : A → M (Unit {0}))
      → ((a : A) → Settles k P (f a))
      → Settles k P (m >>= f)
  Settles-last m f kf = record {
    at = λ w w' u e. let (a, v, run, rest) = bind-inverted m f w w' u e in (kf a).at v w' u rest;
  }

  Settles-then :
      (m : M (Unit {0})) (f : Unit {0} → M (Unit {0}))
      → Settles k P m
      → ((u : Unit {0}) → Leaves (job_at k) (f u))
      → Settles k P (m >>= f)
  Settles-then m f km l = record {
    at = λ w w' u e.
        let (a, v, run, rest) = bind-inverted m f w w' u e in
        let (r, found, s) = km.at w v a run in
        (r, sym (ap (λ y. job_at k y.1) rest) ∙ (l a).at v ∙ found, s);
  }

write_job-Settles :
    (P : JobStatus → Type 0) (r : JobRecord) → P r.status → Settles r.id P (write_job r)
write_job-Settles P r s = record {
  at = λ w w' u e. (r, ground (arith, write_job-job r w u w' e r.id, eq_refl r.id), s);
}

running-job :
    (k : String) (f : World → Dict RunningAttempt)
    → Leaves (job_at k) (modify (λ w. record w { running = f w }))
unfolding modify job_at job_files
running-job k f = record { at = λ w. refl }

-- An action that returns the job as it is stored, with such a status.
record Returns (k : String) (P : JobStatus → Type 0) (m : M JobRecord) : Type 0 where
  at : (w w' : World) (r : JobRecord) → m w ≡ (ok r, w') → P r.status × (job_at k w' ≡ some r)

module _ (k : String) (P : JobStatus → Type 0) where
  Returns-last :
      {A : Type 0} (m : M A) (f : A → M JobRecord)
      → ((a : A) → Returns k P (f a))
      → Returns k P (m >>= f)
  Returns-last m f kf = record {
    at = λ w w' r e. let (a, v, run, rest) = bind-inverted m f w w' r e in (kf a).at v w' r rest;
  }

  Returns-raise : (e : Error) → Returns k P (raise e)
  unfolding raise
  Returns-raise e = record { at = λ w w' r q. absurd (ground (arith, q)) }

  Returns-if :
      (b : Bool) (m n : M JobRecord)
      → Returns k P m
      → Returns k P n
      → Returns k P (if b then m else n)
  Returns-if true m n rm rn = rm
  Returns-if false m n rm rn = rn

module _ (x : Externals) (callback : Callback) where
  run_spawned-Settles :
      (job : JobRecord) (a : AttemptRecord) (o : Spawn)
      → Settles job.id (IsOutcome o) (run_spawned x callback job a o)
  unfolding run_spawned record_launch_failure notify_failure
  run_spawned-Settles job a (spawn_error m) = Settles-last job.id _ _ _ λ t.
      Settles-last job.id _ _ _ λ u.
        Settles-last job.id _ _ _
          λ u'. Settles-then job.id _ _ _ (write_job-Settles _ _ refl) (λ u''. search quiet_jobs)
  run_spawned-Settles job a (spawned pid identity) = Settles-last job.id _ _ _ λ t.
      Settles-last job.id _ _ _ λ u.
        Settles-then job.id _ _ _ (write_job-Settles _ _ refl)
          (λ u'. search (quiet_jobs, running-job))

  launch-Settles :
      (job : JobRecord) (o : Spawn) → Settles job.id (IsOutcome o) (launch x callback job o)
  unfolding launch
  launch-Settles job o = Settles-last job.id _ _ _ λ t. Settles-last job.id _ _ _ λ u.
      Settles-last job.id _ _ _ λ u'. Settles-last job.id _ _ _ λ u''.
        run_spawned-Settles
          (record job {
            status = starting;
            updated_at = t;
            current_attempt_id = some (next_attempt_id job);
            attempt_ids = job.attempt_ids ++ (next_attempt_id job ∷ []);
          })
          (new_attempt job (next_attempt_id job) t) o

  read_job-found :
      (j : String) (w w' : World) (r : JobRecord)
      → read_job j w ≡ (ok r, w')
      → (w' ≡ w) × (job_at j w ≡ some r)
  unfolding read_job job_at ◌>>=◌ found
  read_job-found j w w' r e = go (component j) refl (job_files w j).job refl
    where
      go :
          (v : Result (Unit {0}))
          → component j ≡ v
          → (o : Option JobRecord) → (job_files w j).job ≡ o
          → (w' ≡ w) × ((job_files w j).job ≡ some r)
      go (err y) v o q = absurd (ground (arith, e, v))
      go (ok u) v none q = absurd (ground (arith, e, v, q))
      go (ok u) v (some r') q = ground (arith, e, v, q)

  launched :
      (job : JobRecord) (k : String) (o : Spawn)
      → job.id ≡ k
      → Returns k (IsOutcome o) (launch x callback job o >>= λ u. read_job k)
  launched job k o key = record {
    at = λ w w' r e.
        let (u, v, run, rest) = bind-inverted _ _ w w' r e in
        let (same, stored) = read_job-found k v w' r rest in
        let (q, found, s) = (launch-Settles job o).at w v u run in
        let one : q ≡ r = ground (arith, stored, found, key) in
        (subst (λ (y : JobRecord). IsOutcome o y.status) one s, ap (job_at k) same ∙ stored);
  }

  -- A start that returns a job has returned the one that is stored: running if the process was
  -- created, and failed if it could not be created.
  pub start-settles :
      (spec : JobSpec) (root : Result String) (k : String) (o : Spawn) (w w' : World)
      (r : JobRecord)
      → start x callback spec root k o w ≡ (ok r, w')
      → IsOutcome o r.status × ((job_files w' k).job ≡ some r)
  unfolding start job_at
  start-settles spec root k o w w' r e =
      (Returns-last k (IsOutcome o) _ _ λ resolved. Returns-last k (IsOutcome o) _ _ λ t.
          Returns-last k (IsOutcome o) _ _ λ accepting.
            Returns-if k (IsOutcome o) _ _ _ (Returns-raise k (IsOutcome o) _)
              (Returns-last k (IsOutcome o) _ _ λ u. launched _ k o refl)).at
        w w' r e
