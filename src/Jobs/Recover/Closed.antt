-- ===== src/Jobs/Recover/Closed.antt =====
-- After a recovery no job is left active (jobs/store.py: recover_interrupted).
use zgent.Common.{
  ℕ, String, str_eq, eq_iff, ◌≡◌, refl, ap, ◌∙◌, Bool, true, false, ltb, Option, none, some, List,
  [], ◌∷◌, ◌++◌, ◌⊎◌, inl, inr, arith, if◌then◌else◌,
}
use zgent.Common.Dict.{Dict, get, values}
use zgent.Common.Exec.{Result, ok, err, ◌>>=◌, and_then, pure}
use zgent.Externals.{Externals}
use zgent.Jobs.Models.{JobRecord, AttemptRecord, FailureRecord}
use zgent.Jobs.Recover.{
  is_active, recover_job, recover_current, close_failed, close_attempt, mark_interrupted,
  recover_jobs, recover_interrupted,
}
use zgent.Jobs.Store.{job_files, list_jobs, job_records, or_no_job}
use zgent.Common.Sort.{insert_latest, latest_first}
use zgent.World.{World, M, JobFiles, now}
use zgent.World.Leaves.{leaves_rules}
use zgent.Jobs.Recover.Frames.{
  job_at, quiet_jobs, now-job, write_attempt-job, read_attempt-job, read_failure-job,
}
use zgent.Jobs.Recover.Closes.{Closes, Closes-after, Closes-then, Closes-if, write_job-Closes}

module _ (x : Externals) where
  mark_interrupted-Closes : (job : JobRecord) (t : ℕ) → Closes job.id (mark_interrupted x job t)
  unfolding mark_interrupted is_active
  mark_interrupted-Closes job t =
      Closes-then job.id _ _ (write_job-Closes _ refl) (λ u j. search quiet_jobs)

  close_attempt-Closes :
      (job : JobRecord) (t : ℕ) (a : AttemptRecord) → Closes job.id (close_attempt x job t a)
  unfolding close_attempt
  close_attempt-Closes job t a =
      Closes-if job.id _ _ _
        (Closes-after job.id _ _ (λ j. write_attempt-job j _) (λ u. mark_interrupted-Closes job t))
        (mark_interrupted-Closes job t)

  close_failed-Closes :
      (job : JobRecord) (a : String) (attempt : AttemptRecord) (f : FailureRecord)
      → Closes job.id (close_failed x job a attempt f)
  unfolding close_failed is_active
  close_failed-Closes job a attempt f =
      Closes-after job.id _ _ (λ j. write_attempt-job j _)
        λ u. Closes-then job.id _ _ (write_job-Closes _ refl) (λ u' j. search quiet_jobs)

  recover_current-Closes :
      (job : JobRecord) (t : ℕ) (a : Option String) → Closes job.id (recover_current x job t a)
  unfolding recover_current
  recover_current-Closes job t none = mark_interrupted-Closes job t
  recover_current-Closes job t (some a) =
      Closes-after job.id _ _ (λ j. read_attempt-job j job.id a)
        λ attempt.
          Closes-after job.id _ _ (λ j. search leaves_rules)
            λ b.
              Closes-if job.id b _ _
                (Closes-after job.id _ _ (λ j. read_failure-job j job.id a)
                  λ f.
                    Closes-then job.id _ _ (close_failed-Closes job a attempt f)
                      (λ u j. search leaves_rules))
                (close_attempt-Closes job t attempt)

  -- The active jobs of a state are among those that are still to be recovered.
  Pending : String → List JobRecord → Type 0
  Pending j [] = ⊥
  Pending j (job ∷ rest) = ((job.id ≡ j) × (is_active job.status ≡ true)) ⊎ Pending j rest

  record Covered (jobs : List JobRecord) (w : World) : Type 0 where
    at :
        (j : String) (r : JobRecord)
        → job_at j w ≡ some r
        → is_active r.status ≡ true
        → Pending j jobs

  recover_job-Covered :
      (job : JobRecord) (rest : List JobRecord) (w : World)
      → Covered (job ∷ rest) w
      → (l : List JobRecord) (w' : World) → recover_job x job w ≡ (ok l, w')
      → Covered rest w'
  unfolding recover_job Pending pure
  recover_job-Covered job rest w c l w' = go (is_active job.status) refl
    where
      head : (j : String) → str_eq job.id j ≡ false → Pending j (job ∷ rest) → Pending j rest
      head j other (inl (same, t)) = absurd (ground (arith, other, eq_iff job.id j, same))
      head j other (inr p) = p

      go :
          (b : Bool)
          → is_active job.status ≡ b
          → (if b then (now >>= λ t. recover_current x job t job.current_attempt_id) else pure []) w
            ≡ (ok l, w')
          → Covered rest w'
      go false h e = record {
        at = λ j r e' t. elim (c.at j r (ap (λ y. job_at j y.1) e ∙ e') t) [
          | inl (same, act) ↦ absurd (ground (arith, h, act))
          | inr p ↦ p
        ];
      }
      go true h e =
          let closed =
            Closes-after job.id now _ (λ j. now-job j)
              (λ t. recover_current-Closes job t job.current_attempt_id) in
          record {
            at = λ j r e' t.
                let (old, other) = (closed.at w l w' e).at j r e' t in
                head j other (c.at j r old t);
          }

  recover_jobs-Covered :
      (jobs : List JobRecord) (w : World)
      → Covered jobs w
      → (l : List JobRecord) (w' : World) → recover_jobs x jobs w ≡ (ok l, w')
      → Covered [] w'
  unfolding recover_jobs ◌>>=◌ pure
  recover_jobs-Covered [] w c l w' e = record {
    at = λ j r e' t. c.at j r (ap (λ y. job_at j y.1) e ∙ e') t;
  }
  recover_jobs-Covered (job ∷ rest) w c l w' e =
      first (λ v cov b u run. recover_jobs-Covered rest v cov b u run) (recover_job x job w).0
        (recover_job x job w).1 refl e
    where
      Rest : Type 0
      Rest =
          (v : World)
          → Covered rest v
          → (b : List JobRecord) (u : World) → recover_jobs x rest v ≡ (ok b, u)
          → Covered [] u

      others : List JobRecord → M (List JobRecord)
      others a = recover_jobs x rest >>= λ b. pure (a ++ b)

      second :
          Rest
          → (r : Result (List JobRecord)) (v u : World) → recover_jobs x rest v ≡ (r, u)
          → Covered rest v
          → (a : List JobRecord) → and_then (r, u) (λ b. pure (a ++ b)) ≡ (ok l, w')
          → Covered [] w'
      second ih (ok b) v u run cov a e = record {
        at = λ j r e' t. (ih v cov b u run).at j r (ap (λ y. job_at j y.1) e ∙ e') t;
      }
      second ih (err y) v u run cov a e = absurd (ground (arith, e))

      first :
          Rest
          → (r : Result (List JobRecord)) (v : World) → recover_job x job w ≡ (r, v)
          → and_then (r, v) others ≡ (ok l, w')
          → Covered [] w'
      first ih (ok a) v run e =
          second ih (recover_jobs x rest v).0 v (recover_jobs x rest v).1 refl
            (recover_job-Covered job rest w c a v run) a e
      first ih (err y) v run e = absurd (ground (arith, e))

  Pending-insert :
      (j : String) (job : JobRecord) (l : List JobRecord)
      → Pending j (job ∷ l)
      → Pending j (insert_latest (λ (r : JobRecord). r.updated_at) job l)
  unfolding insert_latest Pending
  Pending-insert j job [] p = p
  Pending-insert j job (y ∷ l) p =
      go (deeper (λ q. Pending-insert j job l q) p) (ltb job.updated_at y.updated_at)
    where
      Later : Type 0
      Later = Pending j (y ∷ insert_latest (λ (r : JobRecord). r.updated_at) job l)

      deeper :
          (Pending j (job ∷ l) → Pending j (insert_latest (λ (r : JobRecord). r.updated_at) job l))
          → Pending j (job ∷ y ∷ l)
          → Pending j (y ∷ insert_latest (λ (r : JobRecord). r.updated_at) job l)
      deeper ih (inl here) = inr (ih (inl here))
      deeper ih (inr (inl here)) = inl here
      deeper ih (inr (inr q)) = inr (ih (inr q))

      go :
          Later
          → (b : Bool)
          → Pending j
              (if b then y ∷ insert_latest (λ (r : JobRecord). r.updated_at) job l else job ∷ y ∷ l)
      go q true = q
      go q false = p

  Pending-sorted :
      (j : String) (l : List JobRecord)
      → Pending j l
      → Pending j (latest_first (λ (r : JobRecord). r.updated_at) l)
  unfolding latest_first Pending
  Pending-sorted j [] p = p
  Pending-sorted j (job ∷ l) (inl p) = Pending-insert j job _ (inl p)
  Pending-sorted j (job ∷ l) (inr p) = Pending-insert j job _ (inr (Pending-sorted j l p))

  Pending-records :
      (j : String) (d : Dict JobFiles) (r : JobRecord)
      → (or_no_job (get d j)).job ≡ some r
      → r.id ≡ j
      → is_active r.status ≡ true
      → Pending j (job_records (values d))
  unfolding get values job_records Pending
  Pending-records j [] r e key t = absurd (ground (arith, e))
  Pending-records j ((k, fs) ∷ d) r e key t =
      go (Pending-records j d r) (str_eq k j) refl fs.job refl
    where
      go :
          ((or_no_job (get d j)).job ≡ some r
            → r.id ≡ j
            → is_active r.status ≡ true
            → Pending j (job_records (values d)))
          → (b : Bool) → str_eq k j ≡ b
          → (o : Option JobRecord) → fs.job ≡ o
          → Pending j
              (elim o [ none ↦ job_records (values d) | some r' ↦ r' ∷ job_records (values d) ])
      go ih true h none o = absurd (ground (arith, e, h, o))
      go ih true h (some q) o =
          let same : q ≡ r = ground (arith, e, h, o) in
          inl (
            ap (λ (y : JobRecord). y.id) same ∙ key,
            ap (λ (y : JobRecord). is_active y.status) same ∙ t,
          )
      go ih false h none o = ih (ground (arith, e, h)) key t
      go ih false h (some q) o = inr (ih (ground (arith, e, h)) key t)

  -- A recovery that returns leaves no job starting or running, where each job.json holds the id of
  -- its directory.
  pub recover_interrupted-closes :
      (w w' : World) (l : List JobRecord)
      → ((j : String) (r : JobRecord) → (job_files w j).job ≡ some r → r.id ≡ j)
      → recover_interrupted x w ≡ (ok l, w')
      → (j : String) (r : JobRecord) → (job_files w' j).job ≡ some r
      → is_active r.status ≡ false
  unfolding recover_interrupted list_jobs ◌>>=◌ job_at Pending job_files
  recover_interrupted-closes w w' l keyed e j r stored = go (is_active r.status) refl
    where
      covered :
          Covered (latest_first (λ (q : JobRecord). q.updated_at) (job_records (values w.jobs))) w
      covered = record {
        at = λ j' q e' t.
            Pending-sorted j' (job_records (values w.jobs))
              (Pending-records j' w.jobs q e' (keyed j' q e') t);
      }

      go : (b : Bool) → is_active r.status ≡ b → is_active r.status ≡ false
      go true t = absurd ((recover_jobs-Covered _ w covered l w' e).at j r stored t)
      go false t = t
