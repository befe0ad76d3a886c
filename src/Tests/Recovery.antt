-- ===== src/Tests/Recovery.antt =====
-- A restart of the daemon while a job was running.
use zgent.Common.{◌≡◌, refl, arith, eq_iff, String, false, none, some, [], ◌∷◌}
use zgent.Common.Exec.{ok}
use zgent.Jobs.Models.{JobRecord, interrupted, running}
use zgent.Jobs.Recover.{is_active, recover_interrupted}
use zgent.Jobs.Recover.Closed.{recover_interrupted-closes}
use zgent.Jobs.Store.{job_files}
use zgent.Tests.Code.{code}
use zgent.Tests.Data.{externals, at_failure, job, job_dir, attempt, attempt_dir}
use zgent.World.{World}

abbrev left_running : World
left_running = record at_failure {
  jobs =
      (
        "job-1",
        record job_dir {
          job = some (record job { status = running });
          attempts =
              (
                "attempt-0001",
                record attempt_dir {
                  attempt = some (record attempt { status = running });
                  failure = none;
                },
              )
              ∷ [];
        },
      )
      ∷ [];
}

abbrev closed_job : JobRecord
closed_job = record job { status = interrupted; updated_at = 10 }

abbrev recovered : World
recovered = (recover_interrupted externals left_running).1

returned : recover_interrupted externals left_running ≡ (ok (closed_job ∷ []), recovered)
unfolding code
returned = refl

keyed : (j : String) (r : JobRecord) → (job_files left_running j).job ≡ some r → r.id ≡ j
unfolding code
keyed j r e = ground (arith, e, eq_iff "job-1" j)

stored_closed : (job_files recovered "job-1").job ≡ some closed_job
unfolding code
stored_closed = refl

recover_interrupted-closes_example : is_active closed_job.status ≡ false
recover_interrupted-closes_example =
    recover_interrupted-closes externals left_running recovered (closed_job ∷ []) keyed returned
      "job-1" closed_job stored_closed
