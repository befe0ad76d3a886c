-- ===== src/Tests/Starts.antt =====
-- The start of a second job.
use zgent.Common.{◌≡◌, refl, ap, some, [], ◌∷◌}
use zgent.Common.Exec.{ok}
use zgent.Jobs.Models.{JobRecord, running}
use zgent.Jobs.Store.{job_files}
use zgent.Jobs.Supervisor.{spawned, start}
use zgent.Jobs.Supervisor.Settled.{start-settles}
use zgent.Tests.Code.{code}
use zgent.Tests.Data.{externals, callback, spec, at_failure}
use zgent.World.{World}

abbrev started : JobRecord
started = record {
  id = "job-2";
  status = running;
  created_at = 10;
  updated_at = 12;
  current_attempt_id = some "attempt-0001";
  attempt_ids = "attempt-0001" ∷ [];
}

abbrev after_start : World
after_start =
    (start externals callback spec (ok "/work") "job-2" (spawned 90 (some "now")) at_failure).1

start_returned :
    (start externals callback spec (ok "/work") "job-2" (spawned 90 (some "now")) at_failure).0
    ≡ ok started
unfolding code
start_returned = refl

start-settles_example :
    (started.status ≡ running) × ((job_files after_start "job-2").job ≡ some started)
start-settles_example =
    start-settles externals callback spec (ok "/work") "job-2" (spawned 90 (some "now")) at_failure
      after_start started (ap (λ r. (r, after_start)) start_returned)
