-- ===== src/Tests/Restart.antt =====
-- A restart after a failure that no incident covers yet.
use zgent.Common.{◌≡◌, refl, true, [], ◌∷◌}
use zgent.Incidents.Coordinator.Recovering.{Restart, recover}
use zgent.Tests.Code.{code}
use zgent.Tests.Data.{externals, at_failure, around, fresh}
use zgent.World.{run_diagnosis}

abbrev restart : Restart
restart = record {
  around = around;
  fresh = fresh;
  terminated = λ pid identity. true;
  run_hex = "9";
}

-- The run of the new incident is spawned by the failure handler, and again as one to resume.
spawned_twice :
    (recover externals restart at_failure).1.tasks
    ≡ run_diagnosis "job-1" "inc-1" "run-1" ∷ run_diagnosis "job-1" "inc-1" "run-1" ∷ []
unfolding code
spawned_twice = refl
