-- ===== src/Pool/Handlers/Examples.antt =====
-- Runs of the handlers of internal/pool/manager.go on a small table, and instances of their theorems.
use actions_runner_scaleset.Prelude.{◌≡◌, refl, ◌⊎◌, false, some, List, [], ◌∷◌, any}
use actions_runner_scaleset.Store.{Vm}
use actions_runner_scaleset.Store.Sample.{list_db, fleet, fleet-IsValid}
use actions_runner_scaleset.Pool.Config.{Config}
use actions_runner_scaleset.Pool.Handlers.{signal_refill, mark_completed, done, destroyable}
use actions_runner_scaleset.Pool.Handlers.Teardown.{
  Call, forces, preempts, completes, calls, destroys, held_in, teardown_once,
}
use actions_runner_scaleset.Pool.Handlers.Completed.{
  mark_completed-exact, Completes, IsBusy, IsLeaving,
}

abbrev config : Config
config = record {
  profiles = [];
  hot_size = 2;
  warm_size = 1;
  max_concurrent_runners = 10;
  boot_max_attempts = 3;
  vm_max_age = 0;
  snapshot_recycle = false;
  vmid_min = 1;
  vmid_max = 20;
}

-- The completion of a job, a forced destroy and a preemption race for one VM.
abbrev race : List (Call list_db)
race = completes fleet 90 90 90 ∷ forces 91 ∷ preempts fleet 92 92 ∷ []

teardown_once_example :
    destroys (calls list_db config 7 fleet race).1 ≡ held_in list_db destroyable fleet 7
unfolding any
teardown_once_example = (teardown_once list_db config 7 fleet race fleet-IsValid).2 refl

mark_completed-exact_example :
    ((seen : Vm) × (list_db.first fleet 7 ≡ some seen)
      × IsBusy seen
      × (Completes list_db config fleet seen 7 90 90 90
            (mark_completed list_db config fleet fleet 7 90 90 90)
          ⊎ (((cur : Vm) → list_db.first fleet 7 ≡ some cur → ¬ IsBusy cur)
              × (mark_completed list_db config fleet fleet 7 90 90 90 ≡ (fleet, [], done)))))
    ⊎ ((seen : Vm) × (list_db.first fleet 7 ≡ some seen)
        × IsLeaving seen
        × (mark_completed list_db config fleet fleet 7 90 90 90
            ≡ (fleet, signal_refill ∷ [], done)))
    ⊎ (((seen : Vm) → list_db.first fleet 7 ≡ some seen → (¬ IsBusy seen) × (¬ IsLeaving seen))
        × (mark_completed list_db config fleet fleet 7 90 90 90 ≡ (fleet, [], done)))
mark_completed-exact_example =
    mark_completed-exact list_db config fleet fleet 7 90 90 90 fleet-IsValid
