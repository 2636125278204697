-- ===== src/Pool/Adoption/Examples.antt =====
-- An instance of the theorem on the adoption of inherited VMs of internal/pool/manager.go.
use actions_runner_scaleset.Prelude.{◌≡◌, refl, true, some, [], arith}
use actions_runner_scaleset.Store.{Vm}
use actions_runner_scaleset.Store.Sample.{list_db, fleet}
use actions_runner_scaleset.Pool.Config.{Config, RunnerInfo}
use actions_runner_scaleset.Pool.Adoption.{OwnedVm, adopt_one}
use actions_runner_scaleset.Pool.Adoption.Fates.{adopt_one-Fate, Fate}

abbrev config : Config
config = record {
  profiles = [];
  hot_size = 2;
  warm_size = 1;
  max_concurrent_runners = 10;
  boot_max_attempts = 3;
  vm_max_age = 0;
  snapshot_recycle = true;
  vmid_min = 1;
  vmid_max = 20;
}

abbrev inherited : OwnedVm
inherited = record { vmid = 9; node = "pve1"; name = "gh-runner-9"; profile = "" }

abbrev busy_runner : RunnerInfo
busy_runner = record { id = 44; online = true; busy = true }

adopt_one-Fate_example :
    (row : Vm) × (list_db.first
        (adopt_one list_db config fleet inherited (some true) (some busy_runner) 100).0
        9
      ≡ some row)
    × Fate config inherited
        (some true)
        (some busy_runner)
        row
        (adopt_one list_db config fleet inherited (some true) (some busy_runner) 100).1
adopt_one-Fate_example =
    adopt_one-Fate list_db config fleet inherited (some true) (some busy_runner) 100 (omega arith)
      refl
