-- ===== src/Pool/Workers/Examples.antt =====
-- Instances of the theorems on the workers of internal/pool/manager.go.
use actions_runner_scaleset.Prelude.{◌≡◌, refl, true, [], ◌∷◌, arith}
use actions_runner_scaleset.Store.{booting, recycling}
use actions_runner_scaleset.Store.Table.{lacks_index}
use actions_runner_scaleset.Store.Validity.{IsValid}
use actions_runner_scaleset.Store.Sample.{list_db, sample_vm, Rows, rows-IsValid}
use actions_runner_scaleset.Pool.Config.{Config}
use actions_runner_scaleset.Pool.Handlers.{destroy_async, force_destroy}
use actions_runner_scaleset.Pool.Workers.Boot.{boot_revives}

abbrev config : Config
config = record {
  profiles = [];
  hot_size = 2;
  warm_size = 1;
  max_concurrent_runners = 10;
  boot_max_attempts = 3;
  vm_max_age = 0;
  snapshot_recycle = true;
  vmid_min = 1;
  vmid_max = 20;
}

-- A booting and a recycling row.
abbrev busy_rows : Rows
busy_rows = (sample_vm 3 booting 20 ∷ sample_vm 5 recycling 10 ∷ [], (refl, (refl, tt)))

busy_rows-IsValid : IsValid list_db busy_rows
unfolding lacks_index
busy_rows-IsValid = rows-IsValid busy_rows ((omega arith, refl), ((omega arith, refl), tt))

boot_revives_example :
    (force_destroy list_db busy_rows 3 90).1 ≡ destroy_async 3 "pve1" "default" ∷ []
boot_revives_example =
    (boot_revives list_db busy_rows 3 90 95 95 (sample_vm 3 booting 20) busy_rows-IsValid refl
      refl).0
