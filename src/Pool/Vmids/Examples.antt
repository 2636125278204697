-- ===== src/Pool/Vmids/Examples.antt =====
-- Runs of allocateVMID of internal/pool/manager.go, and instances of its theorem.
use actions_runner_scaleset.Prelude.{ℕ, ◌==◌, ◌≡◌, ◌≤◌, ◌<◌, refl, ◌⊎◌, none, some, any, filter}
use actions_runner_scaleset.Store.Table.{selects}
use actions_runner_scaleset.Store.Read.{used_vmids, list}
use actions_runner_scaleset.Store.Sample.{list_db, fleet}
use actions_runner_scaleset.Pool.Vmids.{allocate_vmid, lowest_free, is_used}
use actions_runner_scaleset.Pool.Vmids.Lowest.{allocate_vmid-least, IsTaken}

-- Rows hold 3, 5 and 7, and 4 is settling.
allocate_run : allocate_vmid list_db (λ j. j == 4) 3 9 fleet ≡ some 6
unfolding allocate_vmid lowest_free is_used used_vmids list any filter selects
allocate_run = refl

allocate_vmid-least_example :
    ((k : ℕ) × (allocate_vmid list_db (λ j. j == 4) 3 9 fleet ≡ some k)
      × (3 ≤ k)
      × (k ≤ 9)
      × (¬ IsTaken list_db (λ j. j == 4) fleet k)
      × ((j : ℕ) → 3 ≤ j → j < k → IsTaken list_db (λ i. i == 4) fleet j))
    ⊎ ((allocate_vmid list_db (λ j. j == 4) 3 9 fleet ≡ none)
        × ((j : ℕ) → 3 ≤ j → j ≤ 9 → IsTaken list_db (λ i. i == 4) fleet j))
allocate_vmid-least_example = allocate_vmid-least list_db (λ j. j == 4) 3 9 fleet
