-- ===== src/Pool/Sweeps/Examples.antt =====
-- Instances of the theorems on the sweeps of internal/pool/manager.go.
use actions_runner_scaleset.Prelude.{
  length, filter, ℕ, ◌+◌, ◌==◌, ◌≡◌, ◌≤◌, ◌<◌, refl, ◌⊎◌, true, none, some, [], ◌∷◌, arith,
  if◌then◌else◌,
}
use actions_runner_scaleset.Store.{Vm, state_eq, warm, hot, running, draining, booting}
use actions_runner_scaleset.Store.Table.{lacks_index, selects}
use actions_runner_scaleset.Store.Read.{count_by_profile_state}
use actions_runner_scaleset.Store.Steps.{here}
use actions_runner_scaleset.Store.Validity.{IsValid}
use actions_runner_scaleset.Store.Sample.{list_db, sample_vm, Rows, rows-IsValid}
use actions_runner_scaleset.Pool.Handlers.{destroy_async}
use actions_runner_scaleset.Pool.Sweeps.{
  Others, shrink_hot_pool, shrink_warm_pool, sweep_rows, stuck_grace,
}
use actions_runner_scaleset.Pool.Sweeps.Spares.{idle_sweeps_spare}
use actions_runner_scaleset.Pool.Sweeps.Shrink.{shrink_reaches_target}
use actions_runner_scaleset.Pool.Sweeps.Stuck.{sweep_ignores_state}

-- Nothing else happens.
abbrev quiet : Others list_db
quiet i t = (t, here)

abbrev clock : ℕ → ℕ
clock i = 100 + i

-- A running row beside two hot ones.
abbrev serving : Rows
serving = (
  sample_vm 3 hot 20 ∷ sample_vm 5 hot 10 ∷ sample_vm 7 running 5 ∷ [],
  (refl, (refl, (refl, tt))),
)

serving-IsValid : IsValid list_db serving
unfolding lacks_index
serving-IsValid =
    rows-IsValid serving ((omega arith, refl), ((omega arith, refl), ((omega arith, refl), tt)))

idle_sweeps_spare_example :
    list_db.first (shrink_hot_pool list_db quiet clock serving serving "default" 0 0 0 serving).0 7
    ≡ some (sample_vm 7 running 5)
idle_sweeps_spare_example =
    (idle_sweeps_spare list_db quiet clock 7 (sample_vm 7 running 5) refl (λ i t f. f) serving
      serving serving "default" 0 0 0 0 10 200 1 (λ i. true) serving-IsValid refl).0

-- A listing from when the VM was still booting, and its row, which runs a job by now.
sweep_ignores_state_example :
    ((400000000000 ≤ 5 + stuck_grace)
      × ((sweep_rows list_db quiet clock 400000000000 0 (sample_vm 7 booting 5 ∷ []) serving).0
          ≡ serving)
      × ((sweep_rows list_db quiet clock 400000000000 0 (sample_vm 7 booting 5 ∷ []) serving).1
          ≡ []))
    ⊎ ((5 + stuck_grace < 400000000000)
        × (((list_db.first serving 7 ≡ none)
              × ((sweep_rows list_db quiet clock 400000000000 0
                    (sample_vm 7 booting 5 ∷ [])
                    serving).0
                  ≡ serving)
              × ((sweep_rows list_db quiet clock 400000000000 0
                    (sample_vm 7 booting 5 ∷ [])
                    serving).1
                  ≡ []))
            ⊎ ((v : Vm) × (list_db.first serving 7 ≡ some v)
                × ((k : ℕ)
                    → list_db.first
                        (sweep_rows list_db quiet clock 400000000000 0
                          (sample_vm 7 booting 5 ∷ [])
                          serving).0
                        k
                      ≡ (if 7 == k
                          then some (record v {
                            state = draining;
                            state_since = 100 + 0;
                            updated_at = 100 + 0;
                          })
                          else list_db.first serving k))
                × ((sweep_rows list_db quiet clock 400000000000 0
                      (sample_vm 7 booting 5 ∷ [])
                      serving).1
                    ≡ destroy_async 7 "pve1" "default" ∷ []))))
sweep_ignores_state_example =
    sweep_ignores_state list_db quiet clock (sample_vm 7 booting 5) serving 400000000000
      serving-IsValid

-- Two hot rows with a target of one, and no warm rows.
shrink_reaches_target_example :
    (count_by_profile_state list_db
        (shrink_hot_pool list_db quiet clock serving serving "default" 1 1 1 serving).0
        "default"
        hot
      ≡ 1)
    × (length (shrink_hot_pool list_db quiet clock serving serving "default" 1 1 1 serving).1 ≡ 1)
    × (count_by_profile_state list_db
          (shrink_warm_pool list_db quiet clock serving serving "default" 2 serving).0
          "default"
          warm
        ≡ 0)
    × (length (shrink_warm_pool list_db quiet clock serving serving "default" 2 serving).1 ≡ 0)
unfolding count_by_profile_state filter selects state_eq
shrink_reaches_target_example =
    shrink_reaches_target list_db clock serving "default" 1 1 1 2 serving-IsValid
