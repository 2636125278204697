-- ===== src/Pool/Eviction/Examples.antt =====
-- Instances of the theorems on eviction in internal/pool/capacity.go.
use actions_runner_scaleset.Prelude.{
  ℕ, ◌+◌, ◌≡◌, ◌≢◌, refl, Bool, true, false, Option, some, List, [], ◌∷◌, ◌++◌, arith, All,
}
use actions_runner_scaleset.Store.{State, warm, hot, running}
use actions_runner_scaleset.Store.Table.{lacks_index}
use actions_runner_scaleset.Store.Validity.{IsValid}
use actions_runner_scaleset.Store.Steps.{here}
use actions_runner_scaleset.Store.Sample.{list_db, sample_vm, Rows, rows-IsValid}
use actions_runner_scaleset.Pool.Sweeps.{Others}
use actions_runner_scaleset.Nodecap.{Shape, NodeState}
use actions_runner_scaleset.Pool.Eviction.{
  EvictionCandidate, EvictionPlan, fits_node, plan_eviction, start_eviction,
}
use actions_runner_scaleset.Pool.Eviction.Closing.{mem_of}
use actions_runner_scaleset.Pool.Eviction.Plans.{Chosen, plan_eviction-Chosen}
use actions_runner_scaleset.Pool.Eviction.Commits.{Carries, Evicts, start_eviction-exact}

abbrev idle : ℕ → State → Bool → EvictionCandidate
idle vmid state preferred = record {
  row = sample_vm vmid state vmid;
  mem_bytes = 2000;
  vcpus = 2;
  preferred = preferred;
}

abbrev two_idle : List EvictionCandidate
two_idle = idle 3 hot false ∷ idle 7 warm true ∷ []

abbrev clone : Shape
clone = record { memory_bytes = 3000; vcpus = 2 }

abbrev short : NodeState
short = record {
  total_bytes = 9000;
  reserve_bytes = 1000;
  committed_bytes = 7000;
  available_bytes = 1000;
  cpu_gated = true;
  limit_vcpu = 8;
  committed_vcpu = 6;
  available_vcpu = 2;
}

plan_eviction-Chosen_example : Chosen two_idle clone short (plan_eviction two_idle clone short)
unfolding fits_node mem_of
plan_eviction-Chosen_example = plan_eviction-Chosen two_idle clone short (omega arith) refl

abbrev quiet : Others list_db
quiet i t = (t, here)

abbrev clock : ℕ → ℕ
clock i = 100 + i

-- VM 7 was warm when the plan was made and runs a job by now.
abbrev acquired : Rows
acquired = (sample_vm 3 hot 20 ∷ sample_vm 7 running 5 ∷ [], (refl, (refl, tt)))

acquired-IsValid : IsValid list_db acquired
unfolding lacks_index
acquired-IsValid = rows-IsValid acquired ((omega arith, refl), ((omega arith, refl), tt))

abbrev reserve : List ℕ → Option ℕ
reserve vmids = some 1

abbrev planned : EvictionPlan
planned = record {
  victims = two_idle;
  mem_gap = 4000;
  vcpu_gap = 0;
  freed_mem = 4000;
  freed_vcpu = 4;
}

start_eviction-exact_example :
    let (u, did, parked, effects) = start_eviction list_db quiet clock reserve planned acquired in
    (list_db.first u 7 ≡ some (sample_vm 7 running 5))
    × ((committed : List EvictionCandidate) × (rest : List EvictionCandidate) × (two_idle
          ≡ committed ++ rest)
        × Carries reserve committed (did, parked, effects)
        × All (λ c. c.row.vmid ≢ 7) committed
        × Evicts list_db quiet clock 0 acquired two_idle u committed)
start_eviction-exact_example =
    start_eviction-exact list_db quiet clock 7 (sample_vm 7 running 5) (λ e. cc e) (λ e. cc e)
      (λ i t f. f) reserve planned acquired acquired-IsValid refl
