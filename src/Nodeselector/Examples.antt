-- ===== src/Nodeselector/Examples.antt =====
-- A run and an instance of the theorem on internal/nodeselector/nodeselector.go: a GPU VM may go to "pve2"
-- or "pve3", but a production VM is on "pve2".
use actions_runner_scaleset.Prelude.{
  ◌≡◌, refl, Bool, true, false, not, Option, some, List, [], ◌∷◌, String, contains, filter, In,
}
use actions_runner_scaleset.Prelude.Dict.{lookup}
use actions_runner_scaleset.Nodecap.{Shape}
use actions_runner_scaleset.Config.Fields.{AffinityRule}
use actions_runner_scaleset.Nodeselector.{
  Hint, chosen, round_robin, rotate, matching_rule, excluded_by, eligible_from, among, affinity,
  affinity_select, has_room, capacity_select,
}
use actions_runner_scaleset.Nodeselector.Placed.{
  Allowed, HasRoom, placed-Allowed, round_robin-Honours,
}

abbrev nodes : List String
nodes = "pve1" ∷ "pve2" ∷ "pve3" ∷ []

abbrev gpu_rule : AffinityRule
gpu_rule = record {
  matched = "gpu";
  anti_affinity_with = "prod";
  prefer_nodes = "pve2" ∷ "pve3" ∷ [];
  require = true;
}

abbrev gpu_vm : Hint
gpu_vm = record {
  avoid = [];
  profile = "gpu";
  existing_vms = record { node = "pve2"; profile = "prod" } ∷ [];
  shape = record { memory_bytes = 4096; vcpus = 2 };
}

abbrev roomy : Shape → List String → Option (List (String × Bool))
roomy shape candidates = some (("pve1", true) ∷ ("pve2", true) ∷ ("pve3", true) ∷ [])

gpu_vm_run :
    (capacity_select (affinity (round_robin nodes) (gpu_rule ∷ []) nodes) roomy nodes 0 gpu_vm).1
    ≡ chosen "pve3"
unfolding capacity_select affinity_select rotate matching_rule excluded_by eligible_from among
    has_room filter contains lookup
gpu_vm_run = refl

placed-Allowed_example :
    (contains "pve3" [] ≡ false)
    × In "pve3" nodes
    × HasRoom (roomy gpu_vm.shape (filter (λ n. not (contains n [])) nodes)) "pve3"
    × Allowed gpu_rule gpu_vm "pve3"
unfolding matching_rule
placed-Allowed_example =
    placed-Allowed (round_robin nodes) (gpu_rule ∷ []) roomy nodes 0 gpu_vm gpu_rule "pve3"
      (round_robin-Honours nodes) refl refl gpu_vm_run
