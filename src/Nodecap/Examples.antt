-- ===== src/Nodecap/Examples.antt =====
-- Instances of the theorems on internal/nodecap/nodecap.go, at one node with a guest and two claims.
use Prim.Native.Nat.{max}
use actions_runner_scaleset.Prelude.{
  ℕ, ◌+◌, ◌-◌, ◌*◌, ◌/◌, ◌≡◌, ◌≤◌, ◌⊎◌, refl, true, false, Option, none, List, [], ◌∷◌, arith,
}
use actions_runner_scaleset.Prelude.Dict.{lookup}
use actions_runner_scaleset.Prelude.Int.{◌+ℤ◌}
use actions_runner_scaleset.Prelude.Words.{wrap64}
use actions_runner_scaleset.Nodecap.{
  Shape, Options, Snapshot, Claim, Accountant, totals_of, mem_of, vcpu_of, observed_mem,
  state_locked, sweep_locked, sweep_claims, reserve_locked, release, fits_locked, retires,
}
use actions_runner_scaleset.Nodecap.Ledger.{pending, pending_of, held_by, credits, committed-exact}
use actions_runner_scaleset.Nodecap.Admission.{usable, reserve_within}
use actions_runner_scaleset.Nodecap.Spending.{here, next, reserved, released, never_overspent}

abbrev small : Shape
small = record { memory_bytes = 4000; vcpus = 2 }

abbrev options : Options
options = record {
  nodes = [];
  reserve_bytes = 1000;
  reserve_share = λ total. total / 10;
  cpu_gated = true;
  vcpu_limit = λ cores. cores * 2;
  reservation_ttl = 300;
  owned_vmids = [];
  owner_scale_sets = [];
}

-- VM 7 is there at half of its memory; VM 9 is about to be destroyed.
abbrev cluster : Snapshot
cluster = record {
  nodes = ("pve1", record { mem_bytes = 20000; vcpus = 8; guest_mem = 6000; guest_vcpu = 4 }) ∷ [];
  guest_mem = (7, 2000) ∷ (9, 4000) ∷ [];
  guest_vcpu = (7, 2) ∷ (9, 2) ∷ [];
}

abbrev settling : Claim
settling = record { id = 1; node = "pve1"; shape = small; vmid = 7; freeing = []; expires = 400 }

abbrev waiting : Claim
waiting = record { id = 2; node = "pve1"; shape = small; vmid = 0; freeing = 9 ∷ []; expires = 400 }

abbrev ledger : List Claim → Accountant
ledger res = record { opts = options; last_fresh = none; res = res; next_res = 2 }

committed-exact_example :
    (state_locked (ledger (settling ∷ waiting ∷ [])) cluster "pve1").committed_bytes
    ≡ (totals_of cluster "pve1").guest_mem
      + pending cluster "pve1" (settling ∷ waiting ∷ [])
      - credits cluster "pve1" (settling ∷ waiting ∷ [])
unfolding pending pending_of observed_mem credits held_by totals_of mem_of lookup
committed-exact_example =
    committed-exact cluster (ledger (settling ∷ waiting ∷ [])) "pve1" (omega arith, omega arith)

abbrev reserved_one : Accountant × Option ℕ
unfolding reserve_locked
reserved_one = reserve_locked (ledger (settling ∷ [])) cluster 100 "pve1" small (9 ∷ [])

reserve_within_example :
    ((state_locked reserved_one.0 cluster "pve1").committed_bytes
      ≤ max
          (usable (ledger (settling ∷ [])) cluster "pve1")
          (state_locked
            (sweep_locked (ledger (settling ∷ [])) cluster 100)
            cluster
            "pve1").committed_bytes)
    × ((true ≡ false) ⊎ ((state_locked reserved_one.0 cluster "pve1").committed_vcpu ≤ 8 * 2))
unfolding reserved_one reserve_locked sweep_locked sweep_claims retires fits_locked pending
    pending_of observed_mem credits held_by totals_of mem_of lookup wrap64 ◌+ℤ◌ vcpu_of
reserve_within_example =
    reserve_within cluster (ledger (settling ∷ [])) 100 "pve1" small (9 ∷ []) reserved_one.0 3
      (omega arith) (omega arith) (omega arith) refl

abbrev twice : Accountant
unfolding reserve_locked release
twice =
    release
      (reserve_locked (reserve_locked (ledger (settling ∷ [])) cluster 100 "pve1" small []).0
        cluster 101 "pve1" small []).0
      1

never_overspent_example :
    (state_locked twice cluster "pve1").committed_bytes
    ≤ max
        (usable (ledger (settling ∷ [])) cluster "pve1")
        (state_locked (ledger (settling ∷ [])) cluster "pve1").committed_bytes
unfolding twice pending pending_of observed_mem totals_of mem_of lookup
never_overspent_example =
    never_overspent cluster "pve1" (ledger (settling ∷ [])) twice (omega arith) (omega arith)
      (refl, tt)
      (next (next (next here (reserved _ 100 "pve1" small)) (reserved _ 101 "pve1" small))
        (released _ 1))
