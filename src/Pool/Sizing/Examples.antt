-- ===== src/Pool/Sizing/Examples.antt =====
-- Runs of computeCloneNeeds of internal/pool/manager.go, and instances of its theorems.
use actions_runner_scaleset.Prelude.{◌≡◌, refl}
use actions_runner_scaleset.Prelude.Int.{pos, ◌+ℤ◌, ◌-ℤ◌, ◌≤ℤ◌}
use actions_runner_scaleset.Pool.Sizing.{
  Stats, Demand, ReturningCredit, compute_clone_needs, need_hot, need_warm, hot_credit,
  burst_deficit,
}
use actions_runner_scaleset.Pool.Sizing.Credit.{credit_conserved}

-- Three busy VMs, one hot and one warm one.
abbrev busy_pool : Stats
busy_pool = record {
  provisioning_n = 0;
  warm_n = 1;
  booting_n = 0;
  hot_n = 1;
  assigned_n = 1;
  running_n = 2;
  recycling_n = 0;
  draining_n = 0;
  destroying_n = 0;
  poison_n = 0;
}

abbrev wanted : Demand
wanted = record {
  inflight = 0;
  hot_prov = 0;
  warm_prov = 0;
  hot_size = 3;
  warm_size = 2;
  desired = 6;
  profile_max = 10;
}

abbrev returning : ReturningCredit
returning = record { busy_credit = 2; recycling_credit = 0 }

needs_run : compute_clone_needs busy_pool wanted returning ≡ (pos 2, pos 1)
unfolding compute_clone_needs need_hot need_warm hot_credit burst_deficit ◌+ℤ◌ ◌-ℤ◌
needs_run = refl

credit_conserved_example :
    (compute_clone_needs busy_pool wanted returning).0
    ≤ℤ (compute_clone_needs busy_pool wanted (record returning { busy_credit = 0 })).0
credit_conserved_example = (credit_conserved busy_pool wanted returning).0
