-- ===== src/Canary/Examples.antt =====
-- Runs of internal/canary/canary.go, and an instance of its theorem.
use actions_runner_scaleset.Prelude.{
  ◌+◌, ◌*◌, ◌≡◌, ◌≤◌, refl, true, false, List, [], ◌∷◌, ltb, count,
}
use actions_runner_scaleset.Canary.{
  ProfileState, candidate, stable, hash_mod100, fnv_bytes, fnv_byte,
}
use actions_runner_scaleset.Canary.Revert.{Call, clones, fails, calls, is_promote, reverts_once}

-- A quarter of the clones goes to template 9001, with a rate of one half.
abbrev trial : ProfileState
trial = record {
  stable_vmid = 9000;
  candidate_vmid = 9001;
  percent = 25;
  original_percent = 25;
  rate_set = true;
  rate_exceeded = λ failures clones. ltb clones (2 * failures);
  canary_clones = 0;
  canary_failures = 0;
  reverted = false;
}

abbrev history : List Call
history = clones candidate ∷ fails candidate ∷ fails candidate ∷ clones stable ∷ []

hash_run : hash_mod100 10007 ≡ 51
unfolding hash_mod100 fnv_bytes fnv_byte
hash_run = refl

reverts_once_example : (calls 1 trial history).1 ≤ 1 + count is_promote history
reverts_once_example = (reverts_once 1 trial history (λ r. cc)).0
