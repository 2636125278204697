-- ===== src/Pool/Targets/Examples.antt =====
-- Instances of the theorems on SetDesiredCount and SetTargetSizes of internal/pool/manager.go.
use actions_runner_scaleset.Prelude.{◌≡◌, refl, [], ◌∷◌, arith}
use actions_runner_scaleset.Prelude.Int.{pos}
use actions_runner_scaleset.Pool.Targets.{
  set_desired_count, set_target_sizes, shares, share_out, store_shares, to_int32,
}
use actions_runner_scaleset.Pool.Targets.Shares.{target_sizes_fit}

shares_run :
    set_desired_count (pos 7) ("large" ∷ "small" ∷ "gpu" ∷ [])
    ≡ ("large", pos 3) ∷ ("small", pos 2) ∷ ("gpu", pos 2) ∷ []
unfolding set_desired_count shares share_out store_shares to_int32
shares_run = refl

target_sizes_fit_example : (set_target_sizes 10 (pos 8) (pos 5)).1 ≡ pos 2
target_sizes_fit_example = (target_sizes_fit 10 (pos 8) (pos 5) (omega arith)).1
