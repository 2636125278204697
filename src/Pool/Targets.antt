-- ===== src/Pool/Targets.antt =====
-- The live targets of a profile in internal/pool/manager.go: SetDesiredCount and SetTargetSizes. The
-- targets are stored as 32-bit integers.
pub mod Shares
mod Examples
use actions_runner_scaleset.Prelude.{
  ℕ, zero, suc, ◌+◌, ◌-◌, ◌/◌, ◌%◌, ◌^◌, Bool, List, [], ◌∷◌, String, length, bit, ltb,
  if◌then◌else◌,
}
use actions_runner_scaleset.Prelude.Int.{ℤ, pos, negsuc, ◌+ℤ◌, ◌-ℤ◌, ltb_ℤ, pos_part}

-- `int32(n)`
unfoldable pub to_int32 : ℕ → ℤ
to_int32 n = let m = n % 2 ^ 32 in if ltb m (2 ^ 31) then pos m else negsuc (2 ^ 32 - m - 1)

-- `if n < 0 { n = 0 }`
abbrev pub floor_zero : ℤ → ℕ
floor_zero (pos n) = n
floor_zero (negsuc n) = 0

-- The loop of SetDesiredCount, from the i-th profile on.
unfoldable pub share_out : ℕ → ℕ → ℕ → List String → List (String × ℕ)
share_out share remainder i [] = []
share_out share remainder i (name ∷ names) =
    (name, share + bit (ltb i remainder)) ∷ share_out share remainder (suc i) names

-- SetDesiredCount: the share of each profile, in the order of declaration, before `int32`
unfoldable pub shares : ℤ → List String → List (String × ℕ)
unfolding share_out
shares n names =
    let total = floor_zero n in share_out (total / length names) (total % length names) 0 names

unfoldable pub store_shares : List (String × ℕ) → List (String × ℤ)
unfolding to_int32
store_shares [] = []
store_shares ((name, got) ∷ rest) = (name, to_int32 got) ∷ store_shares rest

unfoldable pub set_desired_count : ℤ → List String → List (String × ℤ)
unfolding shares store_shares
set_desired_count n names = store_shares (shares n names)

-- SetTargetSizes for a profile that is known, with its cap: the sizes to be stored
unfoldable pub clamp_sizes : ℕ → ℤ → ℤ → ℕ × ℕ
clamp_sizes limit hot warm =
    let h = floor_zero hot in
    let w = floor_zero warm in
    if ltb limit (h + w) then (if ltb limit h then (limit, 0) else (h, limit - h)) else (h, w)

unfoldable pub set_target_sizes : ℕ → ℤ → ℤ → ℤ × ℤ
unfolding clamp_sizes to_int32
set_target_sizes limit hot warm =
    let (h, w) = clamp_sizes limit hot warm in (to_int32 h, to_int32 w)
