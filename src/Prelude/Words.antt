-- ===== src/Prelude/Words.antt =====
-- 64-bit integers: Go's int64 as an integer that wraps.
use actions_runner_scaleset.Prelude.{ℕ, ◌-◌, ◌%◌, ◌^◌, ◌≡◌, ◌<◌, ◌≤◌, arith, ltb, if◌then◌else◌}
use actions_runner_scaleset.Prelude.Int.{ℤ, pos, negsuc, pos_part, neg_part}

abbrev pub signed64 : ℕ → ℤ
signed64 m = if ltb m (2 ^ 63) then pos m else negsuc (2 ^ 64 - m - 1)

-- `int64(z)`, and the result of an int64 operation
unfoldable pub wrap64 : ℤ → ℤ
wrap64 (pos n) = signed64 (n % 2 ^ 64)
wrap64 (negsuc n) = signed64 (2 ^ 64 - 1 - n % 2 ^ 64)

pub wrap64_id : (z : ℤ) → pos_part z < 2 ^ 63 → neg_part z ≤ 2 ^ 63 → wrap64 z ≡ z
unfolding wrap64
wrap64_id (pos n) h k = ground arith
wrap64_id (negsuc n) h k = ground arith
