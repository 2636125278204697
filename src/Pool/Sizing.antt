-- ===== src/Pool/Sizing.antt =====
-- The pool-sizing arithmetic of internal/pool (pool.go, manager.go). Counts and sizes are lengths of
-- lists or are clamped at 0 where they are set, so they are natural numbers; the differences that
-- the code forms may be negative and are integers. Go's 64-bit range is not reached by such counts.
pub mod Needs
pub mod Credit
mod Examples
use actions_runner_scaleset.Prelude.{
  ℕ, ◌+◌, ◌-◌, Option, none, some, Bool, List, [], ◌∷◌, if◌then◌else◌,
}
use actions_runner_scaleset.Prelude.Int.{ℤ, pos, ◌+ℤ◌, ◌-ℤ◌, ltb_ℤ}
use actions_runner_scaleset.Store.{
  State, provisioning, warm, booting, hot, assigned, running, recycling, draining, destroying,
  poison, state_eq,
}

pub record Stats : Type 0 where
  pub provisioning_n : ℕ
  pub warm_n : ℕ
  pub booting_n : ℕ
  pub hot_n : ℕ
  pub assigned_n : ℕ
  pub running_n : ℕ
  pub recycling_n : ℕ
  pub draining_n : ℕ
  pub destroying_n : ℕ
  pub poison_n : ℕ

-- Total
unfoldable pub total : Stats → ℕ
total s =
    s.provisioning_n + s.warm_n + s.booting_n + s.hot_n + s.assigned_n + s.running_n + s.recycling_n
    + s.draining_n + s.destroying_n + s.poison_n

-- Available
abbrev pub available : Stats → ℕ
available s = s.hot_n + s.booting_n

-- Busy
abbrev pub busy : Stats → ℕ
busy s = s.assigned_n + s.running_n

-- LiveWarm
abbrev pub live_warm : Stats → ℕ
live_warm s = s.warm_n

-- `raw[state]`, 0 when the key is missing
unfoldable pub raw_count : State → List (State × ℕ) → ℕ
unfolding state_eq
raw_count s [] = 0
raw_count s ((t, n) ∷ raw) = if state_eq t s then n else raw_count s raw

-- statsFromRaw
unfoldable pub stats_from_raw : List (State × ℕ) → Stats
unfolding raw_count
stats_from_raw raw = record {
  provisioning_n = raw_count provisioning raw;
  warm_n = raw_count warm raw;
  booting_n = raw_count booting raw;
  hot_n = raw_count hot raw;
  assigned_n = raw_count assigned raw;
  running_n = raw_count running raw;
  recycling_n = raw_count recycling raw;
  draining_n = raw_count draining raw;
  destroying_n = raw_count destroying raw;
  poison_n = raw_count poison raw;
}

pub record ReturningCredit : Type 0 where
  pub busy_credit : ℕ
  pub recycling_credit : ℕ

-- The sizing knobs and in-flight counts of one profile.
pub record Demand : Type 0 where
  pub inflight : ℕ
  pub hot_prov : ℕ
  pub warm_prov : ℕ
  pub hot_size : ℕ
  pub warm_size : ℕ
  pub desired : ℕ
  pub profile_max : ℕ

abbrev pub base : Stats → Demand → ℕ
base s d = available s + d.hot_prov + d.inflight

-- `if x > limit { x = limit }` and `if x < limit { x = limit }`
abbrev pub at_most : ℤ → ℤ → ℤ
at_most limit x = if ltb_ℤ limit x then limit else x

abbrev pub at_least : ℤ → ℤ → ℤ
at_least limit x = if ltb_ℤ x limit then limit else x

-- burstDeficit
unfoldable pub burst_deficit : Stats → Demand → ReturningCredit → ℤ
burst_deficit s d credit = pos d.desired -ℤ pos (base s d + credit.recycling_credit + busy s)

-- The part of the credit that covers hot slots.
unfoldable pub hot_credit : Stats → Demand → ReturningCredit → ℤ
hot_credit s d credit = at_least (pos 0) (
    at_most (pos (credit.busy_credit + credit.recycling_credit)) (pos d.hot_size -ℤ pos (base s d)))

unfoldable pub need_hot : Stats → Demand → ReturningCredit → ℤ
unfolding burst_deficit hot_credit
need_hot s d credit =
    let need_idle = pos d.hot_size -ℤ pos (base s d) -ℤ hot_credit s d credit in
    let wanted = at_least (pos 0) (at_least (burst_deficit s d credit) need_idle) in
    let occupied = available s + s.recycling_n + d.hot_prov + d.inflight + busy s in
    at_least (pos 0) (at_most (pos d.profile_max -ℤ pos occupied) wanted)

unfoldable pub need_warm : Stats → Demand → ReturningCredit → ℤ
unfolding hot_credit
need_warm s d credit =
    let warm_credit = pos (credit.busy_credit + credit.recycling_credit) -ℤ hot_credit s d credit in
    let warm_inflight = pos (live_warm s + d.warm_prov) +ℤ warm_credit in
    at_least (pos 0) (pos d.warm_size -ℤ warm_inflight)

-- computeCloneNeeds
unfoldable pub compute_clone_needs : Stats → Demand → ReturningCredit → ℤ × ℤ
unfolding need_hot need_warm
compute_clone_needs s d credit = (need_hot s d credit, need_warm s d credit)
