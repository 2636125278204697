-- ===== src/Schedule.antt =====
-- internal/schedule/schedule.go: the entries of a schedule runner and the checks of NewRunner. The time
-- zone of an entry and the sizes that it sets are not read by the checks.
pub mod Windows
mod Replay
mod Ties
mod Applied
mod Examples
use actions_runner_scaleset.Prelude.{ℕ, Bool, not, Option, List, String, str_eq, leb}
use actions_runner_scaleset.Prelude.Checks.{reject, ◌before◌, for_each}

pub record Entry : Type 0 where
  pub name : String
  pub profile : String
  pub cron_set : Bool
  pub duration : ℕ
  pub hot_size : ℕ
  pub warm_size : ℕ
  pub baseline_hot : ℕ
  pub baseline_warm : ℕ

pub data RunnerError : Type 0 where
  profile_required cron_required duration_required : RunnerError

unfoldable pub check_entry : Entry → Option RunnerError
unfolding reject ◌before◌
check_entry e =
    reject (str_eq e.profile "") profile_required
    before reject (not e.cron_set) cron_required
    before reject (leb e.duration 0) duration_required

-- NewRunner, with an apply function; none is a runner
unfoldable pub new_runner : List Entry → Option RunnerError
unfolding for_each check_entry
new_runner = for_each check_entry
