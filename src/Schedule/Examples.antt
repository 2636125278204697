-- ===== src/Schedule/Examples.antt =====
-- Runs and instances of the theorems on internal/schedule/schedule.go. Two profiles have a schedule that
-- fires every hour, at 0, 60, 120 and so on.
use actions_runner_scaleset.Prelude.{
  ℕ, ◌+◌, ◌*◌, ◌-◌, ◌≡◌, ◌≤◌, refl, true, some, List, [], ◌∷◌, arith, All,
}
use actions_runner_scaleset.Prelude.Dict.{lookup}
use actions_runner_scaleset.Schedule.{Entry}
use actions_runner_scaleset.Schedule.Windows.{Armed, last_fire, fired_before, next_fire_after}
use actions_runner_scaleset.Schedule.Replay.{IsLastFire, fired_before-IsLastFire}
use actions_runner_scaleset.Schedule.Ties.{next_fire_after_shadows}
use actions_runner_scaleset.Schedule.Applied.{
  Event, fires, expires, at_baseline, unset, handle_all, InForce, handle_all-InForce,
}

abbrev night : Entry
night = record {
  name = "night";
  profile = "small";
  cron_set = true;
  duration = 45;
  hot_size = 0;
  warm_size = 1;
  baseline_hot = 2;
  baseline_warm = 2;
}

abbrev hourly : Armed
hourly = record { entry = night; next = λ t. t + 60 }

abbrev large_hourly : Armed
large_hourly = record { entry = record night { profile = "large" }; next = λ t. t + 60 }

fired_before_run : fired_before hourly 100 ≡ some 70
unfolding fired_before last_fire
fired_before_run = refl

fired_before-IsLastFire_example :
    (r : ℕ) × (fired_before hourly 100 ≡ some r) × IsLastFire (λ t. t + 60) (100 - 2 * 45) 100 r
fired_before-IsLastFire_example = fired_before-IsLastFire hourly 100 (λ t. omega arith)

-- The schedule of "large" is never found.
next_fire_after_shadows_example :
    (next_fire_after 100 (hourly ∷ large_hourly ∷ []) ≡ next_fire_after 100 (hourly ∷ []))
    × ((v : Armed) × (next_fire_after 100 (hourly ∷ large_hourly ∷ []) ≡ some v)
        × All (λ (x : Armed). v.next 100 ≤ x.next 100) (hourly ∷ large_hourly ∷ []))
next_fire_after_shadows_example = next_fire_after_shadows 100 [] [] [] hourly large_hourly refl

-- The window of `long` lasts until 80, `night` fires inside it and closes at 75: the pool is at the
-- baseline although `long` was to last on.
abbrev long : Entry
long = record night { name = "long"; duration = 80; hot_size = 9 }

abbrev overlapping : List Event
overlapping = fires long 0 ∷ fires night 30 ∷ expires "small" 75 ∷ []

handle_all-InForce_example :
    InForce (λ p. (2, 2)) "small" at_baseline (handle_all overlapping ([], []))
unfolding lookup
handle_all-InForce_example =
    handle_all-InForce (λ p. (2, 2)) "small" overlapping unset [] [] (refl, (refl, (tt, tt)))
      (refl, refl)
