-- ===== src/Config/Resolve.antt =====
-- resolveProfiles and resolveSchedules of internal/config/config.go. Whether a time zone loads and whether
-- a cron expression parses are arguments: the packages time and robfig/cron decide them.
use actions_runner_scaleset.Prelude.{
  Bool, true, not, ◌&&◌, Option, none, some, List, [], ◌∷◌, String, str_eq, contains, leb,
}
use actions_runner_scaleset.Prelude.Checks.{reject, ◌before◌, for_each}
use actions_runner_scaleset.Config.{ScheduleConfig, ProfileConfig, ScaleSetEntry}

pub data ResolveError : Type 0 where
  duplicate_schedule duration_not_positive bad_timezone bad_cron age_not_positive : ResolveError

-- What a loop that may fail has made.
pub data Outcome (A : Type 0) : Type 0 where
  done : A → Outcome A
  failed : ResolveError → Outcome A

abbrev pub and_then : {A B : Type 0} → Outcome A → (A → Outcome B) → Outcome B
and_then (done a) f = f a
and_then (failed e) f = failed e

unfoldable pub check_schedule :
    (String → Bool) → (String → Bool) → List String → ScheduleConfig → Option ResolveError
unfolding reject ◌before◌ contains
check_schedule loads parses seen s =
    reject (contains s.name seen) duplicate_schedule
    before reject (leb s.duration 0) duration_not_positive
    before reject (not (str_eq s.timezone "") && not (loads s.timezone)) bad_timezone
    before reject (not (parses s.cron)) bad_cron

-- resolveSchedules, with the names seen so far
unfoldable pub resolve_schedules :
    (String → Bool)
    → (String → Bool)
    → List String
    → List ScheduleConfig
    → Outcome (List ScheduleConfig)
unfolding check_schedule
resolve_schedules loads parses seen [] = done []
resolve_schedules loads parses seen (s ∷ rest) = elim (check_schedule loads parses seen s) [
  | some e ↦ failed e
  | none ↦
      and_then (resolve_schedules loads parses (s.name ∷ seen) rest)
        (λ out. done (record s { resolved = true } ∷ out))
]

-- The loop over `c.Profiles`.
unfoldable pub resolve_each :
    (String → Bool) → (String → Bool) → List ProfileConfig → Outcome (List ProfileConfig)
unfolding resolve_schedules
resolve_each loads parses [] = done []
resolve_each loads parses (p ∷ ps) =
    and_then (resolve_schedules loads parses [] p.schedules) (λ out.
      and_then (resolve_each loads parses ps) (λ rest. done (record p { schedules = out } ∷ rest)))

-- The check of `vm_max_age`.
unfoldable pub check_age : ProfileConfig → Option ResolveError
unfolding reject
check_age p = elim p.vm_max_age [ none ↦ none | some age ↦ reject (leb age 0) age_not_positive ]

-- resolveProfiles. `c.Profiles` is a copy of the profiles of the first scale set whose schedules are the
-- same slices, so that they are resolved in the first scale set.
unfoldable pub resolve_profiles :
    (String → Bool) → (String → Bool) → List ScaleSetEntry → Outcome (List ScaleSetEntry)
unfolding for_each check_age resolve_each
resolve_profiles loads parses scalesets =
    elim (for_each (λ (s : ScaleSetEntry). for_each check_age s.profiles) scalesets) [
      | some e ↦ failed e
      | none ↦ elim scalesets [
        | [] ↦ done []
        | s ∷ rest ↦
            and_then (resolve_each loads parses s.profiles)
              (λ ps. done (record s { profiles = ps } ∷ rest))
      ]
    ]
