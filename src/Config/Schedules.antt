-- ===== src/Config/Schedules.antt =====
-- scheduleRunnerForScaleset of internal/app/app.go after resolveProfiles of internal/config/config.go:
-- the runners of the schedules of each scale set.
use actions_runner_scaleset.Prelude.{
  ◌≡◌, ◌<◌, ◌↔◌, refl, subst, inl, inr, Bool, true, false, not, none, List, [], ◌∷◌, ◌++◌, map,
  String, str_eq, contains, leb, All, All-map, All-append, arith, Option-cases,
}
use actions_runner_scaleset.Prelude.Checks.{
  reject, for_each, for_each_iff, chain, rejects, before_iff,
}
use actions_runner_scaleset.Schedule.{
  Entry, profile_required, cron_required, duration_required, check_entry, new_runner,
}
use actions_runner_scaleset.Config.{ScheduleConfig, ProfileConfig, ScaleSetEntry, PoolConfig}
use actions_runner_scaleset.Config.Profiles.{or_size}
use actions_runner_scaleset.Config.Resolve.{
  Outcome, done, failed, and_then, check_schedule, resolve_schedules, resolve_each,
  resolve_profiles, duplicate_schedule, duration_not_positive, check_age,
}

-- The entry of one schedule of a profile.
abbrev pub entry_of : PoolConfig → ProfileConfig → ScheduleConfig → Entry
entry_of pool p s = record {
  name = s.name;
  profile = p.name;
  cron_set = s.resolved;
  duration = s.duration;
  hot_size = s.hot_size;
  warm_size = s.warm_size;
  baseline_hot = or_size p.hot_size pool.hot_size;
  baseline_warm = or_size p.warm_size pool.warm_size;
}

-- The entries of scheduleRunnerForScaleset.
unfoldable pub entries_of : PoolConfig → List ProfileConfig → List Entry
entries_of pool [] = []
entries_of pool (p ∷ ps) = map (entry_of pool p) p.schedules ++ entries_of pool ps

-- A schedule that NewRunner takes.
abbrev Ready : ScheduleConfig → Type 0
Ready s = (s.resolved ≡ true) × (0 < s.duration)

check_entry-Ready :
    (pool : PoolConfig) (p : ProfileConfig) (s : ScheduleConfig)
    → str_eq p.name "" ≡ false
    → Ready s
    → check_entry (entry_of pool p s) ≡ none
unfolding check_entry
check_entry-Ready pool p s n (r, d) =
    (chain {P = str_eq p.name "" ≡ false} {Q = Ready s} (rejects profile_required (λ h. h, λ h. h))
        (chain (rejects cron_required (ground arith)) (rejects duration_required (ground arith)))).1
      (n, (r, d))

-- What is made, if anything is, has the property.
abbrev Makes : {A : Type 0} → (A → Type 0) → Outcome A → Type 0
Makes P (done a) = P a
Makes P (failed e) = Unit {0}

Makes-and_then :
    {A B : Type 0} (P : A → Type 0) (Q : B → Type 0) (o : Outcome A) (f : A → Outcome B)
    → Makes P o
    → ((a : A) → P a → Makes Q (f a))
    → Makes Q (and_then o f)
Makes-and_then P Q (done a) f h k = k a h
Makes-and_then P Q (failed e) f h k = tt

checked_duration :
    (loads parses : String → Bool) (seen : List String) (s : ScheduleConfig)
    → check_schedule loads parses seen s ≡ none
    → 0 < s.duration
unfolding check_schedule
checked_duration loads parses seen s h =
    (rejects {P = 0 < s.duration} {b = leb s.duration 0} duration_not_positive (ground arith)).0
      ((before_iff _ _).0
        ((before_iff (reject (contains s.name seen) duplicate_schedule) _).0 h).1).0

resolve_schedules-Ready :
    (loads parses : String → Bool) (seen : List String) (l : List ScheduleConfig)
    → Makes (All Ready) (resolve_schedules loads parses seen l)
unfolding resolve_schedules
resolve_schedules-Ready loads parses seen [] = tt
resolve_schedules-Ready loads parses seen (s ∷ l) =
    elim (Option-cases (check_schedule loads parses seen s)) [
      | inl e ↦
          rw (resolve_schedules, e)
            (Makes-and_then (All Ready) (All Ready)
              (resolve_schedules loads parses (s.name ∷ seen) l)
              (λ out. done (record s { resolved = true } ∷ out))
              (resolve_schedules-Ready loads parses (s.name ∷ seen) l)
              (λ out h. ((refl, checked_duration loads parses seen s e), h)))
      | inr (q, e) ↦ rw (resolve_schedules, e) tt
    ]

abbrev pub Named : List ProfileConfig → Type 0
Named ps = All (λ (p : ProfileConfig). str_eq p.name "" ≡ false) ps

runner_iff : (es : List Entry) → (new_runner es ≡ none) ↔ All (λ e. check_entry e ≡ none) es
unfolding new_runner
runner_iff es = for_each_iff check_entry (λ e. (λ h. h, λ h. h)) es

All-entries :
    (pool : PoolConfig) (p : ProfileConfig) (l : List ScheduleConfig)
    → str_eq p.name "" ≡ false
    → All Ready l
    → All (λ e. check_entry e ≡ none) (map (entry_of pool p) l)
All-entries pool p [] n h = tt
All-entries pool p (s ∷ l) n h = (check_entry-Ready pool p s n h.0, All-entries pool p l n h.1)

resolve_each-Schedulable :
    (pool : PoolConfig) (loads parses : String → Bool) (ps : List ProfileConfig)
    → Named ps
    → Makes
        (λ out. All (λ e. check_entry e ≡ none) (entries_of pool out))
        (resolve_each loads parses ps)
unfolding resolve_each entries_of
resolve_each-Schedulable pool loads parses [] n = tt
resolve_each-Schedulable pool loads parses (p ∷ ps) n =
    Makes-and_then (All Ready) _ (resolve_schedules loads parses [] p.schedules) _
      (resolve_schedules-Ready loads parses [] p.schedules)
      (λ out h.
        Makes-and_then (λ rest. All (λ e. check_entry e ≡ none) (entries_of pool rest)) _
          (resolve_each loads parses ps) _ (resolve_each-Schedulable pool loads parses ps n.1)
          (λ rest k. All-append (λ e. check_entry e ≡ none) _ _ (All-entries pool p out n.0 h) k))

-- No schedule of the profiles is resolved.
abbrev pub IsFresh : ScaleSetEntry → Type 0
IsFresh t =
    All (λ (p : ProfileConfig). All (λ (s : ScheduleConfig). s.resolved ≡ false) p.schedules)
      t.profiles

unready :
    (pool : PoolConfig) (p : ProfileConfig) (s : ScheduleConfig)
    → check_entry (entry_of pool p s) ≡ none
    → s.resolved ≡ true
unfolding check_entry
unready pool p s h =
    (rejects {P = s.resolved ≡ true} {b = not s.resolved} cron_required (ground arith)).0
      ((before_iff (reject (not s.resolved) cron_required) _).0
        ((before_iff (reject (str_eq p.name "") profile_required) _).0 h).1).0

append_refused :
    (pool : PoolConfig) (p : ProfileConfig) (l : List ScheduleConfig) (es : List Entry)
    → All (λ (s : ScheduleConfig). s.resolved ≡ false) l
    → (new_runner es ≡ none) ↔ (es ≡ [])
    → (new_runner (map (entry_of pool p) l ++ es) ≡ none) ↔ (map (entry_of pool p) l ++ es ≡ [])
append_refused pool p [] es h f = f
append_refused pool p (s ∷ l) es h f = (
  λ e. absurd (
      cc (
        h.0,
        unready pool p s ((runner_iff (entry_of pool p s ∷ (map (entry_of pool p) l ++ es))).0 e).0,
      )),
  λ e. absurd (cc e),
)

fresh_refused :
    (pool : PoolConfig) (ps : List ProfileConfig)
    → All (λ (p : ProfileConfig). All (λ (s : ScheduleConfig). s.resolved ≡ false) p.schedules) ps
    → (new_runner (entries_of pool ps) ≡ none) ↔ (entries_of pool ps ≡ [])
unfolding entries_of new_runner for_each
fresh_refused pool [] h = (λ e. refl, λ e. refl)
fresh_refused pool (p ∷ ps) h =
    append_refused pool p p.schedules (entries_of pool ps) h.0 (fresh_refused pool ps h.1)

-- What resolveProfiles leaves of scale sets after the first.
abbrev pub FirstScheduled : PoolConfig → List ScaleSetEntry → List ScaleSetEntry → Type 0
FirstScheduled pool rest [] = ⊥
FirstScheduled pool rest (s ∷ out) =
    (new_runner (entries_of pool s.profiles) ≡ none)
    × (out ≡ rest)
    × All
        (λ (t : ScaleSetEntry).
          (new_runner (entries_of pool t.profiles) ≡ none) ↔ (entries_of pool t.profiles ≡ []))
        out

resolved-FirstScheduled :
    (pool : PoolConfig) (loads parses : String → Bool) (s : ScaleSetEntry)
    (rest : List ScaleSetEntry)
    → Named s.profiles
    → All IsFresh rest
    → Makes (FirstScheduled pool rest) (resolve_profiles loads parses (s ∷ rest))
unfolding resolve_profiles
resolved-FirstScheduled pool loads parses s rest n f =
    elim (Option-cases
      (for_each (λ (s : ScaleSetEntry). for_each check_age s.profiles) (s ∷ rest))) [
        | inl e ↦
            rw (resolve_profiles, e)
              (Makes-and_then (λ out. All (λ e. check_entry e ≡ none) (entries_of pool out))
                (FirstScheduled pool rest) (resolve_each loads parses s.profiles)
                (λ ps. done (record s { profiles = ps } ∷ rest))
                (resolve_each-Schedulable pool loads parses s.profiles n)
                (λ ps h. (
                  (runner_iff (entries_of pool ps)).1 h,
                  refl,
                  All-map rest (λ t k. fresh_refused pool t.profiles k) f,
                )))
        | inr (q, e) ↦ rw (resolve_profiles, e) tt
      ]

-- When resolveProfiles succeeds on scale sets whose schedules are as they were read, the schedule runner of
-- the first scale set can be built if its profiles have names; the other scale sets are unchanged, and
-- the runner of each of them is refused as soon as one of its profiles has a schedule.
pub resolve_profiles-FirstScheduled :
    (pool : PoolConfig) (loads parses : String → Bool) (s : ScaleSetEntry)
    (rest out : List ScaleSetEntry)
    → Named s.profiles
    → All IsFresh rest
    → resolve_profiles loads parses (s ∷ rest) ≡ done out
    → FirstScheduled pool rest out
resolve_profiles-FirstScheduled pool loads parses s rest out n f h =
    subst (Makes (FirstScheduled pool rest)) h
      (resolved-FirstScheduled pool loads parses s rest n f)
