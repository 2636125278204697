-- ===== src/Config/Caps.antt =====
-- What validateProfiles of internal/config/config.go accepts.
use actions_runner_scaleset.Prelude.{
  ℕ, ◌+◌, ◌==◌, ◌≡◌, ◌≢◌, ◌↔◌, ◌⊎◌, ◌≤◌, ◌<◌, refl, true, false, not, none, List, [], ◌∷◌, String,
  contains, contains_iff, filter, length, leb, ltb, map, All, All-map, In, arith,
}
use actions_runner_scaleset.Prelude.Runes.{codes}
use actions_runner_scaleset.Prelude.Checks.{
  reject, ◌before◌, chain, rejects, skip_iff, for_each_iff, absent_iff, All-zip, Pairwise,
}
use actions_runner_scaleset.Config.{ProfileConfig, ScaleSetEntry, ScheduleConfig, PoolConfig}
use actions_runner_scaleset.Config.Profiles.{
  no_profiles, bad_name, duplicate_name, extra_labels, missing_labels, memory_required,
  cpu_required, cap_required, attempts_below_one, spares_over_cap, schedule_over_cap,
  caps_over_global_max, is_profile_name, or_size, labels_not_in, validate_profile_labels,
  validate_profile_footprint, cap_of, attempts_refused, check_sizes, check_profile, check_profiles,
  check_all_profiles, sum_max, any_unlimited, validate_profiles,
}

-- The same labels as the scale set.
abbrev pub SameLabels : ScaleSetEntry → ProfileConfig → Type 0
SameLabels s p = All (λ l. In l s.labels) p.labels × All (λ l. In l p.labels) s.labels

-- A shape that capacity admission, if it is on, can size.
abbrev pub IsSizable : PoolConfig → ProfileConfig → Type 0
IsSizable pool p =
    (pool.capacity_enabled ≡ false)
    ⊎ ((0 < p.memory_mb) × ((pool.overcommit_set ≡ false) ⊎ (0 < p.cpu_cores)))

-- Spare sizes and schedules within the cap, if there is one.
abbrev pub SizesFit : PoolConfig → ProfileConfig → ℕ → Type 0
SizesFit pool p cap =
    (cap ≡ 0)
    ⊎ ((or_size p.hot_size pool.hot_size + or_size p.warm_size pool.warm_size ≤ cap)
        × All (λ (d : ScheduleConfig). d.hot_size + d.warm_size ≤ cap) p.schedules)

abbrev pub ProfileSound : PoolConfig → ScaleSetEntry → ProfileConfig → Type 0
ProfileSound pool s p =
    (is_profile_name (codes p.name) ≡ true)
    × SameLabels s p
    × IsSizable pool p
    × ((0 < cap_of s p) ⊎ (pool.capacity_enabled ≡ true))
    × (attempts_refused p.boot_max_attempts ≡ false)
    × SizesFit pool p (cap_of s p)

labels_not_in_iff :
    (want have : List String)
    → (ltb 0 (length (labels_not_in want have)) ≡ false) ↔ All (λ l. In l have) want
unfolding labels_not_in filter
labels_not_in_iff [] have = (λ h. tt, λ h. refl)
labels_not_in_iff (l ∷ ls) have = ground (arith, contains_iff l have, labels_not_in_iff ls have)

labels_iff :
    (s : ScaleSetEntry) (p : ProfileConfig) → (validate_profile_labels s p ≡ none) ↔ SameLabels s p
unfolding validate_profile_labels
labels_iff s p =
    chain (rejects extra_labels (labels_not_in_iff p.labels s.labels))
      (rejects missing_labels (labels_not_in_iff s.labels p.labels))

footprint_iff :
    (pool : PoolConfig) (p : ProfileConfig)
    → (validate_profile_footprint pool p ≡ none) ↔ IsSizable pool p
unfolding validate_profile_footprint
footprint_iff pool p = skip_iff (not pool.capacity_enabled) (ground arith) (
    chain {P = 0 < p.memory_mb} {Q = (pool.overcommit_set ≡ false) ⊎ (0 < p.cpu_cores)}
      (rejects memory_required (ground arith)) (rejects cpu_required (ground arith)))

sizes_iff :
    (pool : PoolConfig) (p : ProfileConfig) (cap : ℕ)
    → (check_sizes pool p cap ≡ none) ↔ SizesFit pool p cap
unfolding check_sizes
sizes_iff pool p cap = skip_iff (leb cap 0) (ground arith) (
    chain {P = or_size p.hot_size pool.hot_size + or_size p.warm_size pool.warm_size ≤ cap}
      (rejects spares_over_cap (ground arith))
      (for_each_iff _
        (λ (d : ScheduleConfig).
          rejects {P = d.hot_size + d.warm_size ≤ cap} schedule_over_cap (ground arith))
        p.schedules))

module _ (pool : PoolConfig) (s : ScaleSetEntry) where
  profile_iff :
      (seen : List ProfileConfig) (p : ProfileConfig)
      → (check_profile pool s (map (λ (q : ProfileConfig). q.name) seen) p ≡ none)
        ↔ (ProfileSound pool s p × All (λ (q : ProfileConfig). q.name ≢ p.name) seen)
  unfolding check_profile
  profile_iff seen p =
      let c = chain {P = is_profile_name (codes p.name) ≡ true} (rejects bad_name (ground arith)) (
        chain
          (rejects duplicate_name
            (absent_iff contains contains_iff (λ (q : ProfileConfig). q.name) p.name seen))
          (chain (labels_iff s p) (
            chain (footprint_iff pool p) (
              chain {P = (0 < cap_of s p) ⊎ (pool.capacity_enabled ≡ true)}
                (rejects cap_required (ground arith))
                (chain (rejects attempts_below_one (λ h. h, λ h. h))
                  (sizes_iff pool p (cap_of s p))))))) in
      (
        λ h. (let (n, (d, (l, (f, (k, (a, z)))))) = c.0 h in ((n, l, f, k, a, z), d)),
        λ ((n, l, f, k, a, z), d). c.1 (n, (d, (l, (f, (k, (a, z)))))),
      )

  profiles_iff :
      (seen ps : List ProfileConfig)
      → (check_profiles pool s (map (λ (q : ProfileConfig). q.name) seen) ps ≡ none) ↔ (
          All (λ p. ProfileSound pool s p × All (λ (q : ProfileConfig). q.name ≢ p.name) seen) ps
          × Pairwise (λ (p : ProfileConfig) (q : ProfileConfig). p.name ≢ q.name) ps)
  unfolding check_profiles
  profiles_iff seen [] = (λ h. (tt, tt), λ h. refl)
  profiles_iff seen (p ∷ ps) =
      let c = chain (profile_iff seen p) (profiles_iff (p ∷ seen) ps) in
      (
        λ h.
            (let (here, (later, d)) = c.0 h in
              (
                (here, All-map ps (λ x (ok, (n, ns)). (ok, ns)) later),
                (All-map ps (λ x (ok, (n, ns)). n) later, d),
              )),
        λ ((here, later), (differ, d)).
            c.1 (here, (All-zip ps (λ x (ok, ns) n. (ok, (n, ns))) later differ, d)),
      )

-- The profiles of a scale set: at least one, each sound, no name twice.
abbrev pub ScaleSetSound : PoolConfig → ScaleSetEntry → Type 0
ScaleSetSound pool s =
    (0 < length s.profiles)
    × (All (ProfileSound pool s) s.profiles
        × Pairwise (λ (p : ProfileConfig) (q : ProfileConfig). p.name ≢ q.name) s.profiles)

scaleset_iff :
    (pool : PoolConfig) (s : ScaleSetEntry)
    → ((reject (length s.profiles == 0) no_profiles before check_profiles pool s [] s.profiles)
        ≡ none)
      ↔ ScaleSetSound pool s
scaleset_iff pool s =
    let f = profiles_iff pool s [] s.profiles in
    chain (rejects no_profiles (ground arith)) (
      λ e. (let (a, d) = f.0 e in (All-map s.profiles (λ p (ok, n). ok) a, d)),
      λ (a, d). f.1 (All-map s.profiles (λ p ok. (ok, tt)) a, d),
    )

-- validateProfiles accepts exactly the scale sets with at least one profile each, where every profile
-- has a legal name that no other of its scale set has, the labels of its scale set, a shape that
-- capacity admission can size if it is on, a cap unless capacity admission is on, at least one boot
-- attempt, and spare sizes and schedules within its cap if it has one; and where the caps add up to at
-- most pool.global_max, unless that is not set or some profile has no cap.
pub validate_profiles_iff :
    (pool : PoolConfig) (scalesets : List ScaleSetEntry)
    → (validate_profiles pool scalesets ≡ none) ↔ (
        All (ScaleSetSound pool) scalesets
        × ((pool.global_max ≡ 0)
            ⊎ (any_unlimited scalesets ≡ true)
            ⊎ (sum_max scalesets ≤ pool.global_max)))
unfolding validate_profiles check_all_profiles
validate_profiles_iff pool scalesets =
    chain (for_each_iff _ (scaleset_iff pool) scalesets)
      (rejects caps_over_global_max (ground arith))
