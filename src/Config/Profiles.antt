-- ===== src/Config/Profiles.antt =====
-- validateProfiles, validateProfileLabels and validateProfileFootprint of internal/config/config.go.
use actions_runner_scaleset.Prelude.{
  ℕ, ◌+◌, ◌==◌, Bool, true, false, not, ◌&&◌, ◌||◌, Option, none, some, List, [], ◌∷◌, String,
  contains, filter, length, leb, ltb, if◌then◌else◌,
}
use actions_runner_scaleset.Prelude.Runes.{Runes, codes}
use actions_runner_scaleset.Prelude.Checks.{reject, ◌before◌, for_each}
use actions_runner_scaleset.Config.{ProfileConfig, ScaleSetEntry, ScheduleConfig, PoolConfig}

pub data ProfileError : Type 0 where
  no_profiles bad_name duplicate_name extra_labels missing_labels : ProfileError
  memory_required cpu_required cap_required attempts_below_one : ProfileError
  spares_over_cap schedule_over_cap caps_over_global_max : ProfileError

-- profileNameRE, `^[a-z0-9][a-z0-9-]{0,62}$`
abbrev is_name_start : ℕ → Bool
is_name_start c = (leb 97 c && leb c 122) || (leb 48 c && leb c 57)

unfoldable all_name_runes : Runes → Bool
all_name_runes [] = true
all_name_runes (c ∷ cs) = (is_name_start c || c == 45) && all_name_runes cs

unfoldable pub is_profile_name : Runes → Bool
unfolding all_name_runes
is_profile_name [] = false
is_profile_name (c ∷ cs) = is_name_start c && all_name_runes cs && leb (length cs) 62

-- derefIntDefault
abbrev pub or_size : Option ℕ → ℕ → ℕ
or_size none d = d
or_size (some n) d = n

-- labelsNotIn
unfoldable pub labels_not_in : List String → List String → List String
unfolding filter contains
labels_not_in want have = filter (λ l. not (contains l have)) want

unfoldable pub validate_profile_labels : ScaleSetEntry → ProfileConfig → Option ProfileError
unfolding labels_not_in reject ◌before◌
validate_profile_labels s p =
    reject (ltb 0 (length (labels_not_in p.labels s.labels))) extra_labels
    before reject (ltb 0 (length (labels_not_in s.labels p.labels))) missing_labels

unfoldable pub validate_profile_footprint : PoolConfig → ProfileConfig → Option ProfileError
unfolding reject ◌before◌
validate_profile_footprint pool p =
    if not pool.capacity_enabled
    then none
    else reject (leb p.memory_mb 0) memory_required
      before reject (pool.overcommit_set && leb p.cpu_cores 0) cpu_required

-- The cap of a profile; 0 is no cap.
abbrev pub cap_of : ScaleSetEntry → ProfileConfig → ℕ
cap_of s p = or_size p.max_concurrent_runners s.max_concurrent_runners

-- `p.BootMaxAttempts != nil && *p.BootMaxAttempts < 1`
abbrev pub attempts_refused : Option ℕ → Bool
attempts_refused none = false
attempts_refused (some n) = ltb n 1

-- The checks of a profile that has a cap.
unfoldable pub check_sizes : PoolConfig → ProfileConfig → ℕ → Option ProfileError
unfolding reject ◌before◌ for_each
check_sizes pool p cap =
    if leb cap 0
    then none
    else reject (ltb cap (or_size p.hot_size pool.hot_size + or_size p.warm_size pool.warm_size))
        spares_over_cap
      before for_each
          (λ (d : ScheduleConfig). reject (ltb cap (d.hot_size + d.warm_size)) schedule_over_cap)
          p.schedules

-- The checks of one profile, with the names seen so far in its scale set.
unfoldable pub check_profile :
    PoolConfig → ScaleSetEntry → List String → ProfileConfig → Option ProfileError
unfolding is_profile_name contains validate_profile_labels validate_profile_footprint check_sizes
    reject ◌before◌
check_profile pool s seen p =
    reject (not (is_profile_name (codes p.name))) bad_name
    before reject (contains p.name seen) duplicate_name
    before validate_profile_labels s p
    before validate_profile_footprint pool p
    before reject (leb (cap_of s p) 0 && not pool.capacity_enabled) cap_required
    before reject (attempts_refused p.boot_max_attempts) attempts_below_one
    before check_sizes pool p (cap_of s p)

-- The loop over the profiles of a scale set.
unfoldable pub check_profiles :
    PoolConfig → ScaleSetEntry → List String → List ProfileConfig → Option ProfileError
unfolding check_profile ◌before◌
check_profiles pool s seen [] = none
check_profiles pool s seen (p ∷ ps) =
    check_profile pool s seen p before check_profiles pool s (p.name ∷ seen) ps

-- The loop over the scale sets.
unfoldable pub check_all_profiles : PoolConfig → List ScaleSetEntry → Option ProfileError
unfolding for_each check_profiles reject ◌before◌
check_all_profiles pool =
    for_each
      (λ s. reject (length s.profiles == 0) no_profiles before check_profiles pool s [] s.profiles)

-- `sumMax` and `anyUnlimited` after the loops.
unfoldable pub sum_caps : ScaleSetEntry → List ProfileConfig → ℕ
sum_caps s [] = 0
sum_caps s (p ∷ ps) = cap_of s p + sum_caps s ps

unfoldable pub sum_max : List ScaleSetEntry → ℕ
unfolding sum_caps
sum_max [] = 0
sum_max (s ∷ rest) = sum_caps s s.profiles + sum_max rest

unfoldable pub some_unlimited : ScaleSetEntry → List ProfileConfig → Bool
some_unlimited s [] = false
some_unlimited s (p ∷ ps) = leb (cap_of s p) 0 || some_unlimited s ps

unfoldable pub any_unlimited : List ScaleSetEntry → Bool
unfolding some_unlimited
any_unlimited [] = false
any_unlimited (s ∷ rest) = some_unlimited s s.profiles || any_unlimited rest

-- validateProfiles
unfoldable pub validate_profiles : PoolConfig → List ScaleSetEntry → Option ProfileError
unfolding check_all_profiles sum_max any_unlimited reject ◌before◌
validate_profiles pool scalesets =
    check_all_profiles pool scalesets
    before reject
        (ltb 0 pool.global_max
          && not (any_unlimited scalesets)
          && ltb pool.global_max (sum_max scalesets))
        caps_over_global_max
