-- ===== src/Config.antt =====
-- internal/config/config.go: the checks of a loaded configuration. Sizes and VMIDs are natural numbers,
-- which validateStruct, the tags of a third-party validator, leaves only; a pointer that may be nil is
-- an option. An error is a constructor without the names and indices of its text.
mod Apart
mod Owners
pub mod Profiles
pub mod Fields
mod Caps
mod Routing
mod Downstream
mod Names
pub mod Defaults
pub mod Resolve
mod Schedules
mod Startup
mod Examples
use actions_runner_scaleset.Prelude.{
  ℕ, ◌+◌, ◌==◌, Bool, true, false, not, ◌&&◌, ◌||◌, Option, none, some, List, [], ◌∷◌, ◌++◌, String,
  str_eq, contains, leb, ltb, length,
}
use actions_runner_scaleset.Prelude.Runes.{Runes, codes, contains_runes}
use actions_runner_scaleset.Prelude.Checks.{reject, ◌before◌, for_each}
use actions_runner_scaleset.Tags.{owner_tag}

pub record Scope : Type 0 where
  pub org : String
  pub repo : String

-- VMIDRange
pub record Range : Type 0 where
  pub min : ℕ
  pub max : ℕ

-- A schedule; `resolved` says that its location and its cron schedule are set.
pub record ScheduleConfig : Type 0 where
  pub name : String
  pub cron : String
  pub timezone : String
  pub duration : ℕ
  pub hot_size : ℕ
  pub warm_size : ℕ
  pub resolved : Bool

-- ExtraNICConfig, and the bridge, tag and MTU of a network
pub record Nic : Type 0 where
  pub bridge : String
  pub vlan_tag : ℕ
  pub vlan_untagged : Bool
  pub mtu : ℕ

pub record IpamConfig : Type 0 where
  pub backend : String
  pub pool : List String

pub record NetworkConfig : Type 0 where
  pub nic : Nic
  pub extra_nics : List Nic
  pub ipam : Option IpamConfig

-- The failure rate of a canary is a float64, here
-- whether it is above 0; `vm_max_age` is none if it is not set.
pub record ProfileConfig : Type 0 where
  pub name : String
  pub labels : List String
  pub template_vmid : ℕ
  pub hot_size : Option ℕ
  pub warm_size : Option ℕ
  pub max_concurrent_runners : Option ℕ
  pub boot_max_attempts : Option ℕ
  pub cpu_cores : ℕ
  pub memory_mb : ℕ
  pub disk_gb : ℕ
  pub storage : String
  pub canary_template_vmid : ℕ
  pub canary_percent : ℕ
  pub failure_rate_set : Bool
  pub network : Option NetworkConfig
  pub vm_max_age : Option ℕ
  pub schedules : List ScheduleConfig

pub record ScaleSetEntry : Type 0 where
  pub name : String
  pub labels : List String
  pub runner_group : String
  pub max_concurrent_runners : ℕ
  pub scope : Scope
  pub vmid_range : Option Range
  pub profiles : List ProfileConfig

-- PoolConfig with its capacity block.
pub record PoolConfig : Type 0 where
  pub hot_size : ℕ
  pub warm_size : ℕ
  pub global_max : ℕ
  pub boot_max_attempts : ℕ
  pub vm_max_age : Option ℕ
  pub schedules : List ScheduleConfig
  pub capacity_enabled : Bool
  pub overcommit_set : Bool

pub data ConfigError : Type 0 where
  sizes_over_cap template_in_range no_scalesets : ConfigError
  duplicate_scaleset bad_scaleset_name owner_tag_collision : ConfigError
  scope_both scope_neither shared_scope : ConfigError
  cap_required range_required range_min range_max ranges_overlap : ConfigError

-- validateSizing, with the cap of the `scaleset` block
unfoldable pub validate_sizing :
    PoolConfig → List ScaleSetEntry → ℕ → ℕ → Range → Option ConfigError
unfolding reject ◌before◌
validate_sizing pool scalesets scaleset_max template_vmid range =
    reject
      (length scalesets == 1
        && ltb 0 scaleset_max
        && ltb scaleset_max (pool.hot_size + pool.warm_size))
      sizes_over_cap
    before reject (leb range.min template_vmid && leb template_vmid range.max) template_in_range

-- The scope as one text, the key of `seenScope`.
abbrev pub scope_key : Scope → Runes
scope_key s = codes "org:" ++ codes s.org ++ codes "|repo:" ++ codes s.repo

abbrev pub is_set : String → Bool
is_set s = not (str_eq s "")

-- The checks of one entry beside those for duplicates.
unfoldable pub check_scope : Scope → Option ConfigError
unfolding reject ◌before◌
check_scope s =
    reject (is_set s.org && is_set s.repo) scope_both
    before reject (not (is_set s.org) && not (is_set s.repo)) scope_neither

unfoldable pub check_cap : PoolConfig → ScaleSetEntry → Option ConfigError
unfolding reject ◌before◌
check_cap pool s =
    reject (leb s.max_concurrent_runners 0 && not pool.capacity_enabled) cap_required
    before reject
        (ltb 0 s.max_concurrent_runners
          && ltb s.max_concurrent_runners (pool.hot_size + pool.warm_size))
        sizes_over_cap

-- The checks of one entry, with the names, owner tags and scopes seen so far, before those of the rest.
unfoldable pub check_entry :
    PoolConfig
    → List String
    → List Runes
    → List Runes
    → ScaleSetEntry
    → (Runes → Option ConfigError)
    → Option ConfigError
unfolding reject ◌before◌ contains_runes contains
check_entry pool names tags scopes s rest =
    reject (contains s.name names) duplicate_scaleset before elim (owner_tag (codes s.name)) [
      | none ↦ some bad_scaleset_name
      | some tag ↦
          reject (contains_runes tag tags) owner_tag_collision
          before check_scope s.scope
          before reject (contains_runes (scope_key s.scope) scopes) shared_scope
          before check_cap pool s
          before rest tag
    ]

-- The loop of validateScalesets.
unfoldable pub check_scalesets :
    PoolConfig → List String → List Runes → List Runes → List ScaleSetEntry → Option ConfigError
unfolding check_entry
check_scalesets pool names tags scopes [] = none
check_scalesets pool names tags scopes (s ∷ rest) =
    check_entry pool names tags scopes s
      (λ tag. check_scalesets pool (s.name ∷ names) (tag ∷ tags) (scope_key s.scope ∷ scopes) rest)

-- The declared ranges, or the error of the first loop of validateScalesetVMIDRanges.
unfoldable pub check_range : Bool → Option Range → Option ConfigError
unfolding reject ◌before◌
check_range many none = reject many range_required
check_range many (some r) = reject (leb r.min 0) range_min before reject (leb r.max r.min) range_max

abbrev pub declared : List ScaleSetEntry → List Range
declared [] = []
declared (s ∷ rest) = elim s.vmid_range [ none ↦ declared rest | some r ↦ r ∷ declared rest ]

abbrev pub disjoint : Range → Range → Bool
disjoint a b = ltb a.max b.min || ltb b.max a.min

unfoldable pub check_overlaps : List Range → Option ConfigError
unfolding for_each reject ◌before◌
check_overlaps [] = none
check_overlaps (a ∷ rest) =
    for_each (λ b. reject (not (disjoint a b)) ranges_overlap) rest before check_overlaps rest

-- validateScalesetVMIDRanges
unfoldable pub validate_scaleset_vmid_ranges : List ScaleSetEntry → Option ConfigError
unfolding check_range check_overlaps for_each
validate_scaleset_vmid_ranges scalesets =
    for_each (λ s. check_range (ltb 1 (length scalesets)) s.vmid_range) scalesets
    before check_overlaps (declared scalesets)

-- validateScalesets
unfoldable pub validate_scalesets : PoolConfig → List ScaleSetEntry → Option ConfigError
unfolding check_scalesets validate_scaleset_vmid_ranges
validate_scalesets pool scalesets =
    reject (length scalesets == 0) no_scalesets
    before check_scalesets pool [] [] [] scalesets
    before validate_scaleset_vmid_ranges scalesets
