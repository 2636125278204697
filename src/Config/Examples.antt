-- ===== src/Config/Examples.antt =====
-- Runs and instances of the theorems on internal/config/config.go: two scale sets, "linux" with a
-- profile that has a schedule and "gpu" with one that has a schedule as well.
use actions_runner_scaleset.Prelude.{
  ◌≡◌, ◌↔◌, ◌⊎◌, ◌<◌, ◌≤◌, refl, inl, true, false, none, some, List, [], ◌∷◌, All, arith, contains,
  map, if◌then◌else◌,
}
use actions_runner_scaleset.Prelude.Runes.{Runes, codes, runes_eq, contains_runes}
use actions_runner_scaleset.Prelude.Int.{pos}
use actions_runner_scaleset.Prelude.Checks.{reject, ◌before◌, for_each}
use actions_runner_scaleset.Tags.{
  owner_tag, profile_tag, template_tag, initial, encode, is_owned_by, is_scale_set_name, sanitize,
}
use actions_runner_scaleset.Quotas.{validate as validate_quota_config}
use actions_runner_scaleset.Priority.{check_classes, zero_class}
use actions_runner_scaleset.Router.{check_profiles, normalise, route, contains_all}
use actions_runner_scaleset.Config.{
  ScheduleConfig, ProfileConfig, ScaleSetEntry, PoolConfig, validate_sizing, check_scope, check_cap,
  check_entry, check_scalesets, check_range, check_overlaps, validate_scaleset_vmid_ranges,
  validate_scalesets,
}
use actions_runner_scaleset.Config.Owners.{owners_exclusive}
use actions_runner_scaleset.Config.Profiles.{
  validate_profiles, is_profile_name, labels_not_in, validate_profile_labels,
  validate_profile_footprint, check_sizes, check_profile, check_profiles as check_profile_list,
  check_all_profiles, sum_caps, sum_max, some_unlimited, any_unlimited,
}
use actions_runner_scaleset.Config.Fields.{
  validate_quotas, validate_priority, validate_node_affinity, known_profiles,
  validate_profile_networks, validate_profile_canaries, check_canary,
}
use actions_runner_scaleset.Config.Caps.{ScaleSetSound, validate_profiles_iff}
use actions_runner_scaleset.Config.Routing.{router_profiles, routes_to_first}
use actions_runner_scaleset.Config.Defaults.{
  Normalized, normalize_scalesets, fold_legacy, normalize_entry, inherit_all, inherit,
}
use actions_runner_scaleset.Config.Resolve.{
  resolve_profiles, resolve_each, resolve_schedules, check_schedule, check_age,
}
use actions_runner_scaleset.Config.Schedules.{FirstScheduled, resolve_profiles-FirstScheduled}
use actions_runner_scaleset.Config.Startup.{Config, validate, relabel, accepted_starts}

abbrev nightly : ScheduleConfig
nightly = record {
  name = "nightly";
  cron = "0 22 * * *";
  timezone = "";
  duration = 3600;
  hot_size = 0;
  warm_size = 1;
  resolved = false;
}

abbrev plain : ProfileConfig
plain = record {
  name = "default";
  labels = "self-hosted" ∷ [];
  template_vmid = 0;
  hot_size = some 1;
  warm_size = some 1;
  max_concurrent_runners = none;
  boot_max_attempts = some 3;
  cpu_cores = 2;
  memory_mb = 4096;
  disk_gb = 0;
  storage = "";
  canary_template_vmid = 0;
  canary_percent = 0;
  failure_rate_set = false;
  network = none;
  vm_max_age = none;
  schedules = nightly ∷ [];
}

abbrev linux : ScaleSetEntry
linux = record {
  name = "linux";
  labels = "self-hosted" ∷ [];
  runner_group = "";
  max_concurrent_runners = 4;
  scope = record { org = "acme"; repo = "" };
  vmid_range = some (record { min = 200; max = 299 });
  profiles = plain ∷ [];
}

abbrev gpu : ScaleSetEntry
gpu = record linux {
  name = "gpu";
  scope = record { org = ""; repo = "acme/models" };
  vmid_range = some (record { min = 300; max = 399 });
}

abbrev pool : PoolConfig
pool = record {
  hot_size = 1;
  warm_size = 1;
  global_max = 8;
  boot_max_attempts = 3;
  vm_max_age = none;
  schedules = [];
  capacity_enabled = false;
  overcommit_set = false;
}

accepted : validate_scalesets pool (linux ∷ gpu ∷ []) ≡ none
unfolding validate_scalesets check_scalesets check_entry validate_scaleset_vmid_ranges
    check_overlaps check_range check_cap check_scope owner_tag is_scale_set_name sanitize reject
    ◌before◌ for_each contains contains_runes runes_eq
accepted = refl

-- "Linux" and "linux" have one owner tag.
collision : validate_scalesets pool (linux ∷ record gpu { name = "Linux" } ∷ []) ≡ none → ⊥
unfolding validate_scalesets check_scalesets check_entry validate_scaleset_vmid_ranges
    check_overlaps check_range check_cap check_scope owner_tag is_scale_set_name sanitize reject
    ◌before◌ for_each contains contains_runes runes_eq
collision h = cc h

profiles_accepted : validate_profiles pool (linux ∷ gpu ∷ []) ≡ none
unfolding validate_profiles check_all_profiles check_profile_list check_profile
    validate_profile_labels labels_not_in validate_profile_footprint check_sizes sum_max sum_caps
    any_unlimited some_unlimited is_profile_name reject ◌before◌ for_each contains
profiles_accepted = refl

-- A template with a VMID in the range of "linux", which only the shared range is checked for.
template_in_own_range :
    validate_sizing pool (linux ∷ gpu ∷ []) 0 250 (record { min = 9000; max = 9999 }) ≡ none
unfolding validate_sizing reject ◌before◌
template_in_own_range = refl

abbrev linux_tags : List Runes
linux_tags =
    codes "gh-scaleset"
    ∷ codes "gh-scaleset-owner-linux"
    ∷ codes "gh-scaleset-profile-default"
    ∷ codes "gh-scaleset-template-stable"
    ∷ []

abbrev gpu_tags : List Runes
gpu_tags =
    codes "gh-scaleset"
    ∷ codes "gh-scaleset-owner-gpu"
    ∷ codes "gh-scaleset-profile-default"
    ∷ codes "gh-scaleset-template-stable"
    ∷ []

owners_exclusive_example :
    (is_owned_by (encode linux_tags) (codes "gpu") ≡ false)
    × (is_owned_by (encode gpu_tags) (codes "linux") ≡ false)
    × ((250 < 300) ⊎ (399 < 250))
unfolding initial owner_tag profile_tag template_tag sanitize is_scale_set_name
owners_exclusive_example =
    owners_exclusive pool [] [] [] linux gpu (codes "default") [] linux_tags gpu_tags
      (record { min = 200; max = 299 }) (record { min = 300; max = 399 }) 250 accepted refl refl
      refl refl (omega arith) (omega arith)

validate_profiles_iff_example : (validate_profiles pool (linux ∷ gpu ∷ []) ≡ none) ↔ (
    All (ScaleSetSound pool) (linux ∷ gpu ∷ [])
    × ((pool.global_max ≡ 0)
        ⊎ (any_unlimited (linux ∷ gpu ∷ []) ≡ true)
        ⊎ (sum_max (linux ∷ gpu ∷ []) ≤ pool.global_max)))
validate_profiles_iff_example = validate_profiles_iff pool (linux ∷ gpu ∷ [])

routes_to_first_example :
    (check_profiles [] (router_profiles linux.profiles) ≡ none)
    × (route (normalise (router_profiles linux.profiles)) ("self-hosted" ∷ [])
        ≡ (if contains_all linux.labels ("self-hosted" ∷ []) then some "default" else none))
routes_to_first_example =
    routes_to_first pool (linux ∷ gpu ∷ []) linux plain [] ("self-hosted" ∷ []) profiles_accepted
      (inl refl) refl

-- The legacy form, with a profile that sets nothing.
abbrev legacy : Normalized
legacy = record {
  legacy = record {
    name = "linux";
    labels = "self-hosted" ∷ [];
    runner_group = "";
    max_concurrent_runners = 4;
    scope = record { org = "acme"; repo = "" };
    profiles = record plain { hot_size = none; max_concurrent_runners = none } ∷ [];
  };
  scalesets = [];
}

abbrev scheduled : List ScaleSetEntry
scheduled =
    record linux {
      profiles = record plain { schedules = record nightly { resolved = true } ∷ [] } ∷ [];
    }
    ∷ gpu
    ∷ []

-- The schedule of "gpu" is not resolved, so that its runner is refused.
resolve_profiles-FirstScheduled_example : FirstScheduled pool (gpu ∷ []) scheduled
unfolding resolve_profiles resolve_each resolve_schedules check_schedule check_age reject ◌before◌
    for_each contains
resolve_profiles-FirstScheduled_example =
    resolve_profiles-FirstScheduled pool (λ zone. true) (λ cron. true) linux (gpu ∷ []) scheduled
      (refl, tt) (((refl, tt), tt), tt) refl

abbrev both : Config
both = record {
  pool = pool;
  scaleset_max = 0;
  template_vmid = 250;
  vmid_range = record { min = 9000; max = 9999 };
  scalesets = linux ∷ gpu ∷ [];
  nodes = record { members = "pve1" ∷ []; single_node = ""; affinity = [] };
  quotas = record { default_per_repo = pos 2; default_per_org = pos 5; overrides = [] };
  classes = zero_class ∷ [];
}

both_accepted : validate none none none both ≡ none
unfolding validate relabel validate_sizing validate_scalesets check_scalesets check_entry
    validate_scaleset_vmid_ranges check_overlaps check_range check_cap check_scope owner_tag
    is_scale_set_name sanitize reject ◌before◌ for_each contains contains_runes runes_eq
    validate_profiles check_all_profiles check_profile_list check_profile validate_profile_labels
    labels_not_in validate_profile_footprint check_sizes sum_max sum_caps any_unlimited
    some_unlimited is_profile_name validate_quotas validate_priority validate_node_affinity
    known_profiles validate_profile_networks validate_profile_canaries check_canary
both_accepted = refl

accepted_starts_example :
    (validate_quota_config both.quotas ≡ none)
    × (check_classes [] both.classes ≡ none)
    × All
        (λ (s : ScaleSetEntry). check_profiles [] (router_profiles s.profiles) ≡ none)
        both.scalesets
accepted_starts_example = accepted_starts none none none both (λ e. (refl, refl, tt)) both_accepted

normalize_run :
    map
      (λ (s : ScaleSetEntry). map (λ (p : ProfileConfig). p.max_concurrent_runners) s.profiles)
      (normalize_scalesets pool legacy).scalesets
    ≡ (some 4 ∷ []) ∷ []
unfolding normalize_scalesets fold_legacy normalize_entry inherit_all inherit
normalize_run = refl
