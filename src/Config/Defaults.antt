-- ===== src/Config/Defaults.antt =====
-- normalizeScalesets of internal/config/config.go.
mod Complete
use actions_runner_scaleset.Prelude.{
  ℕ, ◌==◌, ◌≡◌, ◌≢◌, refl, ap, inl, inr, true, false, not, ◌&&◌, ◌||◌, Option, none, some, List, [],
  ◌∷◌, map, String, is_some, length, All, arith, if◌then◌else◌, Bool-cases,
}
use actions_runner_scaleset.Config.{Scope, ProfileConfig, ScaleSetEntry, PoolConfig, is_set}

-- The legacy blocks `scaleset`, `profiles` and `github.scope`.
pub record Legacy : Type 0 where
  pub name : String
  pub labels : List String
  pub runner_group : String
  pub max_concurrent_runners : ℕ
  pub scope : Scope
  pub profiles : List ProfileConfig

pub record Normalized : Type 0 where
  pub legacy : Legacy
  pub scalesets : List ScaleSetEntry

-- The scale set that the legacy blocks describe.
abbrev pub entry_of : Legacy → ScaleSetEntry
entry_of l = record {
  name = l.name;
  labels = l.labels;
  runner_group = l.runner_group;
  max_concurrent_runners = l.max_concurrent_runners;
  scope = l.scope;
  vmid_range = none;
  profiles = l.profiles;
}

-- The first loop: the legacy form folded into a list.
unfoldable pub fold_legacy : Legacy → List ScaleSetEntry → List ScaleSetEntry
fold_legacy l scalesets =
    if length scalesets == 0 && (is_set l.name || not (l.max_concurrent_runners == 0))
    then entry_of l ∷ []
    else scalesets

-- intp, for a knob that is unset
abbrev pub or_set : Option ℕ → ℕ → Option ℕ
or_set none d = some d
or_set (some n) d = some n

abbrev pub or_age : Option ℕ → Option ℕ → Option ℕ
or_age none d = d
or_age (some n) d = some n

-- The profile of an entry that has none.
unfoldable pub synthesized : PoolConfig → ScaleSetEntry → ProfileConfig
synthesized pool s = record {
  name = "default";
  labels = s.labels;
  template_vmid = 0;
  hot_size = some pool.hot_size;
  warm_size = some pool.warm_size;
  max_concurrent_runners = some s.max_concurrent_runners;
  boot_max_attempts = some pool.boot_max_attempts;
  cpu_cores = 0;
  memory_mb = 0;
  disk_gb = 0;
  storage = "";
  canary_template_vmid = 0;
  canary_percent = 0;
  failure_rate_set = false;
  network = none;
  vm_max_age = pool.vm_max_age;
  schedules = pool.schedules;
}

unfoldable pub inherit : PoolConfig → ScaleSetEntry → ProfileConfig → ProfileConfig
inherit pool s p = record p {
  hot_size = or_set p.hot_size pool.hot_size;
  warm_size = or_set p.warm_size pool.warm_size;
  max_concurrent_runners = or_set p.max_concurrent_runners s.max_concurrent_runners;
  boot_max_attempts = or_set p.boot_max_attempts pool.boot_max_attempts;
  vm_max_age = or_age p.vm_max_age pool.vm_max_age;
}

unfoldable pub inherit_all : PoolConfig → ScaleSetEntry → List ProfileConfig → List ProfileConfig
unfolding inherit synthesized
inherit_all pool s [] = synthesized pool s ∷ []
inherit_all pool s (p ∷ ps) = map (inherit pool s) (p ∷ ps)

unfoldable pub normalize_entry : PoolConfig → ScaleSetEntry → ScaleSetEntry
unfolding inherit_all
normalize_entry pool s = record s { profiles = inherit_all pool s s.profiles }

-- The projection of a single entry onto the legacy blocks.
unfoldable pub project : Legacy → List ScaleSetEntry → Legacy
project l [] = l
project l (s ∷ []) = record {
  name = s.name;
  labels = s.labels;
  runner_group = s.runner_group;
  max_concurrent_runners = s.max_concurrent_runners;
  scope = s.scope;
  profiles = s.profiles;
}
project l (s ∷ t ∷ rest) = l

-- normalizeScalesets
unfoldable pub normalize_scalesets : PoolConfig → Normalized → Normalized
unfolding fold_legacy normalize_entry project
normalize_scalesets pool c =
    let scalesets = map (normalize_entry pool) (fold_legacy c.legacy c.scalesets) in
    record { legacy = project c.legacy scalesets; scalesets = scalesets }
