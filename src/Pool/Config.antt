-- ===== src/Pool/Config.antt =====
-- The parts of Config, ProfileSettings and the manager (internal/pool/pool.go, manager.go) that the
-- handlers read. A max age that is not positive disables the age gate; it is 0 here.
use actions_runner_scaleset.Prelude.{
  ℕ, ◌==◌, Bool, Option, none, some, List, [], ◌∷◌, String, str_eq, map, if◌then◌else◌,
}

pub record ProfileSettings : Type 0 where
  pub name : String
  pub hot_size : ℕ
  pub warm_size : ℕ
  pub max_concurrent_runners : ℕ
  pub boot_max_attempts : ℕ
  pub vm_max_age : ℕ
  pub template_vmid : ℕ

pub record Config : Type 0 where
  pub profiles : List ProfileSettings
  pub hot_size : ℕ
  pub warm_size : ℕ
  pub max_concurrent_runners : ℕ
  pub boot_max_attempts : ℕ
  pub vm_max_age : ℕ
  -- RecycleMode is snapshot-rollback
  pub snapshot_recycle : Bool
  pub vmid_min : ℕ
  pub vmid_max : ℕ

-- The manager's map of profiles, which NewManager fills in the order of declaration.
unfoldable pub profile_named : List ProfileSettings → String → Option ProfileSettings
profile_named [] name = none
profile_named (p ∷ ps) name = elim (profile_named ps name) [
  | some q ↦ some q
  | none ↦ if str_eq p.name name then some p else none
]

-- defaultProfile; there is always a profile
unfoldable pub default_profile : List ProfileSettings → String
default_profile [] = ""
default_profile (p ∷ ps) = p.name

-- profileOf
unfoldable pub profile_of : List ProfileSettings → String → Option ProfileSettings
unfolding profile_named default_profile
profile_of ps name = profile_named ps (if str_eq name "" then default_profile ps else name)

-- What GitHub reports of a runner.
pub record RunnerInfo : Type 0 where
  pub id : ℕ
  pub online : Bool
  pub busy : Bool

abbrev or_fleet : ℕ → ℕ → ℕ
or_fleet own fleet = if own == 0 then fleet else own

-- The loop of normaliseProfiles.
unfoldable pub inherit : Config → ProfileSettings → ProfileSettings
inherit cfg p = record p {
  hot_size = or_fleet p.hot_size cfg.hot_size;
  warm_size = or_fleet p.warm_size cfg.warm_size;
  max_concurrent_runners = or_fleet p.max_concurrent_runners cfg.max_concurrent_runners;
  boot_max_attempts = or_fleet p.boot_max_attempts cfg.boot_max_attempts;
  vm_max_age = or_fleet p.vm_max_age cfg.vm_max_age;
}

-- normaliseProfiles
unfoldable pub normalise_profiles : Config → List ProfileSettings
unfolding inherit
normalise_profiles cfg = elim cfg.profiles [
  | [] ↦
      record {
        name = "default";
        hot_size = cfg.hot_size;
        warm_size = cfg.warm_size;
        max_concurrent_runners = cfg.max_concurrent_runners;
        boot_max_attempts = cfg.boot_max_attempts;
        vm_max_age = cfg.vm_max_age;
        template_vmid = 0;
      }
      ∷ []
  | p ∷ ps ↦ map (inherit cfg) (p ∷ ps)
]
