-- ===== src/Config/Startup.antt =====
-- Validate of internal/config/config.go as a whole, and the components that internal/app/app.go builds
-- from an accepted configuration. The checks of validateStruct (a third-party validator), of the
-- Proxmox endpoint and of TLS files are arguments: none is success.
use actions_runner_scaleset.Prelude.{ℕ, ◌≡◌, refl, Option, none, some, List, [], All, All-map}
use actions_runner_scaleset.Prelude.Checks.{◌before◌, before_iff}
use actions_runner_scaleset.Quotas.{validate as validate_quota_config}
use actions_runner_scaleset.Priority.{Class, check_classes}
use actions_runner_scaleset.Router.{check_profiles}
use actions_runner_scaleset.Config.{
  ConfigError, Range, ScaleSetEntry, PoolConfig, validate_sizing, validate_scalesets,
}
use actions_runner_scaleset.Config.Profiles.{ProfileError, validate_profiles}
use actions_runner_scaleset.Config.Fields.{
  FieldError, NodesConfig, validate_quotas, validate_priority, validate_node_affinity,
  validate_profile_networks, validate_profile_canaries,
}
use actions_runner_scaleset.Config.Caps.{validate_profiles_iff}
use actions_runner_scaleset.Config.Routing.{router_profiles, router_built}
use actions_runner_scaleset.Config.Downstream.{AreNatural, new_refuses_no_more}

pub record Config : Type 0 where
  pub pool : PoolConfig
  pub scaleset_max : ℕ
  pub template_vmid : ℕ
  pub vmid_range : Range
  pub scalesets : List ScaleSetEntry
  pub nodes : NodesConfig
  pub quotas : actions_runner_scaleset.Quotas.Config
  pub classes : List Class

-- The error of the first check that fails.
pub data Refusal : Type 0 where
  of_struct of_proxmox of_tls : Refusal
  of_scalesets : ConfigError → Refusal
  of_profiles : ProfileError → Refusal
  of_fields : FieldError → Refusal

unfoldable pub relabel : {E : Type 0} → (E → Refusal) → Option E → Option Refusal
relabel f none = none
relabel f (some e) = some (f e)

-- Config.Validate
unfoldable pub validate : Option Refusal → Option Refusal → Option Refusal → Config → Option Refusal
unfolding relabel ◌before◌ validate_sizing validate_scalesets validate_profiles validate_quotas
    validate_priority validate_node_affinity validate_profile_networks validate_profile_canaries
validate struct_check proxmox_check tls_check c =
    struct_check
    before relabel of_scalesets
        (validate_sizing c.pool c.scalesets c.scaleset_max c.template_vmid c.vmid_range)
    before proxmox_check
    before tls_check
    before relabel of_scalesets (validate_scalesets c.pool c.scalesets)
    before relabel of_profiles (validate_profiles c.pool c.scalesets)
    before relabel of_fields (validate_quotas c.quotas.overrides)
    before relabel of_fields (validate_priority [] c.classes)
    before relabel of_fields (validate_node_affinity c.nodes c.scalesets)
    before relabel of_fields (validate_profile_networks c.scalesets)
    before relabel of_fields (validate_profile_canaries c.scalesets)

relabelled : {E : Type 0} (f : E → Refusal) (o : Option E) → relabel f o ≡ none → o ≡ none
unfolding relabel
relabelled f none h = refl
relabelled f (some e) h = cc

-- A configuration that Validate accepts can be started: quotas.New and priority.New refuse nothing of it,
-- given that validateStruct leaves only quotas that are not negative, and the router of every scale set
-- can be built.
pub accepted_starts :
    (struct_check proxmox_check tls_check : Option Refusal) (c : Config)
    → ((struct_check ≡ none) → AreNatural c.quotas)
    → validate struct_check proxmox_check tls_check c ≡ none
    → (validate_quota_config c.quotas ≡ none)
      × (check_classes [] c.classes ≡ none)
      × All (λ s. check_profiles [] (router_profiles s.profiles) ≡ none) c.scalesets
unfolding validate
accepted_starts struct_check proxmox_check tls_check c natural h =
    let (st, h1) = (before_iff struct_check _).0 h in
    let (sizing, h2) =
      (before_iff
          (relabel of_scalesets
            (validate_sizing c.pool c.scalesets c.scaleset_max c.template_vmid c.vmid_range))
          _).0
        h1 in
    let (px, h3) = (before_iff proxmox_check _).0 h2 in
    let (tl, h4) = (before_iff tls_check _).0 h3 in
    let (ss, h5) =
      (before_iff (relabel of_scalesets (validate_scalesets c.pool c.scalesets)) _).0 h4 in
    let (ps, h6) =
      (before_iff (relabel of_profiles (validate_profiles c.pool c.scalesets)) _).0 h5 in
    let (qs, h7) = (before_iff (relabel of_fields (validate_quotas c.quotas.overrides)) _).0 h6 in
    let (cs, h8) = (before_iff (relabel of_fields (validate_priority [] c.classes)) _).0 h7 in
    let (quota_iff, class_iff) = new_refuses_no_more c.quotas c.classes (natural st) in
    (
      quota_iff.1 (relabelled of_fields (validate_quotas c.quotas.overrides) qs),
      class_iff.1 (relabelled of_fields (validate_priority [] c.classes) cs),
      All-map c.scalesets (λ s sound. router_built c.pool s sound)
          ((validate_profiles_iff c.pool c.scalesets).0
            (relabelled of_profiles (validate_profiles c.pool c.scalesets) ps)).0,
    )
