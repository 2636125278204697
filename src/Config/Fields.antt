-- ===== src/Config/Fields.antt =====
-- The checks of single fields in internal/config/config.go: validateNIC, validateProfileNetworks,
-- validateProfileCanaries, validateNodeAffinity, validateQuotas and validatePriority. The overrides and
-- classes are those of internal/quotas and internal/priority, into which app.go copies them.
use actions_runner_scaleset.Prelude.{
  ℕ, ◌==◌, Bool, true, not, ◌&&◌, ◌||◌, Option, none, some, List, [], ◌∷◌, ◌++◌, map, String,
  str_eq, contains, length, leb, ltb, if◌then◌else◌,
}
use actions_runner_scaleset.Prelude.Runes.{Runes, codes}
use actions_runner_scaleset.Prelude.Checks.{reject, ◌before◌, for_each}
use actions_runner_scaleset.Quotas.{Override}
use actions_runner_scaleset.Priority.{Class}
use actions_runner_scaleset.Config.{ProfileConfig, ScaleSetEntry, Nic, IpamConfig, NetworkConfig}

pub data FieldError : Type 0 where
  bad_bridge bad_vlan bad_mtu bridge_required : FieldError
  pool_without_backend pool_required bad_backend : FieldError
  percent_without_canary rate_without_canary : FieldError
  unknown_profile unknown_node nothing_required : FieldError
  quota_match class_name_required duplicate_class : FieldError

-- nicBridgeAllowed, `^[A-Za-z0-9_.-]+$`
abbrev is_bridge_rune : ℕ → Bool
is_bridge_rune c =
    (leb 65 c && leb c 90)
    || (leb 97 c && leb c 122)
    || (leb 48 c && leb c 57)
    || c == 95
    || c == 46
    || c == 45

unfoldable pub all_bridge_runes : Runes → Bool
all_bridge_runes [] = true
all_bridge_runes (c ∷ cs) = is_bridge_rune c && all_bridge_runes cs

-- validateNIC; the tag and the MTU are not negative
unfoldable pub validate_nic : Nic → Option FieldError
unfolding all_bridge_runes reject ◌before◌
validate_nic n =
    reject (not (str_eq n.bridge "") && not (all_bridge_runes (codes n.bridge))) bad_bridge
    before reject (ltb 4094 n.vlan_tag) bad_vlan
    before reject (ltb 9216 n.mtu) bad_mtu

unfoldable pub check_extra_nic : Nic → Option FieldError
unfolding validate_nic reject ◌before◌
check_extra_nic n = reject (str_eq n.bridge "") bridge_required before validate_nic n

unfoldable pub check_ipam : IpamConfig → Option FieldError
unfolding reject
check_ipam i =
    if str_eq i.backend "" || str_eq i.backend "noop"
    then reject (ltb 0 (length i.pool)) pool_without_backend
    else if str_eq i.backend "static"
    then reject (length i.pool == 0) pool_required
    else some bad_backend

unfoldable pub check_network : NetworkConfig → Option FieldError
unfolding validate_nic check_extra_nic check_ipam for_each ◌before◌
check_network n =
    validate_nic n.nic
    before for_each check_extra_nic n.extra_nics
    before elim n.ipam [ none ↦ none | some i ↦ check_ipam i ]

-- validateProfileNetworks
unfoldable pub validate_profile_networks : List ScaleSetEntry → Option FieldError
unfolding check_network for_each
validate_profile_networks = for_each (λ s.
    for_each (λ (p : ProfileConfig). elim p.network [ none ↦ none | some n ↦ check_network n ])
      s.profiles)

unfoldable pub check_canary : ProfileConfig → Option FieldError
unfolding reject ◌before◌
check_canary p =
    if ltb 0 p.canary_template_vmid
    then none
    else reject (ltb 0 p.canary_percent) percent_without_canary
      before reject p.failure_rate_set rate_without_canary

-- validateProfileCanaries
unfoldable pub validate_profile_canaries : List ScaleSetEntry → Option FieldError
unfolding check_canary for_each
validate_profile_canaries = for_each (λ s. for_each check_canary s.profiles)

-- AffinityRule, with the profiles that it matches and keeps apart from; "" is no profile
pub record AffinityRule : Type 0 where
  pub matched : String
  pub anti_affinity_with : String
  pub prefer_nodes : List String
  pub require : Bool

pub record NodesConfig : Type 0 where
  pub members : List String
  pub single_node : String
  pub affinity : List AffinityRule

-- `knownProfiles` and `knownNodes`
unfoldable pub known_profiles : List ScaleSetEntry → List String
known_profiles [] = []
known_profiles (s ∷ rest) = map (λ (p : ProfileConfig). p.name) s.profiles ++ known_profiles rest

abbrev pub known_nodes : NodesConfig → List String
known_nodes n = if str_eq n.single_node "" then n.members else n.single_node ∷ n.members

-- A profile that is named and not declared.
abbrev pub misnamed : List String → String → Bool
misnamed known name = not (str_eq name "") && not (contains name known)

unfoldable pub check_rule : List String → List String → AffinityRule → Option FieldError
unfolding for_each reject ◌before◌
check_rule profiles nodes r =
    reject (misnamed profiles r.matched) unknown_profile
    before reject (misnamed profiles r.anti_affinity_with) unknown_profile
    before for_each (λ n. reject (not (contains n nodes)) unknown_node) r.prefer_nodes
    before reject (r.require && length r.prefer_nodes == 0) nothing_required

-- validateNodeAffinity
unfoldable pub validate_node_affinity : NodesConfig → List ScaleSetEntry → Option FieldError
unfolding check_rule known_profiles for_each
validate_node_affinity nodes scalesets =
    for_each (check_rule (known_profiles scalesets) (known_nodes nodes)) nodes.affinity

-- validateQuotas
unfoldable pub validate_quotas : List Override → Option FieldError
unfolding for_each reject
validate_quotas = for_each (λ (o : Override).
    (let has_org = not (str_eq o.org "") in
      let has_repo = not (str_eq o.repo "") in
      reject ((has_org && has_repo) || (not has_org && not has_repo)) quota_match))

-- validatePriority, with the names seen so far
unfoldable pub validate_priority : List String → List Class → Option FieldError
unfolding reject ◌before◌ contains
validate_priority seen [] = none
validate_priority seen (c ∷ cs) =
    reject (str_eq c.name "") class_name_required
    before reject (contains c.name seen) duplicate_class
    before validate_priority (c.name ∷ seen) cs
