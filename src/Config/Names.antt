-- ===== src/Config/Names.antt =====
-- What validateNodeAffinity, validateProfileNetworks and validateProfileCanaries of
-- internal/config/config.go accept.
use actions_runner_scaleset.Prelude.{
  ◌≡◌, ◌≢◌, ◌↔◌, ◌⊎◌, ◌≤◌, ◌<◌, refl, inl, inr, Bool, true, false, not, ◌||◌, Option, none, some,
  List, [], ◌∷◌, String, str_eq, eq_iff, contains, contains_iff, length, ltb, All, In, In-append,
  subst, sym, arith, Bool-cases, if◌then◌else◌,
}
use actions_runner_scaleset.Prelude.Runes.{codes}
use actions_runner_scaleset.Prelude.Checks.{reject, chain, rejects, skip_iff, for_each_iff, In-map}
use actions_runner_scaleset.Config.{ProfileConfig, ScaleSetEntry, Nic, IpamConfig, NetworkConfig}
use actions_runner_scaleset.Config.Fields.{
  bad_bridge, bad_vlan, bad_mtu, bridge_required, pool_without_backend, pool_required,
  percent_without_canary, rate_without_canary, unknown_profile, unknown_node, nothing_required,
  all_bridge_runes, validate_nic, check_extra_nic, check_ipam, check_network,
  validate_profile_networks, check_canary, validate_profile_canaries, AffinityRule, NodesConfig,
  known_profiles, known_nodes, misnamed, check_rule, validate_node_affinity,
}

-- The name is that of a profile of some scale set.
abbrev pub IsDeclared : List ScaleSetEntry → String → Type 0
IsDeclared scalesets name =
    (s : ScaleSetEntry) × (p : ProfileConfig) × In s scalesets × In p s.profiles × (p.name ≡ name)

-- The name is unset or that of a profile of some scale set.
abbrev pub NamesProfile : List ScaleSetEntry → String → Type 0
NamesProfile scalesets name = (name ≡ "") ⊎ IsDeclared scalesets name

-- A node that the configuration declares.
abbrev pub IsNode : NodesConfig → String → Type 0
IsNode nodes n = ((n ≢ "") × (nodes.single_node ≡ n)) ⊎ In n nodes.members

abbrev pub RuleSound : NodesConfig → List ScaleSetEntry → AffinityRule → Type 0
RuleSound nodes scalesets r =
    NamesProfile scalesets r.matched
    × NamesProfile scalesets r.anti_affinity_with
    × All (IsNode nodes) r.prefer_nodes
    × ((r.require ≡ false) ⊎ (0 < length r.prefer_nodes))

known_profiles_iff :
    (scalesets : List ScaleSetEntry) (name : String)
    → In name (known_profiles scalesets) ↔ IsDeclared scalesets name
unfolding known_profiles
known_profiles_iff [] name = (λ m. absurd m, λ (s, p, i, j, e). absurd i)
known_profiles_iff (s ∷ rest) name = (
  λ m. elim ((In-append name _ (known_profiles rest)).0 m) [
    | inl i ↦
        (let (p, j, e) = (In-map (λ (p : ProfileConfig). p.name) name s.profiles).0 i in
          (s, p, inl refl, j, e))
    | inr i ↦ (let (t, p, k, j, e) = (known_profiles_iff rest name).0 i in (t, p, inr k, j, e))
  ],
  λ (t, p, i, j, e). (In-append name _ (known_profiles rest)).1 (elim i [
    | inl d ↦ inl (
        (In-map (λ (p : ProfileConfig). p.name) name s.profiles).1
          (p, subst (λ (u : ScaleSetEntry). In p u.profiles) (sym d) j, e))
    | inr k ↦ inr ((known_profiles_iff rest name).1 (t, p, k, j, e))
  ]),
)

misnamed_iff :
    (scalesets : List ScaleSetEntry) (name : String)
    → (misnamed (known_profiles scalesets) name ≡ false) ↔ NamesProfile scalesets name
misnamed_iff scalesets name = ground (
  arith,
  eq_iff name "",
  contains_iff name (known_profiles scalesets),
  known_profiles_iff scalesets name,
)

known_nodes_iff :
    (nodes : NodesConfig) (n : String)
    → (not (contains n (known_nodes nodes)) ≡ false) ↔ IsNode nodes n
known_nodes_iff nodes n =
    ground (arith, eq_iff nodes.single_node "", contains_iff n (known_nodes nodes))

rule_iff :
    (nodes : NodesConfig) (scalesets : List ScaleSetEntry) (r : AffinityRule)
    → (check_rule (known_profiles scalesets) (known_nodes nodes) r ≡ none)
      ↔ RuleSound nodes scalesets r
unfolding check_rule
rule_iff nodes scalesets r =
    let c = chain (rejects unknown_profile (misnamed_iff scalesets r.matched)) (
      chain (rejects unknown_profile (misnamed_iff scalesets r.anti_affinity_with)) (
        chain (for_each_iff _ (λ n. rejects unknown_node (known_nodes_iff nodes n)) r.prefer_nodes)
          (rejects {P = (r.require ≡ false) ⊎ (0 < length r.prefer_nodes)} nothing_required
            (ground arith)))) in
    (λ h. (let (a, (b, (d, e))) = c.0 h in (a, b, d, e)), λ (a, b, d, e). c.1 (a, (b, (d, e))))

affinity_iff :
    (nodes : NodesConfig) (scalesets : List ScaleSetEntry)
    → (validate_node_affinity nodes scalesets ≡ none)
      ↔ All (RuleSound nodes scalesets) nodes.affinity
unfolding validate_node_affinity
affinity_iff nodes scalesets = for_each_iff _ (rule_iff nodes scalesets) nodes.affinity

-- The bridge is unset or a text of the letters that Proxmox takes; the tag and the MTU are in range.
abbrev pub NicSound : Nic → Type 0
NicSound n =
    ((n.bridge ≡ "") ⊎ (all_bridge_runes (codes n.bridge) ≡ true))
    × (n.vlan_tag ≤ 4094)
    × (n.mtu ≤ 9216)

-- A static pool has addresses, and no other backend than `noop` is known, which has none.
abbrev is_noop : IpamConfig → Bool
is_noop i = str_eq i.backend "" || str_eq i.backend "noop"

abbrev pub IpamSound : IpamConfig → Type 0
IpamSound i =
    if is_noop i then length i.pool ≡ 0 else ((i.backend ≡ "static") × (0 < length i.pool))

abbrev pub NetworkSound : Option NetworkConfig → Type 0
NetworkSound none = Unit {0}
NetworkSound (some n) =
    NicSound n.nic
    × All (λ (x : Nic). (x.bridge ≢ "") × NicSound x) n.extra_nics
    × elim n.ipam [ none ↦ Unit {0} | some i ↦ IpamSound i ]

-- No canary settings without a canary template.
abbrev pub CanarySound : ProfileConfig → Type 0
CanarySound p =
    (0 < p.canary_template_vmid) ⊎ ((p.canary_percent ≡ 0) × (p.failure_rate_set ≡ false))

nic_iff : (n : Nic) → (validate_nic n ≡ none) ↔ NicSound n
unfolding validate_nic
nic_iff n =
    let c =
      chain {P = (n.bridge ≡ "") ⊎ (all_bridge_runes (codes n.bridge) ≡ true)}
        (rejects bad_bridge (ground (arith, eq_iff n.bridge "")))
        (chain {P = n.vlan_tag ≤ 4094} (rejects bad_vlan (ground arith))
          (rejects {P = n.mtu ≤ 9216} bad_mtu (ground arith))) in
    (λ h. (let (b, (v, m)) = c.0 h in (b, v, m)), λ (b, v, m). c.1 (b, (v, m)))

ipam_iff : (i : IpamConfig) → (check_ipam i ≡ none) ↔ IpamSound i
unfolding check_ipam reject
ipam_iff i = elim (Bool-cases (is_noop i)) [
  | inl e ↦ rw (check_ipam, e) (rejects pool_without_backend (ground arith))
  | inr e ↦
      rw (check_ipam, e)
        (elim (Bool-cases (str_eq i.backend "static")) [
          | inl f ↦ rw f (
            λ h. (
              (eq_iff i.backend "static").0 f,
              (rejects {P = 0 < length i.pool} pool_required (ground arith)).0 h,
            ),
            λ (g, k). (rejects {P = 0 < length i.pool} pool_required (ground arith)).1 k,
          )
          | inr f ↦ rw f (λ h. cc, λ (g, k). cc (f, (eq_iff i.backend "static").1 g))
        ])
]

canary_iff : (p : ProfileConfig) → (check_canary p ≡ none) ↔ CanarySound p
unfolding check_canary
canary_iff p = skip_iff (ltb 0 p.canary_template_vmid) (ground arith) (
    chain {P = p.canary_percent ≡ 0} (rejects percent_without_canary (ground arith))
      (rejects rate_without_canary (λ h. h, λ h. h)))

extra_iff : (n : Nic) → (check_extra_nic n ≡ none) ↔ ((n.bridge ≢ "") × NicSound n)
unfolding check_extra_nic
extra_iff n = chain (rejects bridge_required (ground (arith, eq_iff n.bridge ""))) (nic_iff n)

network_iff : (n : NetworkConfig) → (check_network n ≡ none) ↔ NetworkSound (some n)
unfolding check_network
network_iff n =
    let c =
      chain (nic_iff n.nic) (chain (for_each_iff _ extra_iff n.extra_nics) (settled n.ipam)) in
    (λ h. (let (a, (b, d)) = c.0 h in (a, b, d)), λ (a, b, d). c.1 (a, (b, d)))
  where
    settled :
        (i : Option IpamConfig)
        → ((elim i [ none ↦ none | some i ↦ check_ipam i ]) ≡ none)
          ↔ (elim i [ none ↦ Unit {0} | some i ↦ IpamSound i ])
    settled none = (λ h. tt, λ h. refl)
    settled (some i) = ipam_iff i

-- validateNodeAffinity accepts exactly the rules that name declared profiles and nodes only and that
-- require a node only if they prefer some; validateProfileNetworks exactly the networks whose cards have
-- a legal bridge, tag and MTU, with a bridge on each extra card, and whose address pool is there for the
-- backend `static` and absent otherwise; validateProfileCanaries exactly the profiles that set a canary
-- template before a canary percentage or failure rate.
pub fields_iff :
    (nodes : NodesConfig) (scalesets : List ScaleSetEntry)
    → ((validate_node_affinity nodes scalesets ≡ none)
        ↔ All (RuleSound nodes scalesets) nodes.affinity)
      × ((validate_profile_networks scalesets ≡ none)
          ↔ All (λ s. All (λ (p : ProfileConfig). NetworkSound p.network) s.profiles) scalesets)
      × ((validate_profile_canaries scalesets ≡ none)
          ↔ All (λ s. All CanarySound s.profiles) scalesets)
unfolding validate_profile_networks validate_profile_canaries
fields_iff nodes scalesets = (
  affinity_iff nodes scalesets,
  for_each_iff _ (λ s. for_each_iff _ (λ (p : ProfileConfig). settled p.network) s.profiles)
      scalesets,
  for_each_iff _ (λ s. for_each_iff _ canary_iff s.profiles) scalesets,
)
  where
    settled :
        (n : Option NetworkConfig)
        → ((elim n [ none ↦ none | some n ↦ check_network n ]) ≡ none) ↔ NetworkSound n
    settled none = (λ h. tt, λ h. refl)
    settled (some n) = network_iff n
