-- ===== src/Quotas/Precedence.antt =====
-- The precedence of the caps that Resolver.Resolve of internal/quotas/quotas.go finds, against the
-- configuration itself.
use actions_runner_scaleset.Prelude.{
  ◌≡◌, ◌∙◌, ap, sym, refl, inl, inr, Bool, true, false, not, ◌&&◌, ◌||◌, Option, none, some, List,
  [], ◌∷◌, String, str_eq, arith, eq_iff, Bool-cases, Option-cases, if◌then◌else◌,
}
use actions_runner_scaleset.Prelude.Int.{ℤ, pos, ltb_ℤ}
use actions_runner_scaleset.Prelude.Dict.{lookup, insert, lookup-insert}
use actions_runner_scaleset.Quotas.{
  Override, Config, check_override, check_overrides, validate, index_overrides, new, created,
  Resolver, resolve, choose, is_nonempty, override_of, resolve_default, Limit, unlimited, at_repo,
  at_org,
}

-- The last override for a repository or an organisation.
abbrev pub last_repo : String → List Override → Option ℤ
last_repo name [] = none
last_repo name (o ∷ os) = elim (last_repo name os) [
  | some cap ↦ some cap
  | none ↦ if str_eq o.repo name then some o.max_concurrent else none
]

abbrev pub last_org : String → List Override → Option ℤ
last_org name [] = none
last_org name (o ∷ os) = elim (last_org name os) [
  | some cap ↦ some cap
  | none ↦ if str_eq o.org name then some o.max_concurrent else none
]

abbrev or_else : Option ℤ → Option ℤ → Option ℤ
or_else none b = b
or_else (some a) b = some a

check_overrides-cons :
    (o : Override) (os : List Override)
    → check_overrides (o ∷ os) ≡ none
    → (check_override o ≡ none) × (check_overrides os ≡ none)
unfolding check_overrides
check_overrides-cons o os h = ground (arith)

-- A checked override names exactly one of the two.
check_override-one :
    (o : Override) → check_override o ≡ none → str_eq o.repo "" ≡ not (str_eq o.org "")
unfolding check_override
check_override-one o h = ground arith

stored :
    (field name : String) (cap : ℤ) (m : List (String × ℤ)) (b : Bool)
    → str_eq name "" ≡ false
    → b ≡ not (str_eq field "")
    → lookup str_eq name (if b then insert str_eq field cap m else m)
      ≡ (if str_eq field name then some cap else lookup str_eq name m)
stored field name cap m b n e = ground (
  arith,
  lookup-insert str_eq eq_iff field name cap m,
  eq_iff field name,
  eq_iff name "",
  eq_iff field "",
)

chosen :
    (o : Option ℤ) (b : Bool) (cap : ℤ) (old : Option ℤ)
    → or_else o (if b then some cap else old)
      ≡ or_else (elim o [ some c ↦ some c | none ↦ if b then some cap else none ]) old
chosen none true cap old = refl
chosen none false cap old = refl
chosen (some c) b cap old = refl

index_lookup :
    (os : List Override) (repos orgs : List (String × ℤ)) (name : String)
    → check_overrides os ≡ none
    → str_eq name "" ≡ false
    → let (r, g) = index_overrides repos orgs os in
      (lookup str_eq name r ≡ or_else (last_repo name os) (lookup str_eq name repos))
      × (lookup str_eq name g ≡ or_else (last_org name os) (lookup str_eq name orgs))
unfolding index_overrides
index_lookup [] repos orgs name h n = (refl, refl)
index_lookup (o ∷ os) repos orgs name h n =
    let (here, rest) = check_overrides-cons o os h in
    let one = check_override-one o here in
    let to_repo = not (str_eq o.repo "") in
    let to_org = not to_repo && not (str_eq o.org "") in
    let (r, g) =
      index_lookup os (if to_repo then insert str_eq o.repo o.max_concurrent repos else repos)
        (if to_org then insert str_eq o.org o.max_concurrent orgs else orgs) name rest n in
    let in_repos = stored o.repo name o.max_concurrent repos to_repo n refl in
    let in_orgs = stored o.org name o.max_concurrent orgs to_org n (ground (arith, one)) in
    (
      r
          ∙ ap (or_else (last_repo name os)) in_repos
          ∙ chosen (last_repo name os) _ o.max_concurrent _,
      g ∙ ap (or_else (last_org name os)) in_orgs ∙ chosen (last_org name os) _ o.max_concurrent _,
    )

-- The first limit of a list with a name and a positive cap.
abbrev pub first_capped : List Limit → Limit
first_capped [] = unlimited
first_capped (l ∷ ls) = elim (str_eq l.name "") [
  | true ↦ first_capped ls
  | false ↦ elim (ltb_ℤ (pos 0) l.cap) [ true ↦ l | false ↦ first_capped ls ]
]

-- The two defaults, in their order of precedence.
abbrev pub defaults : Config → String → String → List Limit
defaults cfg org repo = at_repo repo cfg.default_per_repo ∷ at_org org cfg.default_per_org ∷ []

resolve_default_lem :
    (cfg : Config) (org repo : String)
    → resolve_default cfg org repo ≡ first_capped (defaults cfg org repo)
unfolding resolve_default
resolve_default_lem cfg org repo = ground arith

-- The cap of a repository of an organisation, read off the configuration: the last override of the
-- repository, or else the last override of the organisation, or else the first positive one of the
-- default per repository and the default per organisation. An empty name has no cap.
abbrev named : String → Option ℤ → Option ℤ
named name o = if str_eq name "" then none else o

abbrev pub configured : Config → String → String → Limit
configured cfg org repo = elim (named repo (last_repo repo cfg.overrides)) [
  | some cap ↦ at_repo repo cap
  | none ↦ elim (named org (last_org org cfg.overrides)) [
    | some cap ↦ at_org org cap
    | none ↦ first_capped (defaults cfg org repo)
  ]
]

abbrev built : Config → Resolver
built cfg = record {
  cfg = cfg;
  by_repo = (index_overrides [] [] cfg.overrides).0;
  by_org = (index_overrides [] [] cfg.overrides).1;
  enabled =
      ltb_ℤ (pos 0) cfg.default_per_repo
      || ltb_ℤ (pos 0) cfg.default_per_org
      || is_nonempty cfg.overrides;
}

new-built :
    (cfg : Config) (r : Resolver)
    → new cfg ≡ created r
    → (r ≡ built cfg) × (check_overrides cfg.overrides ≡ none)
unfolding new validate
new-built cfg r e = elim (Option-cases (check_overrides cfg.overrides)) [
  | inr (x, h) ↦ absurd (cc (rw (new, validate, h) at e))
  | inl h ↦ (ground (arith, h, e), h)
]

or_else-none : (o : Option ℤ) → or_else o none ≡ o
or_else-none none = refl
or_else-none (some a) = refl

found :
    (os : List Override) (name : String)
    → check_overrides os ≡ none
    → (override_of name (index_overrides [] [] os).0 ≡ named name (last_repo name os))
      × (override_of name (index_overrides [] [] os).1 ≡ named name (last_org name os))
unfolding lookup
found os name h = elim (Bool-cases (str_eq name "")) [
  | inl e ↦ rw e (refl, refl)
  | inr e ↦
      let (r, g) = index_lookup os [] [] name h e in
      rw e (r ∙ or_else-none (last_repo name os), g ∙ or_else-none (last_org name os))
]

unconfigured :
    (cfg : Config) (org repo : String)
    → (built cfg).enabled ≡ false
    → configured cfg org repo ≡ unlimited
unconfigured cfg org repo e =
    rw (no_overrides cfg.overrides (ground (arith, e))) (ground (arith, e))
  where
    no_overrides : (os : List Override) → is_nonempty os ≡ false → os ≡ []
    no_overrides [] h = refl
    no_overrides (o ∷ os) h = cc

by_default :
    (cfg : Config) (org repo : String) (of_repo of_org : Option ℤ)
    → choose cfg org repo of_repo of_org ≡ elim of_repo [
      | some cap ↦ at_repo repo cap
      | none ↦ elim of_org [
        | some cap ↦ at_org org cap
        | none ↦ first_capped (defaults cfg org repo)
      ]
    ]
by_default cfg org repo (some cap) of_org = refl
by_default cfg org repo none (some cap) = refl
by_default cfg org repo none none = resolve_default_lem cfg org repo

-- For every configuration that New accepts, Resolve follows the precedence of `configured`: a
-- repository override wins over an organisation override, which wins over the default per
-- repository, which wins over the default per organisation; of several overrides with one name the
-- last counts; and without any of them there is no cap. The default per organisation caps a job with
-- a repository too, where the default per repository is 0.
pub resolve-configured :
    (cfg : Config) (r : Resolver) (org repo : String)
    → new cfg ≡ created r
    → resolve r org repo ≡ configured cfg org repo
unfolding resolve
resolve-configured cfg r org repo e =
    let (at, h) = new-built cfg r e in
    let (repos, _) = found cfg.overrides repo h in
    let (_, orgs) = found cfg.overrides org h in
    rw at (elim (Bool-cases (built cfg).enabled) [
      | inl on ↦
          rw (resolve, on)
            (ap (λ o. choose cfg org repo o (override_of org (built cfg).by_org)) repos
              ∙ ap (choose cfg org repo (named repo (last_repo repo cfg.overrides))) orgs
              ∙ by_default cfg org repo _ _)
      | inr off ↦ rw (resolve, off) (sym (unconfigured cfg org repo off))
    ])
