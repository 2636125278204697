-- ===== src/Quotas.antt =====
-- internal/quotas/quotas.go: the per-repository and per-organisation caps. Caps are integers in the
-- configuration; Validate rejects the negative ones.
pub mod Precedence
mod Examples
use actions_runner_scaleset.Prelude.{
  ℕ, Bool, true, false, not, ◌&&◌, ◌||◌, Option, none, some, List, [], ◌∷◌, String, str_eq,
  if◌then◌else◌,
}
use actions_runner_scaleset.Prelude.Int.{ℤ, pos, negsuc, ltb_ℤ}
use actions_runner_scaleset.Prelude.Dict.{lookup, insert}

pub record Override : Type 0 where
  pub org : String
  pub repo : String
  pub max_concurrent : ℤ

pub record Config : Type 0 where
  pub default_per_repo : ℤ
  pub default_per_org : ℤ
  pub overrides : List Override

pub data ConfigError : Type 0 where
  ambiguous_override negative_override negative_default_per_repo : ConfigError
  negative_default_per_org : ConfigError

abbrev is_set : String → Bool
is_set name = not (str_eq name "")

-- The checks of one override.
unfoldable pub check_override : Override → Option ConfigError
check_override o =
    let has_org = not (str_eq o.org "") in
    let has_repo = not (str_eq o.repo "") in
    if (has_org && has_repo) || (not has_org && not has_repo)
    then some ambiguous_override
    else if ltb_ℤ o.max_concurrent (pos 0)
    then some negative_override
    else none

unfoldable pub check_overrides : List Override → Option ConfigError
unfolding check_override
check_overrides [] = none
check_overrides (o ∷ os) = elim (check_override o) [ some e ↦ some e | none ↦ check_overrides os ]

-- Config.Validate: none is a valid configuration
unfoldable pub validate : Config → Option ConfigError
unfolding check_overrides
validate c = elim (check_overrides c.overrides) [
  | some e ↦ some e
  | none ↦
      if ltb_ℤ c.default_per_repo (pos 0)
      then some negative_default_per_repo
      else if ltb_ℤ c.default_per_org (pos 0)
      then some negative_default_per_org
      else none
]

pub record Resolver : Type 0 where
  pub cfg : Config
  pub by_repo : List (String × ℤ)
  pub by_org : List (String × ℤ)
  pub enabled : Bool

-- The loop of New over the overrides.
unfoldable pub index_overrides :
    List (String × ℤ) → List (String × ℤ) → List Override → List (String × ℤ) × List (String × ℤ)
index_overrides repos orgs [] = (repos, orgs)
index_overrides repos orgs (o ∷ os) =
    let to_repo = not (str_eq o.repo "") in
    let to_org = not to_repo && not (str_eq o.org "") in
    index_overrides (if to_repo then insert str_eq o.repo o.max_concurrent repos else repos)
      (if to_org then insert str_eq o.org o.max_concurrent orgs else orgs) os

abbrev pub is_nonempty {ℓ} : {A : Type ℓ} → List A → Bool
is_nonempty [] = false
is_nonempty (x ∷ xs) = true

pub data Created : Type 0 where
  created : Resolver → Created
  rejected : ConfigError → Created

-- New
unfoldable pub new : Config → Created
unfolding validate index_overrides
new cfg = elim (validate cfg) [
  | some e ↦ rejected e
  | none ↦ created (record {
    cfg = cfg;
    by_repo = (index_overrides [] [] cfg.overrides).0;
    by_org = (index_overrides [] [] cfg.overrides).1;
    enabled =
        ltb_ℤ (pos 0) cfg.default_per_repo
        || ltb_ℤ (pos 0) cfg.default_per_org
        || is_nonempty cfg.overrides;
  })
]

pub data Scope : Type 0 where
  scope_repo scope_org scope_none : Scope

pub record Limit : Type 0 where
  pub scope : Scope
  pub name : String
  pub cap : ℤ

abbrev pub unlimited : Limit
unlimited = record { scope = scope_none; name = ""; cap = pos 0 }

abbrev pub at_repo : String → ℤ → Limit
at_repo name cap = record { scope = scope_repo; name = name; cap = cap }

abbrev pub at_org : String → ℤ → Limit
at_org name cap = record { scope = scope_org; name = name; cap = cap }

-- The fleet-wide defaults of Resolve.
unfoldable pub resolve_default : Config → String → String → Limit
resolve_default cfg org repo =
    if not (str_eq repo "") && ltb_ℤ (pos 0) cfg.default_per_repo
    then at_repo repo cfg.default_per_repo
    else if not (str_eq org "") && ltb_ℤ (pos 0) cfg.default_per_org
    then at_org org cfg.default_per_org
    else unlimited

-- A named scope with an override.
abbrev pub override_of : String → List (String × ℤ) → Option ℤ
override_of name caps = if str_eq name "" then none else lookup str_eq name caps

-- The caps in the order that Resolve tries them.
abbrev pub choose : Config → String → String → Option ℤ → Option ℤ → Limit
choose cfg org repo of_repo of_org = elim of_repo [
  | some cap ↦ at_repo repo cap
  | none ↦ elim of_org [ some cap ↦ at_org org cap | none ↦ resolve_default cfg org repo ]
]

-- Resolver.Resolve, of a resolver that is not nil
unfoldable pub resolve : Resolver → String → String → Limit
resolve r org repo =
    if not r.enabled
    then unlimited
    else choose r.cfg org repo (override_of repo r.by_repo) (override_of org r.by_org)
