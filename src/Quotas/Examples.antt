-- ===== src/Quotas/Examples.antt =====
-- An instance of the precedence theorem of internal/quotas/quotas.go.
use actions_runner_scaleset.Prelude.{◌≡◌, refl, true, [], ◌∷◌}
use actions_runner_scaleset.Prelude.Int.{pos}
use actions_runner_scaleset.Quotas.{
  Config, Resolver, new, created, validate, check_overrides, check_override, index_overrides,
  resolve, at_repo,
}
use actions_runner_scaleset.Prelude.Dict.{insert, erase}
use actions_runner_scaleset.Quotas.Precedence.{resolve-configured}

-- A cap of 5 for an organisation, and of 2 for one repository.
abbrev capped : Config
capped = record {
  default_per_repo = pos 4;
  default_per_org = pos 0;
  overrides =
      record { org = "acme"; repo = ""; max_concurrent = pos 5 }
      ∷ record { org = ""; repo = "platform"; max_concurrent = pos 2 }
      ∷ [];
}

abbrev resolver : Resolver
resolver = record {
  cfg = capped;
  by_repo = ("platform", pos 2) ∷ [];
  by_org = ("acme", pos 5) ∷ [];
  enabled = true;
}

resolver-created : new capped ≡ created resolver
unfolding new validate check_overrides check_override index_overrides insert erase
resolver-created = refl

resolve-configured_example : resolve resolver "acme" "platform" ≡ at_repo "platform" (pos 2)
resolve-configured_example = resolve-configured capped resolver "acme" "platform" resolver-created
