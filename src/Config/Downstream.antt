-- ===== src/Config/Downstream.antt =====
-- The checks that internal/config repeats for internal/quotas and internal/priority: the packages refuse
-- nothing that the configuration has accepted.
use actions_runner_scaleset.Prelude.{
  ◌≡◌, ◌↔◌, refl, inl, inr, false, not, ◌&&◌, ◌||◌, none, List, [], ◌∷◌, String, str_eq, contains,
  All, Bool-cases, Option-cases,
}
use actions_runner_scaleset.Prelude.Int.{ℤ, pos, ltb_ℤ}
use actions_runner_scaleset.Prelude.Checks.{reject, ◌before◌, for_each}
use actions_runner_scaleset.Quotas.{Override, check_override, check_overrides, validate}
use actions_runner_scaleset.Priority.{Class, check_classes}
use actions_runner_scaleset.Config.Fields.{validate_quotas, validate_priority}

abbrev pub IsNatural : ℤ → Type 0
IsNatural z = ltb_ℤ z (pos 0) ≡ false

-- What the tags `gte=0` of validateStruct leave of the quotas.
abbrev pub AreNatural : actions_runner_scaleset.Quotas.Config → Type 0
AreNatural c =
    IsNatural c.default_per_repo
    × IsNatural c.default_per_org
    × All (λ (o : Override). IsNatural o.max_concurrent) c.overrides

overrides_iff :
    (os : List Override)
    → All (λ (o : Override). IsNatural o.max_concurrent) os
    → (check_overrides os ≡ none) ↔ (validate_quotas os ≡ none)
unfolding check_overrides validate_quotas check_override for_each ◌before◌ reject
overrides_iff [] h = (λ e. refl, λ e. refl)
overrides_iff (o ∷ os) (h, hs) =
    elim (Bool-cases (
      (not (str_eq o.org "") && not (str_eq o.repo ""))
      || (not (not (str_eq o.org "")) && not (not (str_eq o.repo ""))))) [
        | inl e ↦ rw (check_overrides, check_override, e) (λ x. cc, λ x. cc)
        | inr e ↦ rw (check_overrides, check_override, e, h) (overrides_iff os hs)
      ]

classes_iff :
    (seen : List String) (cs : List Class)
    → (check_classes seen cs ≡ none) ↔ (validate_priority seen cs ≡ none)
unfolding check_classes validate_priority ◌before◌ reject
classes_iff seen [] = (λ e. refl, λ e. refl)
classes_iff seen (c ∷ cs) = elim (Bool-cases (str_eq c.name "")) [
  | inl e ↦ rw e (λ x. cc, λ x. cc)
  | inr e ↦ elim (Bool-cases (contains c.name seen)) [
    | inl f ↦ rw (e, f) (λ x. cc, λ x. cc)
    | inr f ↦ rw (e, f) (classes_iff (c.name ∷ seen) cs)
  ]
]

-- Once validateStruct has left only quotas that are not negative, quotas.Config.Validate refuses exactly
-- the overrides that validateQuotas refuses; and priority.New refuses exactly the classes that
-- validatePriority refuses.
pub new_refuses_no_more :
    (c : actions_runner_scaleset.Quotas.Config) (classes : List Class)
    → AreNatural c
    → ((validate c ≡ none) ↔ (validate_quotas c.overrides ≡ none))
      × ((check_classes [] classes ≡ none) ↔ (validate_priority [] classes ≡ none))
unfolding validate
new_refuses_no_more c classes (r, o, os) = (
  elim (Option-cases (check_overrides c.overrides)) [
    | inl e ↦ rw (validate, e, r, o) (λ x. (overrides_iff c.overrides os).0 e, λ x. refl)
    | inr (q, e) ↦ rw (validate, e) (λ x. cc, λ x. cc (e, (overrides_iff c.overrides os).1 x))
  ],
  classes_iff [] classes,
)
