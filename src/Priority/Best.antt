-- ===== src/Priority/Best.antt =====
-- Classify of internal/priority/priority.go chooses the most specific matching class.
use actions_runner_scaleset.Prelude.{
  ℕ, ◌≡◌, ◌≤◌, ◌<◌, ◌↔◌, refl, inl, inr, ◌⊎◌, Bool, true, List, ◌∷◌, ◌++◌, contains_iff, In, arith,
  eq_iff, All, All-map, ltb, ltb_trans, ltb_beyond, ltb-lt, ltb-ge,
}
use actions_runner_scaleset.Prelude.Choice.{select_cases}
use actions_runner_scaleset.Priority.{
  JobInfo, Match, Class, zero_class, satisfies, specificity, classify,
}

-- Each field that the selector sets is the job's.
abbrev pub Matches : Match → JobInfo → Type 0
Matches s info =
    ((s.org ≡ "") ⊎ (s.org ≡ info.org))
    × ((s.repo ≡ "") ⊎ (s.repo ≡ info.repo))
    × ((s.workflow_label ≡ "") ⊎ In s.workflow_label info.workflow_labels)

satisfies_iff : (s : Match) (info : JobInfo) → (satisfies s info ≡ true) ↔ Matches s info
unfolding satisfies
satisfies_iff s info = ground (
  arith,
  eq_iff s.org "",
  eq_iff s.repo "",
  eq_iff s.workflow_label "",
  eq_iff s.org info.org,
  eq_iff s.repo info.repo,
  contains_iff s.workflow_label info.workflow_labels,
)

abbrev spec : Class → ℕ
spec c = specificity c.selector

abbrev more_specific : Class → Class → Bool
more_specific c best = ltb (spec best) (spec c)

-- Classify returns the zero class if no class matches the job. Otherwise it returns a declared class
-- that matches, that sets more fields than every matching class declared before it, and at least as
-- many as every matching class declared after it: the most specific one, and of equals the first.
pub classify-best :
    (classes : List Class) (info : JobInfo)
    → ((classify classes info ≡ zero_class)
        × All (λ (c : Class). ¬ Matches c.selector info) classes)
      ⊎ ((before : List Class) × (after : List Class) × (classes
            ≡ before ++ classify classes info ∷ after)
          × Matches (classify classes info).selector info
          × All
              (λ c.
                Matches c.selector info
                → specificity c.selector < specificity (classify classes info).selector)
              before
          × All
              (λ c.
                Matches c.selector info
                → specificity c.selector ≤ specificity (classify classes info).selector)
              after)
unfolding classify
classify-best classes info =
    elim (select_cases (λ c. satisfies c.selector info) more_specific
      (λ a b c. ltb_trans (spec a) (spec b) (spec c))
      (λ w x b. ltb_beyond (spec w) (spec x) (spec b)) classes) [
        | inl (e, all) ↦
            rw (e, classify)
              (inl
                (refl, All-map classes (λ c f m. cc (f, (satisfies_iff c.selector info).1 m)) all))
        | inr (w, before, after, e, split, best) ↦
            rw (e, classify)
              (inr (
                before,
                after,
                split,
                (satisfies_iff w.selector info).0 best.accepted,
                All-map before (λ c h m. ltb-lt _ _ (h ((satisfies_iff c.selector info).1 m)))
                    best.beats,
                All-map after (λ c h m. ltb-ge _ _ (h ((satisfies_iff c.selector info).1 m)))
                    best.unbeaten,
              ))
      ]
