-- ===== src/Router/Tightest.antt =====
-- Route and CoverageGaps of internal/router/router.go.
use actions_runner_scaleset.Prelude.{
  ℕ, ◌≡◌, ◌≤◌, ◌<◌, ◌↔◌, refl, inl, inr, ◌⊎◌, true, false, not, none, some, List, [], ◌∷◌, ◌++◌,
  String, contains, contains_iff, In, In-filter, In-append, arith, All, All-map, ltb, ltb_trans,
  ltb-lt, ltb-ge, Bool-cases,
}
use actions_runner_scaleset.Prelude.Choice.{select_cases}
use actions_runner_scaleset.Router.{Profile, contains_all, extra, route, label_union, coverage_gaps}

-- The profile carries every label that the job asks for.
abbrev pub Serves : List String → Profile → Type 0
Serves job_labels p = All (λ l. In l p.labels) job_labels

pub contains_all_iff :
    (have want : List String) → (contains_all have want ≡ true) ↔ All (λ l. In l have) want
unfolding contains_all
contains_all_iff have [] = (λ h. tt, λ h. refl)
contains_all_iff have (w ∷ ws) = ground (arith, contains_iff w have, contains_all_iff have ws)

-- Route finds no profile exactly when no profile carries every label of the job. Otherwise it names
-- a profile that does, with fewer extra labels than every such profile declared before it and at most
-- as many as every such profile declared after it.
pub route-tightest :
    (profiles : List Profile) (job_labels : List String)
    → ((route profiles job_labels ≡ none) × All (λ p. ¬ Serves job_labels p) profiles)
      ⊎ ((p : Profile) × (before : List Profile) × (after : List Profile) × (route profiles
              job_labels
            ≡ some p.name)
          × (profiles ≡ before ++ p ∷ after)
          × Serves job_labels p
          × All (λ q. Serves job_labels q → extra job_labels p < extra job_labels q) before
          × All (λ q. Serves job_labels q → extra job_labels p ≤ extra job_labels q) after)
unfolding route
route-tightest profiles job_labels =
    elim (select_cases (λ p. contains_all p.labels job_labels)
      (λ p best. ltb (extra job_labels p) (extra job_labels best))
      (λ a b c h k. ltb_trans (extra job_labels c) (extra job_labels b) (extra job_labels a) k h)
      (λ w x b h k. ltb_flip (extra job_labels w) (extra job_labels x) (extra job_labels b) h k)
      profiles) [
        | inl (e, all) ↦
            rw (e, route)
              (inl (
                refl,
                All-map profiles (λ p f m. cc (f, (contains_all_iff p.labels job_labels).1 m)) all,
              ))
        | inr (p, before, after, e, split, best) ↦
            rw (e, route)
              (inr (
                p,
                before,
                after,
                refl,
                split,
                (contains_all_iff p.labels job_labels).0 best.accepted,
                All-map before
                    (λ q h m. ltb-lt _ _ (h ((contains_all_iff q.labels job_labels).1 m)))
                    best.beats,
                All-map after (λ q h m. ltb-ge _ _ (h ((contains_all_iff q.labels job_labels).1 m)))
                    best.unbeaten,
              ))
      ]
  where
    ltb_flip : (w x b : ℕ) → ltb w b ≡ true → ltb x b ≡ false → ltb w x ≡ true
    ltb_flip w x b h k = ground arith

-- Some profile carries the label.
abbrev pub IsCarried : List Profile → String → Type 0
IsCarried profiles l = (p : Profile) × In p profiles × In l p.labels

union_iff :
    (profiles : List Profile) (l : String) → In l (label_union profiles) ↔ IsCarried profiles l
unfolding label_union
union_iff profiles l = (there profiles, λ (p, m, k). back profiles p m k)
  where
    there : (ps : List Profile) → In l (label_union ps) → IsCarried ps l
    there [] m = absurd m
    there (p ∷ ps) m = elim ((In-append l p.labels (label_union ps)).0 m) [
      | inl k ↦ (p, inl refl, k)
      | inr k ↦ (let (q, n, j) = there ps k in (q, inr n, j))
    ]

    back : (ps : List Profile) (p : Profile) → In p ps → In l p.labels → In l (label_union ps)
    back [] p m k = absurd m
    back (x ∷ ps) p (inl e) k = (In-append l x.labels (label_union ps)).1 (inl (rw e k))
    back (x ∷ ps) p (inr m) k = (In-append l x.labels (label_union ps)).1 (inr (back ps p m k))

-- The coverage gaps are exactly the labels of the scale set that no profile carries.
pub coverage_gaps_iff :
    (profiles : List Profile) (scale_set_labels : List String) (l : String)
    → In l (coverage_gaps profiles scale_set_labels)
      ↔ (In l scale_set_labels × (¬ IsCarried profiles l))
unfolding coverage_gaps
coverage_gaps_iff profiles scale_set_labels l =
    let test = In-filter (λ x. not (contains x (label_union profiles))) scale_set_labels l in
    (
      λ m. (
        (test.0 m).0,
        λ c.
            cc (
              (test.0 m).1,
              (contains_iff l (label_union profiles)).1 ((union_iff profiles l).1 c),
            ),
      ),
      λ (m, n). test.1 (
        m,
        elim (Bool-cases (contains l (label_union profiles))) [
          | inl y ↦
              absurd (n ((union_iff profiles l).0 ((contains_iff l (label_union profiles)).0 y)))
          | inr y ↦ rw y refl
        ],
      ),
    )
