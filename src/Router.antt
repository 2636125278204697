-- ===== src/Router.antt =====
-- internal/router/router.go: the choice of the profile that serves a job's labels.
pub mod Tightest
mod Examples
use actions_runner_scaleset.Prelude.{
  ℕ, ◌-◌, Bool, true, false, not, ◌&&◌, Option, none, some, List, [], ◌∷◌, ◌++◌, map, String,
  str_eq, contains, length, filter, ltb, if◌then◌else◌,
}
use actions_runner_scaleset.Prelude.Choice.{select}

-- A profile, and its normalised form, whose labels are a set.
pub record Profile : Type 0 where
  pub name : String
  pub labels : List String

-- The set built from a list of labels.
unfoldable pub label_set : List String → List String
label_set [] = []
label_set (l ∷ ls) = let rest = label_set ls in if contains l rest then rest else l ∷ rest

pub data ProfileError : Type 0 where
  name_required duplicate_name : ProfileError

-- The checks of New, with the names seen so far; none is a valid list.
unfoldable pub check_profiles : List String → List Profile → Option ProfileError
check_profiles seen [] = none
check_profiles seen (p ∷ ps) =
    let rest = check_profiles (p.name ∷ seen) ps in
    if str_eq p.name ""
    then some name_required
    else if contains p.name seen
    then some duplicate_name
    else rest

-- The profiles of a Router that New built.
unfoldable pub normalise : List Profile → List Profile
unfolding label_set
normalise [] = []
normalise (p ∷ ps) = record p { labels = label_set p.labels } ∷ normalise ps

-- containsAll
unfoldable pub contains_all : List String → List String → Bool
contains_all have [] = true
contains_all have (w ∷ ws) =
    let rest = contains_all have ws in if contains w have then rest else false

-- The labels of a profile beyond those asked for.
abbrev pub extra : List String → Profile → ℕ
extra job_labels p = length p.labels - length job_labels

-- Router.Route, of a router that is not nil; none is ErrNoMatchingProfile
unfoldable pub route : List Profile → List String → Option String
unfolding contains_all
route profiles job_labels =
    elim (select (λ p. contains_all p.labels job_labels)
      (λ p best. ltb (extra job_labels p) (extra job_labels best)) profiles) [
        | none ↦ none
        | some p ↦ some p.name
      ]

-- The union of the labels of all profiles.
unfoldable pub label_union : List Profile → List String
label_union [] = []
label_union (p ∷ ps) = p.labels ++ label_union ps

-- Router.CoverageGaps, of a router that is not nil
unfoldable pub coverage_gaps : List Profile → List String → List String
unfolding label_union
coverage_gaps profiles scale_set_labels =
    filter (λ l. not (contains l (label_union profiles))) scale_set_labels
