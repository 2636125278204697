-- ===== src/Priority.antt =====
-- internal/priority/priority.go: the choice of the priority class of a job. Weights are natural
-- numbers here; the matcher only carries them.
pub mod Best
mod Examples
use actions_runner_scaleset.Prelude.{
  ℕ, ◌+◌, Bool, true, false, not, ◌&&◌, ◌||◌, Option, none, some, List, [], ◌∷◌, String, str_eq,
  contains, bit, ltb, if◌then◌else◌,
}
use actions_runner_scaleset.Prelude.Choice.{select}

pub record JobInfo : Type 0 where
  pub org : String
  pub repo : String
  pub workflow_labels : List String

pub record Match : Type 0 where
  pub workflow_label : String
  pub repo : String
  pub org : String

pub record Class : Type 0 where
  pub name : String
  pub selector : Match
  pub weight : ℕ
  pub preempt : Bool

-- ZeroClass
abbrev pub zero_class : Class
zero_class = record {
  name = "default";
  selector = record { workflow_label = ""; repo = ""; org = "" };
  weight = 0;
  preempt = false;
}

pub data ClassError : Type 0 where
  empty_class_name duplicate_class : ClassError

-- The checks of New, with the names seen so far; none is a valid list.
unfoldable pub check_classes : List String → List Class → Option ClassError
check_classes seen [] = none
check_classes seen (c ∷ cs) =
    let rest = check_classes (c.name ∷ seen) cs in
    if str_eq c.name ""
    then some empty_class_name
    else if contains c.name seen
    then some duplicate_class
    else rest

-- Match.satisfies
unfoldable pub satisfies : Match → JobInfo → Bool
satisfies s info =
    if not (str_eq s.org "") && not (str_eq s.org info.org)
    then false
    else if not (str_eq s.repo "") && not (str_eq s.repo info.repo)
    then false
    else if not (str_eq s.workflow_label "") && not (contains s.workflow_label info.workflow_labels)
    then false
    else true

-- Match.specificity
unfoldable pub specificity : Match → ℕ
specificity s =
    bit (not (str_eq s.org ""))
    + bit (not (str_eq s.repo ""))
    + bit (not (str_eq s.workflow_label ""))

-- Matcher.Classify, of a matcher that is not nil
unfoldable pub classify : List Class → JobInfo → Class
unfolding satisfies specificity
classify classes info =
    elim (select (λ c. satisfies c.selector info)
      (λ c best. ltb (specificity best.selector) (specificity c.selector)) classes) [
        | none ↦ zero_class
        | some c ↦ c
      ]
