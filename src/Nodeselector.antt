-- ===== src/Nodeselector.antt =====
-- internal/nodeselector/nodeselector.go: the choice of the node of a new VM. A selector is a state with the
-- function Select; the least-loaded one, which compares float64 scores, is left to the parameter.
mod Placed
mod Examples
use actions_runner_scaleset.Prelude.{
  ℕ, zero, suc, ◌+◌, ◌%◌, ◌==◌, ◌≡◌, Bool, true, false, not, ◌&&◌, ◌||◌, Option, none, some, List,
  [], ◌∷◌, ◌++◌, String, str_eq, contains, filter, length, In, if◌then◌else◌,
}
use actions_runner_scaleset.Prelude.Dict.{lookup}
use actions_runner_scaleset.Nodecap.{Shape}
use actions_runner_scaleset.Config.Fields.{AffinityRule}

pub record ExistingVm : Type 0 where
  pub node : String
  pub profile : String

pub record Hint : Type 0 where
  pub avoid : List String
  pub profile : String
  pub existing_vms : List ExistingVm
  pub shape : Shape

-- `no_capacity` is ErrNoCapacity and `unsatisfiable` ErrAffinityRequireUnsatisfiable.
pub data Answer : Type 0 where
  chosen : String → Answer
  no_node unsatisfiable no_capacity : Answer

-- The interface Selector.
pub record Selector : Type 1 where
  pub Memory : Type 0
  pub select : Memory → Hint → Memory × Answer

-- A selector that chooses among the nodes only, and none that is to be avoided.
pub record Honours (all_nodes : List String) (s : Selector) : Type 0 where
  pub known : (t : s.Memory) (h : Hint) (n : String) → (s.select t h).1 ≡ chosen n → In n all_nodes
  pub avoids :
      (t : s.Memory) (h : Hint) (n : String)
      → (s.select t h).1 ≡ chosen n
      → contains n h.avoid ≡ false

-- single.Select
unfoldable pub single_select : String → Hint → Answer
unfolding contains
single_select node h = if contains node h.avoid then no_node else chosen node

abbrev pub single : String → Selector
single node = record { Memory = Unit {0}; select = λ t h. (t, single_select node h) }

-- `nodes[i]`, with the next ones from the start
abbrev nth : List String → ℕ → Option String
nth [] i = none
nth (n ∷ ns) zero = some n
nth (n ∷ ns) (suc i) = nth ns i

-- The loop of roundRobin.Select, with the turns left. The index is within the nodes.
unfoldable pub rotate : List String → Hint → ℕ → ℕ → ℕ × Answer
unfolding contains
rotate nodes h zero next = (next, no_node)
rotate nodes h (suc turns) next =
    let after = (next + 1) % length nodes in
    let rest = rotate nodes h turns after in
    elim (nth nodes next) [
      | none ↦ (next, no_node)
      | some node ↦ if contains node h.avoid then rest else (after, chosen node)
    ]

abbrev pub round_robin : List String → Selector
round_robin nodes = record { Memory = ℕ; select = λ next h. rotate nodes h (length nodes) next }

-- matchingRule
unfoldable pub matching_rule : List AffinityRule → String → Option AffinityRule
matching_rule [] profile = none
matching_rule (r ∷ rs) profile =
    let rest = matching_rule rs profile in
    if str_eq r.matched "" || str_eq r.matched profile then some r else rest

-- The nodes of the VMs that a rule keeps apart from.
unfoldable pub excluded_by : String → List ExistingVm → List String
excluded_by profile [] = []
excluded_by profile (v ∷ vs) =
    let rest = excluded_by profile vs in
    if not (str_eq profile "") && str_eq v.profile profile then v.node ∷ rest else rest

unfoldable pub eligible_from : List String → List String → List String → List String
unfolding filter contains
eligible_from candidates excluded avoid =
    filter (λ n. not (contains n excluded) && not (contains n avoid)) candidates

-- The call of the underlying selector, with the nodes to avoid that are not eligible.
unfoldable pub among : List String → List String → Hint → List String
unfolding filter contains
among all_nodes eligible h = h.avoid ++ filter (λ n. not (contains n eligible)) all_nodes

-- affinityWrapper.Select
module _ (s : Selector) where
  unfoldable pub affinity_select :
      List AffinityRule → List String → s.Memory → Hint → s.Memory × Answer
  unfolding matching_rule excluded_by eligible_from among
  affinity_select rules all_nodes t h = elim (matching_rule rules h.profile) [
    | none ↦ s.select t h
    | some r ↦
        let excluded = excluded_by r.anti_affinity_with h.existing_vms in
        let preferred = if length r.prefer_nodes == 0 then all_nodes else r.prefer_nodes in
        elim (eligible_from preferred excluded h.avoid) [
          | n ∷ ns ↦ s.select t (record h { avoid = among all_nodes (n ∷ ns) h })
          | [] ↦
              if r.require
              then (t, unsatisfiable)
              else elim (eligible_from all_nodes excluded h.avoid) [
                | [] ↦ (t, no_node)
                | n ∷ ns ↦ s.select t (record h { avoid = among all_nodes (n ∷ ns) h })
              ]
        ]
  ]

  abbrev pub affinity : List AffinityRule → List String → Selector
  affinity rules all_nodes = record { Memory = s.Memory; select = affinity_select rules all_nodes }

-- `fits[n]`
unfoldable pub has_room : List (String × Bool) → String → Bool
unfolding lookup
has_room answer n = elim (lookup str_eq n answer) [ none ↦ false | some b ↦ b ]

module _ (s : Selector) (fits : Shape → List String → Option (List (String × Bool))) where
  -- capacityWrapper.Select; `fits` is what Fits answers for the candidates, none an error
  unfoldable pub capacity_select : List String → s.Memory → Hint → s.Memory × Answer
  unfolding filter contains has_room
  capacity_select all_nodes t h =
      let candidates = filter (λ n. not (contains n h.avoid)) all_nodes in
      if (h.shape.memory_bytes == 0 && h.shape.vcpus == 0) || length candidates == 0
      then s.select t h
      else elim (fits h.shape candidates) [
        | none ↦ (t, no_capacity)
        | some answer ↦
            if length (filter (has_room answer) candidates) == 0
            then (t, no_capacity)
            else s.select t
                (record h { avoid = h.avoid ++ filter (λ n. not (has_room answer n)) candidates })
      ]

  abbrev pub capacity : List String → Selector
  capacity all_nodes = record { Memory = s.Memory; select = capacity_select all_nodes }
