-- ===== src/Gh.antt =====
-- internal/gh/reconciler.go: the decisions of one tick over the rows of the pool, the runners that
-- GitHub reports and the VMs that Proxmox reports.
pub mod Matrix
pub mod Orphans
pub mod Listing
pub mod Registrations
mod Examples
use actions_runner_scaleset.Prelude.{
  ℕ, ◌+◌, ◌==◌, Bool, true, false, not, Option, none, some, List, [], ◌∷◌, String, str_eq, ltb, any,
  filter, if◌then◌else◌,
}
use actions_runner_scaleset.Prelude.Dict.{lookup, erase, insert}
use actions_runner_scaleset.Pool.Config.{RunnerInfo}
use actions_runner_scaleset.Store.{Vm, State, assigned, running, recycling, hot}

pub record GhConfig : Type 0 where
  pub assigned_grace : ℕ
  pub running_idle_grace : ℕ
  pub assigned_offline_grace : ℕ
  pub orphan_grace : ℕ

pub data Label : Type 0 where
  missing_label offline_label busy_label idle_label : Label

-- ghStateLabel
unfoldable pub gh_state_label : Option RunnerInfo → Label
gh_state_label none = missing_label
gh_state_label (some gr) =
    if not gr.online then offline_label else if gr.busy then busy_label else idle_label

-- A cell of the table: what to do, after a grace where there is one.
pub data Action : Type 0 where
  noop promotes : Action
  destroys_now : Action
  destroys_after : (GhConfig → ℕ) → Action

-- stateTransitionTable; the rows of the other states have no cell
unfoldable pub state_transition_table : State → Label → Option Action
state_transition_table assigned busy_label = some promotes
state_transition_table assigned offline_label =
    some (destroys_after (λ c. c.assigned_offline_grace))
state_transition_table assigned idle_label = some (destroys_after (λ c. c.assigned_grace))
state_transition_table assigned missing_label = some (destroys_after (λ c. c.assigned_grace))
state_transition_table running busy_label = some noop
state_transition_table running idle_label = some (destroys_after (λ c. c.running_idle_grace))
state_transition_table running offline_label = some (destroys_after (λ c. c.running_idle_grace))
state_transition_table running missing_label = some destroys_now
state_transition_table recycling label = some noop
state_transition_table hot busy_label = some promotes
state_transition_table hot label = some noop
state_transition_table s label = none

-- The calls of the pool manager that a tick makes.
pub data Command : Type 0 where
  promote_to_running : ℕ → ℕ → ℕ → Command
  force_destroy : ℕ → Command

abbrev runner_id_of : Option RunnerInfo → ℕ
runner_id_of none = 0
runner_id_of (some gr) = gr.id

-- The action of a cell for a row; its age is now - StateSince
unfoldable pub run_action : GhConfig → ℕ → Vm → Option RunnerInfo → Option Action → Option Command
run_action cfg now row gr none = none
run_action cfg now row gr (some noop) = none
run_action cfg now row gr (some promotes) =
    some (promote_to_running row.vmid (runner_id_of gr) row.job_id)
run_action cfg now row gr (some destroys_now) = some (force_destroy row.vmid)
run_action cfg now row gr (some (destroys_after grace)) =
    if ltb now (row.state_since + grace cfg) then none else some (force_destroy row.vmid)

-- The body of the loop of applyMatrix.
unfoldable pub decide : GhConfig → ℕ → Vm → Option RunnerInfo → Option Command
unfolding gh_state_label state_transition_table run_action
decide cfg now row gr =
    run_action cfg now row gr (state_transition_table row.state (gh_state_label gr))

-- applyMatrix
unfoldable pub apply_matrix : GhConfig → ℕ → List Vm → List (String × RunnerInfo) → List Command
unfolding decide
apply_matrix cfg now [] runners = []
apply_matrix cfg now (row ∷ rows) runners =
    elim (decide cfg now row (lookup str_eq row.name runners)) [
      | none ↦ apply_matrix cfg now rows runners
      | some c ↦ c ∷ apply_matrix cfg now rows runners
    ]

-- `_, ok := known[vmid]`
unfoldable pub is_known : ℕ → List ℕ → Bool
is_known vmid known = any (λ k. k == vmid) known

-- The pruning of the first-seen clocks in sweepProxmoxOrphans.
unfoldable pub prune_known : List ℕ → List (ℕ × ℕ) → List (ℕ × ℕ)
prune_known [] clocks = clocks
prune_known (k ∷ known) clocks = prune_known known (erase (λ a b. a == b) k clocks)

-- The loop of sweepProxmoxOrphans over the VMs of Proxmox: the clocks that are left, and the VMs whose
-- destroy is asked for. `gone` says whether that destroy succeeds.
unfoldable pub sweep_vms :
    ℕ → ℕ → List ℕ → (ℕ → Bool) → List ℕ → List (ℕ × ℕ) → List (ℕ × ℕ) × List ℕ
unfolding is_known
sweep_vms grace now known gone [] clocks = (clocks, [])
sweep_vms grace now known gone (vmid ∷ vmids) clocks =
    if is_known vmid known
    then sweep_vms grace now known gone vmids clocks
    else elim (lookup (λ a b. a == b) vmid clocks) [
      | none ↦ sweep_vms grace now known gone vmids (insert (λ a b. a == b) vmid now clocks)
      | some first ↦
          if ltb now (first + grace)
          then sweep_vms grace now known gone vmids clocks
          else (let (left, rest) =
                sweep_vms grace now known gone vmids
                  (if gone vmid then erase (λ a b. a == b) vmid clocks else clocks) in
              (left, vmid ∷ rest))
    ]

-- sweepProxmoxOrphans, after a listing that succeeded
unfoldable pub sweep_proxmox_orphans :
    ℕ → ℕ → List ℕ → (ℕ → Bool) → List ℕ → List (ℕ × ℕ) → List (ℕ × ℕ) × List ℕ
unfolding sweep_vms prune_known
sweep_proxmox_orphans grace now known gone vmids clocks =
    sweep_vms grace now known gone vmids (prune_known known clocks)
