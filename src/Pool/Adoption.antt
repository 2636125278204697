-- ===== src/Pool/Adoption.antt =====
-- The adoption of inherited VMs at startup in internal/pool/manager.go: classifyAdoption and adoptOne.
-- `power` is the answer of the PowerState query: none for an error, and whether it is "running".
pub mod Fates
mod Examples
use actions_runner_scaleset.Prelude.{
  ℕ, ◌==◌, Bool, true, false, not, ◌&&◌, Option, none, some, List, [], ◌∷◌, String, str_eq, is_some,
  if◌then◌else◌,
}
use actions_runner_scaleset.Store.{
  Vm, State, PoolKind, warm, hot, assigned, running, recycling, hot_kind, warm_kind, Result, ok,
  err, state_eq,
}
use actions_runner_scaleset.Store.Table.{Memdb}
use actions_runner_scaleset.Store.Write.{insert}
use actions_runner_scaleset.Pool.Config.{Config, RunnerInfo, profile_of, default_profile}
use actions_runner_scaleset.Pool.Handlers.{Effect, rollback_async}

-- A VM that Proxmox lists under our tags.
pub record OwnedVm : Type 0 where
  pub vmid : ℕ
  pub node : String
  pub name : String
  pub profile : String

pub record AdoptionClass : Type 0 where
  pub state : State
  pub kind : PoolKind
  pub with_runner_id : Bool

-- adoptionMatrix, at (powerRunning, runnerPresent, runnerBusy)
unfoldable pub adoption_matrix : Bool → Bool → Bool → AdoptionClass
adoption_matrix false present busy = record {
  state = warm;
  kind = warm_kind;
  with_runner_id = false;
}
adoption_matrix true false busy = record { state = hot; kind = hot_kind; with_runner_id = false }
adoption_matrix true true false = record {
  state = assigned;
  kind = hot_kind;
  with_runner_id = true;
}
adoption_matrix true true true = record { state = running; kind = hot_kind; with_runner_id = true }

abbrev pub runner_id_of : Option RunnerInfo → ℕ
runner_id_of none = 0
runner_id_of (some gr) = gr.id

abbrev is_busy_runner : Option RunnerInfo → Bool
is_busy_runner none = false
is_busy_runner (some gr) = gr.busy

-- classifyAdoption
unfoldable pub classify_adoption : Option Bool → Option RunnerInfo → State × PoolKind × ℕ
unfolding adoption_matrix
classify_adoption none gr = (hot, hot_kind, 0)
classify_adoption (some power) gr =
    let class = adoption_matrix power (is_some gr) (is_busy_runner gr) in
    (class.state, class.kind, if class.with_runner_id then runner_id_of gr else 0)

-- The profile that the VM is routed to.
unfoldable pub adoption_profile : Config → String → String
unfolding profile_of default_profile
adoption_profile cfg profile =
    if str_eq profile ""
    then default_profile cfg.profiles
    else if is_some (profile_of cfg.profiles profile)
    then profile
    else default_profile cfg.profiles

-- The row that adoptOne inserts.
unfoldable pub adopted_row : Config → OwnedVm → Option Bool → Option RunnerInfo → Vm
unfolding classify_adoption adoption_profile
adopted_row cfg pv power gr =
    let (state, kind, runner_id) = classify_adoption power gr in
    let recycle_on_adopt = cfg.snapshot_recycle && state_eq state warm in
    record {
      vmid = pv.vmid;
      node = pv.node;
      name = pv.name;
      profile = adoption_profile cfg pv.profile;
      org = "";
      repo = "";
      priority_class = "";
      template = "";
      pool_kind = kind;
      state = if recycle_on_adopt then recycling else state;
      job_id = 0;
      runner_id = if recycle_on_adopt && is_some gr then runner_id_of gr else runner_id;
      boot_attempts = 0;
      recycle_count = 0;
      has_recycle_snapshot = cfg.snapshot_recycle;
      created_at = 0;
      updated_at = 0;
      state_since = 0;
    }

module _ (db : Memdb) where
  open db use {Table}

  -- The rollback that follows an insert that succeeded.
  unfoldable pub after_adoption :
      Config → OwnedVm → Option Bool → Option RunnerInfo → Result (Unit {0}) → List Effect
  unfolding classify_adoption adoption_profile
  after_adoption cfg pv power gr (err e) = []
  after_adoption cfg pv power gr (ok u) =
      if cfg.snapshot_recycle && state_eq (classify_adoption power gr).0 warm
      then rollback_async pv.vmid pv.node pv.name (adoption_profile cfg pv.profile) ∷ []
      else []

  -- adoptOne
  unfoldable pub adopt_one :
      Config → Table → OwnedVm → Option Bool → Option RunnerInfo → ℕ → Table × List Effect
  unfolding adopted_row after_adoption
  adopt_one cfg t pv power gr now =
      let (u, r) = insert db t (adopted_row cfg pv power gr) now in
      (u, after_adoption cfg pv power gr r)
