-- ===== src/Pool/Vmids.antt =====
-- The minting of VMIDs in internal/pool/manager.go: allocateVMID and allocateVMIDAndInsertRow. The
-- allocation mutex is held throughout, but other transactions of the store may come between the
-- reading of the used VMIDs and the insert.
pub mod Lowest
mod Examples
use actions_runner_scaleset.Prelude.{
  ℕ, zero, suc, ◌+◌, ◌-◌, ◌==◌, Bool, true, false, ◌||◌, Option, none, some, List, [], ◌∷◌, String,
  any, if◌then◌else◌,
}
use actions_runner_scaleset.Store.{Vm, PoolKind, provisioning, Result, ok, err, Error}
use actions_runner_scaleset.Store.Table.{Memdb}
use actions_runner_scaleset.Store.Read.{used_vmids}
use actions_runner_scaleset.Store.Write.{insert}
use actions_runner_scaleset.Pool.Config.{ProfileSettings}

-- `_, taken := used[id]`
unfoldable pub is_used : ℕ → List ℕ → Bool
is_used id used = any (λ k. k == id) used

-- The loop of allocateVMID over the next `fuel` ids; `settling` is IsRecentlyDestroyed of the
-- provisioner. A cancelled context ends the loop early with an error; it is not cancelled here.
unfoldable pub lowest_free : (ℕ → Bool) → List ℕ → ℕ → ℕ → Option ℕ
unfolding is_used
lowest_free settling used zero id = none
lowest_free settling used (suc fuel) id =
    let rest = lowest_free settling used fuel (suc id) in
    if is_used id used then rest else if settling id then rest else some id

-- The selection of the template by the canary controller: none when it is off or fails.
pub record TemplatePick : Type 0 where
  pub template_vmid : ℕ
  pub template : String

pub record Minted : Type 0 where
  pub vmid : ℕ
  pub name : String
  pub template_vmid : ℕ
  pub template_class : String

module _ (db : Memdb) where
  open db use {Table}

  -- allocateVMID
  unfoldable pub allocate_vmid : (ℕ → Bool) → ℕ → ℕ → Table → Option ℕ
  unfolding lowest_free
  allocate_vmid settling min_id max_id t =
      lowest_free settling (used_vmids db t min_id max_id) (suc max_id - min_id) min_id

  -- The row that a clone starts from.
  unfoldable pub new_row : ProfileSettings → PoolKind → String → ℕ → String → String → Vm
  new_row ps kind node vmid name template_class = record {
    vmid = vmid;
    node = node;
    name = name;
    profile = ps.name;
    org = "";
    repo = "";
    priority_class = "";
    template = template_class;
    pool_kind = kind;
    state = provisioning;
    job_id = 0;
    runner_id = 0;
    boot_attempts = 0;
    recycle_count = 0;
    has_recycle_snapshot = false;
    created_at = 0;
    updated_at = 0;
    state_since = 0;
  }

  abbrev class_of : Option TemplatePick → String
  class_of none = "stable"
  class_of (some p) = p.template

  abbrev template_of : ProfileSettings → Option TemplatePick → ℕ
  template_of ps none = ps.template_vmid
  template_of ps (some p) = if p.template_vmid == 0 then ps.template_vmid else p.template_vmid

  abbrev minted : Result (Unit {0}) → Minted → Result Minted
  minted (ok u) m = ok m
  minted (err e) m = err e

  -- allocateVMIDAndInsertRow, without the wrapping of its errors; none is an exhausted range.
  -- `name_of` prints the VM name prefix and the VMID, `pick` is the canary controller's choice.
  unfoldable pub allocate_vmid_and_insert_row :
      (ℕ → Bool)
      → ℕ
      → ℕ
      → (ℕ → String)
      → (ℕ → Option TemplatePick)
      → ProfileSettings
      → PoolKind
      → String
      → ℕ
      → Table
      → Table
      → Table × Option (Result Minted)
  unfolding allocate_vmid new_row
  allocate_vmid_and_insert_row settling min_id max_id name_of pick ps kind node now t_used t =
      elim (allocate_vmid settling min_id max_id t_used) [
        | none ↦ (t, none)
        | some vmid ↦
            let (u, r) =
              insert db t (new_row ps kind node vmid (name_of vmid) (class_of (pick vmid))) now in
            (
              u,
              some (
                  minted r (record {
                    vmid = vmid;
                    name = name_of vmid;
                    template_vmid = template_of ps (pick vmid);
                    template_class = class_of (pick vmid);
                  })),
            )
      ]
