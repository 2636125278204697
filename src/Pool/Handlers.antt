-- ===== src/Pool/Handlers.antt =====
-- The manager's handlers of internal/pool/manager.go that the scaler, the GitHub reconciler and the
-- admin API call. A handler that reads the table and then writes it takes both tables: other
-- goroutines may have committed transactions between the two. `now` is the clock of the write
-- transaction, and `since` the clock that its mutator reads.
mod Examples
pub mod Spares
pub mod Teardown
pub mod Completed
use actions_runner_scaleset.Prelude.{
  ℕ, ◌+◌, ◌==◌, Bool, true, false, not, ◌&&◌, Option, none, some, List, [], ◌∷◌, String, str_eq,
  ltb, if◌then◌else◌,
}
use actions_runner_scaleset.Store.{
  Vm, State, provisioning, warm, booting, hot, assigned, running, recycling, draining, destroying,
  poison, Result, ok, err, Error, not_found,
}
use actions_runner_scaleset.Store.Table.{Memdb}
use actions_runner_scaleset.Store.Read.{get_row}
use actions_runner_scaleset.Store.Write.{update, update_state, update_state_in}
use actions_runner_scaleset.Pool.Config.{Config, profile_of}

-- What a handler starts besides its writes.
pub data Effect : Type 0 where
  -- `m.destroyAsync(vmid, node, profile)`
  destroy_async : ℕ → String → String → Effect
  -- `m.rollbackAsync(vmid, node, name, profile)`
  rollback_async : ℕ → String → String → String → Effect
  -- `m.SignalRefill()`
  signal_refill : Effect

pub data Reply : Type 0 where
  done : Reply
  -- A store error, wrapped.
  failed : Error → Reply
  -- ErrPreemptRefused
  refused : Reply

pub record JobMetadata : Type 0 where
  pub org : String
  pub repo : String
  pub priority_class : String

abbrev pub reply_of {ℓ} : {A : Type ℓ} → Result A → Reply
reply_of (ok a) = done
reply_of (err e) = failed e

-- Update with ErrNotFound taken as success.
abbrev pub reply_unless_missing {ℓ} : {A : Type ℓ} → Result A → Reply
reply_unless_missing (ok a) = done
reply_unless_missing (err not_found) = done
reply_unless_missing (err e) = failed e

-- What follows a compare-and-set: the effects when it was applied, `lost` when it was not.
abbrev pub after_cas {ℓ} :
    {T : Type ℓ} → T × Result Bool → List Effect → Reply → T × List Effect × Reply
after_cas (u, ok true) effects lost = (u, effects, done)
after_cas (u, ok false) effects lost = (u, [], lost)
after_cas (u, err e) effects lost = (u, [], failed e)

abbrev pub set_since : ℕ → Vm → Vm
set_since since v = record v { state_since = since }

abbrev pub set_runner : ℕ → Vm → Vm
set_runner runner_id v = record v { runner_id = runner_id }

abbrev or_kept : String → String → String
or_kept new old = if str_eq new "" then old else new

-- The states that ForceDestroy accepts.
abbrev pub destroyable : List State
destroyable = provisioning ∷ warm ∷ booting ∷ hot ∷ assigned ∷ running ∷ recycling ∷ poison ∷ []

-- The teardown that ForceDestroy starts, with the node and the profile its mutator captures.
abbrev pub captured : ℕ → Option Vm → List Effect
captured vmid none = []
captured vmid (some v) = destroy_async vmid v.node v.profile ∷ []

-- shouldRecycle
unfoldable pub should_recycle : Config → Vm → ℕ → Bool
unfolding profile_of
should_recycle cfg row now =
    if not cfg.snapshot_recycle
    then false
    else if not row.has_recycle_snapshot
    then false
    else let max_age : ℕ = elim (profile_of cfg.profiles row.profile) [
      | none ↦ cfg.vm_max_age
      | some ps ↦ ps.vm_max_age
    ] in
      if max_age == 0 then true else ltb now (row.created_at + max_age)

module _ (db : Memdb) where
  open db use {Table, first}

  -- SetRunnerID
  unfoldable pub set_runner_id : Table → ℕ → ℕ → ℕ → Table × Reply
  set_runner_id t vmid runner_id now =
      if runner_id == 0
      then (t, done)
      else let (u, r) = update db t vmid (set_runner runner_id) now in (u, reply_unless_missing r)

  -- StampJobMetadata
  unfoldable pub stamp_job_metadata : Table → ℕ → JobMetadata → ℕ → Table × Reply
  stamp_job_metadata t vmid meta now =
      if str_eq meta.org "" && str_eq meta.repo "" && str_eq meta.priority_class ""
      then (t, done)
      else let (u, r) =
          update db t vmid
            (λ v. record v {
              org = or_kept meta.org v.org;
              repo = or_kept meta.repo v.repo;
              priority_class = or_kept meta.priority_class v.priority_class;
            })
            now in
        (u, reply_unless_missing r)

  -- MarkRunning
  unfoldable pub mark_running : Table → ℕ → ℕ → ℕ → Table × Reply
  mark_running t vmid runner_id now =
      let (u, r) = update_state db t vmid assigned running (set_runner runner_id) now in
      (u, reply_of r)

  -- PromoteToRunning
  unfoldable pub promote_to_running : Table → ℕ → ℕ → ℕ → ℕ → Table × Reply
  promote_to_running t vmid runner_id job_id now =
      let (u, r) =
        update_state_in db t vmid (assigned ∷ hot ∷ []) running
          (λ v. record v {
            runner_id = runner_id;
            job_id = if job_id == 0 then v.job_id else job_id;
          })
          now in
      (u, reply_of r)

  -- ForceDestroy
  unfoldable pub force_destroy : Table → ℕ → ℕ → Table × List Effect × Reply
  force_destroy t vmid now =
      after_cas (update_state_in db t vmid destroyable draining (λ v. v) now)
        (captured vmid (first t vmid)) done

  -- The end of Preempt, for a row that was read in the given state.
  unfoldable pub preempt_in : Table → Vm → ℕ → ℕ → ℕ → State → Table × List Effect × Reply
  preempt_in t target vmid since now assigned =
      after_cas (update_state db t vmid assigned draining (set_since since) now)
        (destroy_async vmid target.node target.profile ∷ []) refused
  preempt_in t target vmid since now s = (t, [], refused)

  -- Preempt; its lookup fails only for a missing row
  unfoldable pub preempt : Table → Table → ℕ → ℕ → ℕ → Table × List Effect × Reply
  unfolding preempt_in
  preempt t_read t vmid since now = elim (get_row db t_read vmid) [
    | err e ↦ (t, [], refused)
    | ok target ↦ preempt_in t target vmid since now target.state
  ]

  -- The end of MarkCompleted, for a busy row; `asked` is the clock of shouldRecycle
  unfoldable pub complete_busy : Config → Table → Vm → ℕ → ℕ → ℕ → ℕ → Table × List Effect × Reply
  unfolding should_recycle
  complete_busy cfg t target vmid asked since now =
      if should_recycle cfg target asked
      then after_cas
          (update_state_in db t vmid (assigned ∷ running ∷ []) recycling (set_since since) now)
          (rollback_async target.vmid target.node target.name target.profile ∷ signal_refill ∷ [])
          done
      else after_cas
          (update_state_in db t vmid (assigned ∷ running ∷ []) draining (set_since since) now)
          (destroy_async target.vmid target.node target.profile ∷ signal_refill ∷ []) done

  -- The switch of MarkCompleted.
  unfoldable pub complete_in :
      Config → Table → Vm → ℕ → ℕ → ℕ → ℕ → State → Table × List Effect × Reply
  unfolding complete_busy
  complete_in cfg t target vmid asked since now assigned =
      complete_busy cfg t target vmid asked since now
  complete_in cfg t target vmid asked since now running =
      complete_busy cfg t target vmid asked since now
  complete_in cfg t target vmid asked since now recycling = (t, signal_refill ∷ [], done)
  complete_in cfg t target vmid asked since now draining = (t, signal_refill ∷ [], done)
  complete_in cfg t target vmid asked since now destroying = (t, signal_refill ∷ [], done)
  complete_in cfg t target vmid asked since now s = (t, [], done)

  -- MarkCompleted; its lookup fails only for a missing row
  unfoldable pub mark_completed :
      Config → Table → Table → ℕ → ℕ → ℕ → ℕ → Table × List Effect × Reply
  unfolding complete_in
  mark_completed cfg t_read t vmid asked since now = elim (get_row db t_read vmid) [
    | err e ↦ (t, [], done)
    | ok target ↦ complete_in cfg t target vmid asked since now target.state
  ]
